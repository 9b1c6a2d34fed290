-- ===== src/Process/Renamed/Streams.antt =====
-- The streams of a process under two names.
use async_procfs.Prelude.{ℤ, none, some, List, [], ◌∷◌, Bytes, FilePath, Option, Result, ok, err}
use async_procfs.Env.{Env, IoError}
use async_procfs.Machine.{M}
use async_procfs.Machine.Alike.{Alike, Alike-refl, Alike-if, Alike-bind, Alike-attempt}
use async_procfs.Process.{Process}
use async_procfs.Process.Descriptors.{
  from_process_at, open_dir, count_items, with_entry, numbered_entries, fds, fd_items, fd_count,
}
use async_procfs.Process.Renamed.{renamed, alike}

module _ (E : Env) {A : Type 0} (make other : ℤ → M E A)
    (each : (id : ℤ) → Alike (make id) (other id)) where
  pub with_entry-Alike :
      (id : Option ℤ) (rest more : M E (List (Result A E.ProcError)))
      → Alike rest more
      → Alike (with_entry E make id rest) (with_entry E other id more)
  with_entry-Alike none rest more h = h
  with_entry-Alike (some id) rest more h =
      Alike-attempt _ _ _ _ (each id) (λ a. Alike-bind rest more _ _ h (λ items. Alike-refl _))
        (λ e f. Alike-bind rest more _ _ h (λ items. Alike-refl _))

  pub numbered_entries-Alike :
      (entries : List (Result Bytes IoError))
      → Alike (numbered_entries E make entries) (numbered_entries E other entries)
  unfolding numbered_entries
  numbered_entries-Alike [] = Alike-refl _
  numbered_entries-Alike (err e ∷ entries) = Alike-refl _
  numbered_entries-Alike (ok name ∷ entries) =
      with_entry-Alike _ _ _ (numbered_entries-Alike entries)

module _ (E : Env) (p : Process E.File) (path : FilePath) (pid : ℤ) where
  abbrev q : Process E.File
  q = renamed p path pid

  pub descriptor-Alike : (fd : ℤ) → Alike (from_process_at E p fd) (from_process_at E q fd)
  unfolding from_process_at
  descriptor-Alike fd = search alike depth 12

  pub open_dir-Alike :
      (base : E.File) (relpath full other : FilePath)
      → Alike (open_dir E base relpath full) (open_dir E base relpath other)
  open_dir-Alike base relpath full other = search alike depth 12

  pub fd_items-Alike : (dir : E.Dir) → Alike (fd_items E p dir) (fd_items E q dir)
  unfolding fd_items
  fd_items-Alike dir = numbered_entries-Alike E _ _ descriptor-Alike (E.dir_stream dir)

  pub fds-Alike : Alike (fds E p) (fds E q)
  unfolding fds
  fds-Alike = open_dir-Alike _ _ _ _

  pub count_items-Alike : Alike (count_items E p) (count_items E q)
  count_items-Alike =
      Alike-bind _ _ _ _ fds-Alike
        λ dir. Alike-bind _ _ _ _ (fd_items-Alike dir) λ items. Alike-refl _

  pub fd_count-Alike : Alike (fd_count E p) (fd_count E q)
  unfolding fd_count
  fd_count-Alike = search (alike, Alike-if, count_items-Alike) depth 10
