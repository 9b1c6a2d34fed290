-- ===== src/Process/Renamed/Tasks.antt =====
-- The tasks of a process under two names: they carry its path and its pid, and agree on the rest.
use async_procfs.Prelude.{
  ℤ, ◌≡◌, refl, none, some, List, [], ◌∷◌, map, Bytes, FilePath, Option, Result, ok, err, arith,
  ◌>>=◌, pure, Run-cases, inl, inr,
}
use async_procfs.Env.{Env, IoError}
use async_procfs.Machine.{M, State}
use async_procfs.Machine.Alike.{Alike}
use async_procfs.Procfs.{AsyncProcfs}
use async_procfs.Process.{Process}
use async_procfs.Process.Descriptors.{with_entry, numbered_entries}
use async_procfs.Process.Tasks.{Task, from_process_at, task_items}
use async_procfs.Process.Renamed.{renamed}
use async_procfs.Process.Renamed.Streams.{numbered_entries-Alike}

-- What is left of a task without the path and the pid.
abbrev pub own : {File : Type 0} → Task File → ℤ × File × AsyncProcfs File
own t = (t.tid, t.fd, t.procfs)

abbrev pub seen : {A B F : Type 0} → (A → B) → Result A F → Result B F
seen f (ok a) = ok (f a)
seen f (err e) = err e

module _ (E : Env) {A B : Type 0} (f : A → B) where
  -- The items that a run yields, each seen through `f`.
  abbrev pub see : M E (List (Result A E.ProcError)) → M E (List (Result B E.ProcError))
  see m = m >>= λ items. pure (map (seen f) items)

  abbrev made : (ℤ → M E A) → ℤ → M E B
  made make id = make id >>= λ a. pure (f a)

  with_entry-see :
      (make : ℤ → M E A) (id : Option ℤ) (rest : M E (List (Result A E.ProcError)))
      (more : M E (List (Result B E.ProcError)))
      → ((s : State E.World) → see rest s ≡ more s)
      → (s : State E.World) → see (with_entry E make id rest) s ≡ with_entry E (made make) id more s
  with_entry-see make none rest more h s = h s
  with_entry-see make (some id) rest more h s = elim (Run-cases (make id s)) [
    | inl (a, t, e) ↦ rw e (elim (Run-cases (rest t)) [
      | inl (items, u, g) ↦ ground (arith, h t)
      | inr (inl (x, u, g)) ↦ ground (arith, h t)
      | inr (inr (p, u, g)) ↦ ground (arith, h t)
    ])
    | inr (inl (x, t, e)) ↦ rw e (elim (Run-cases (rest t)) [
      | inl (items, u, g) ↦ ground (arith, h t)
      | inr (inl (y, u, g)) ↦ ground (arith, h t)
      | inr (inr (p, u, g)) ↦ ground (arith, h t)
    ])
    | inr (inr (p, t, e)) ↦ rw e refl
  ]

  -- A stream seen through `f` is the stream of what is made and seen through `f`.
  numbered_entries-see :
      (make : ℤ → M E A) (entries : List (Result Bytes IoError)) (s : State E.World)
      → see (numbered_entries E make entries) s ≡ numbered_entries E (made make) entries s
  unfolding numbered_entries
  numbered_entries-see make [] s = refl
  numbered_entries-see make (err e ∷ entries) s = refl
  numbered_entries-see make (ok name ∷ entries) s =
      with_entry-see make _ (numbered_entries E make entries)
        (numbered_entries E (made make) entries) (numbered_entries-see make entries) s

  see-Alike :
      (make other : ℤ → M E A)
      → ((id : ℤ) → Alike (made make id) (made other id))
      → (entries : List (Result Bytes IoError))
      → Alike (see (numbered_entries E make entries)) (see (numbered_entries E other entries))
  see-Alike make other each entries = record {
    at = λ s.
        rw (numbered_entries-see make entries s, numbered_entries-see other entries s)
          ((numbered_entries-Alike E (made make) (made other) each entries).at s);
  }

module _ (E : Env) (p : Process E.File) (path : FilePath) (pid : ℤ) where
  pub task-Alike :
      (tid : ℤ)
      → Alike
          (from_process_at E p tid >>= λ t. pure (own t))
          (from_process_at E (renamed p path pid) tid >>= λ t. pure (own t))
  unfolding from_process_at
  task-Alike tid = record { at = λ s. ground arith }

  pub task_items-Alike :
      (dir : E.Dir)
      → Alike (see E own (task_items E p dir)) (see E own (task_items E (renamed p path pid) dir))
  unfolding task_items
  task_items-Alike dir = see-Alike E own _ _ task-Alike (E.dir_stream dir)
