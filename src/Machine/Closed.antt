-- ===== src/Machine/Closed.antt =====
-- Properties of runs that the ways to build a run keep. The functions that only read need no more than `Closed`;
-- those that write take two more hypotheses.
use async_procfs.Prelude.{
  ◌≡◌, ◌&&◌, Bool, true, false, List, [], ◌∷◌, FilePath, Bytes, Text, Result, ok, err, Run, ◌>>=◌,
  pure, throw, of_result, attempt, map_failed, expect_some, if◌then◌else◌,
}
use async_procfs.Env.{
  Env, IoError, Flag, nofollow, o_path, cloexec, o_directory, other_flag, OpenOptions, new_options,
  with_read, with_write, with_create, with_truncate, with_custom_flags, from_flag_and_mode, AtFlag,
}
use async_procfs.Machine.{State, on_world}
use async_procfs.Procfs.{try_wrapped, wrap_error}

-- Options with which a file is opened to be read, without being made or emptied.
abbrev pub only_known : List Flag → Bool
only_known [] = true
only_known (nofollow ∷ flags) = only_known flags
only_known (o_path ∷ flags) = only_known flags
only_known (cloexec ∷ flags) = only_known flags
only_known (o_directory ∷ flags) = only_known flags
only_known (other_flag n ∷ flags) = false

abbrev pub reads : OpenOptions → Bool
reads new_options = true
reads (with_read b o) = reads o
reads (with_write b o) = false
reads (with_create b o) = false
reads (with_truncate b o) = false
reads (with_custom_flags flags o) = only_known flags && reads o
reads (from_flag_and_mode flags mode) = only_known flags

abbrev pub Property : Env → Type 1
Property E = (A F : Type 0) → (State E.World → Run A F (State E.World)) → Type 0

pub record Closed (E : Env) (P : Property E) : Type 1 where
  pub pure_keeps : {A F : Type 0} (a : A) → P A F (pure a)
  pub throw_keeps : {A F : Type 0} (e : F) → P A F (throw e)
  pub attempt_keeps :
      {A F G : Type 0} (m : State E.World → Run A F (State E.World))
      → P A F m
      → P (Result A F) G (attempt m)
  pub map_failed_keeps :
      {A F G : Type 0} (f : F → G) (m : State E.World → Run A F (State E.World))
      → P A F m
      → P A G (map_failed f m)
  pub bind_keeps :
      {A B F : Type 0} (m : State E.World → Run A F (State E.World))
      (k : A → State E.World → Run B F (State E.World))
      → P A F m
      → ((a : A) → P B F (k a))
      → P B F (m >>= k)
  pub open_at :
      (base : E.File) (path : FilePath) (o : OpenOptions)
      → reads o ≡ true
      → P E.File IoError (on_world (E.open_at base path o))
  pub read_to_end : (f : E.File) → P _ IoError (on_world (E.read_to_end f))
  pub read_to_string : (f : E.File) → P Text IoError (on_world (E.read_to_string f))
  pub hybrid_read_to_string : (f : E.File) → P Text IoError (on_world (E.hybrid_read_to_string f))
  pub read_link_at :
      (base : E.File) (path : FilePath) → P FilePath IoError (on_world (E.read_link_at base path))
  pub read_link : (f : E.File) → P FilePath IoError (on_world (E.read_link f))
  pub hybrid_metadata : (f : E.File) → P E.Metadata IoError (on_world (E.hybrid_metadata f))
  pub hybrid_metadata_at :
      (base : E.File) (path : FilePath) (flags : List AtFlag)
      → P E.Metadata IoError (on_world (E.hybrid_metadata_at base path flags))
  pub new_dir : (std : E.StdFile) → P E.Dir IoError (on_world (E.new_dir std))
  pub idle :
      (message : Text) (f : E.File)
      → P E.StdFile E.ProcError (expect_some message (E.try_into_std f))

-- What the functions that write need: opening with any options, and writing.
pub record Writes (E : Env) (P : Property E) : Type 0 where
  pub open_any :
      (base : E.File) (path : FilePath) (o : OpenOptions)
      → P E.File IoError (on_world (E.open_at base path o))
  pub write_all : (f : E.File) (bytes : Bytes) → P _ IoError (on_world (E.write_all f bytes))

module _ {E : Env} {P : Property E} (closed : Closed E P) where
  pub of_result_keeps : {A F : Type 0} (r : Result A F) → P A F (of_result r)
  of_result_keeps (ok a) = closed.pure_keeps a
  of_result_keeps (err e) = closed.throw_keeps e

  pub if_keeps :
      {A F : Type 0} (b : Bool) (m n : State E.World → Run A F (State E.World))
      → P A F m
      → P A F n
      → P A F (if b then m else n)
  if_keeps true m n km kn = km
  if_keeps false m n km kn = kn

  pub try_wrapped_keeps :
      {A : Type 0} (path : FilePath) (op : E.World → Run A IoError E.World)
      → P A IoError (on_world op)
      → P A E.ProcError (try_wrapped E path op)
  try_wrapped_keeps path op k =
      closed.map_failed_keeps E.from_io _ (closed.map_failed_keeps (wrap_error path) _ k)
