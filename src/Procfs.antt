-- ===== src/Procfs.antt =====
-- src/lib.rs: the handle `AsyncProcfs` and the traits `AsyncCurrent` and `AsyncCurrentSI`; with the
-- macro `wrap_io_error!` of src/helpers.rs, which they use.
use async_procfs.Prelude.{
  FilePath, Text, Bytes, codes, true, Result, of_result, Run, map_failed, ◌>>=◌, pure, ◌∷◌, [],
}
use async_procfs.Std.Paths.{join}
use async_procfs.Env.{
  Env, IoError, wrapped, kind, OpenOptions, new_options, with_read, with_custom_flags, o_directory,
}
use async_procfs.Machine.{M, on_world}

-- `AsyncProcfsState` behind its `Arc`: the fields never change, so a clone is the value itself.
pub record AsyncProcfs (File : Type 0) : Type 0 where
  pub file : File
  pub root : FilePath

-- `Debug`, in the formatter's plain form: the name of the type and no field.
abbrev pub fmt : {File : Type 0} → AsyncProcfs File → Text
fmt procfs = codes "AsyncProcfs"

-- The error that `wrap_io_error!` makes keeps the kind and records the path.
unfoldable pub wrap_error : FilePath → IoError → IoError
wrap_error path e = wrapped (kind e) path e

abbrev pub wrap_io_error : {S A : Type 0} → FilePath → (S → Run A IoError S) → S → Run A IoError S
wrap_io_error path = map_failed (wrap_error path)

module _ (E : Env) where
  open E use {ProcError, File}

  -- The operator `?` on an `io::Result` in a function that returns a `ProcResult`.
  abbrev pub try_io : {S A : Type 0} → (S → Run A IoError S) → S → Run A ProcError S
  try_io = map_failed E.from_io

  -- `wrap_io_error!(path, op.await)?`
  abbrev pub try_wrapped : {A : Type 0} → FilePath → (E.World → Run A IoError E.World) → M E A
  try_wrapped path op = try_io (wrap_io_error path (on_world op))

  abbrev pub read_options : OpenOptions
  read_options = with_read true new_options

  abbrev pub directory_options : OpenOptions
  directory_options = with_custom_flags (o_directory ∷ []) read_options

  unfoldable pub new_with_root : FilePath → M E (AsyncProcfs File)
  new_with_root root = do
    file ← try_wrapped root (E.open_path root directory_options)
    pure (record { file = file; root = root })

  unfoldable pub new : M E (AsyncProcfs File)
  unfolding new_with_root
  new = new_with_root (codes "/proc")

  -- `AsyncCurrent::current`, for a type with this `RELATIVE_PATH` and this `from_read`.
  unfoldable pub current :
      {T : Type 0} → FilePath → (Bytes → Result T ProcError) → AsyncProcfs File → M E T
  current relative_path from_read procfs = do
    file ←
        try_wrapped (join procfs.root relative_path)
          (E.open_at procfs.file relative_path read_options)
    buffer ← try_io (on_world (E.read_to_end file))
    of_result (from_read buffer.1)

  -- `AsyncCurrentSI::current_with_system_info`: the parser is handed the system's information too,
  -- which may read files when it is asked.
  unfoldable pub current_with_system_info :
      {T Si : Type 0} → FilePath → (Bytes → Si → M E T) → AsyncProcfs File → Si → M E T
  current_with_system_info relative_path from_read procfs si = do
    file ←
        try_wrapped (join procfs.root relative_path)
          (E.open_at procfs.file relative_path read_options)
    buffer ← try_io (on_world (E.read_to_end file))
    from_read buffer.1 si
