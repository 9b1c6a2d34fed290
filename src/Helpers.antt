-- ===== src/Helpers.antt =====
-- src/helpers.rs: the macro `wrap_io_error!`, and the reads and writes of `AsyncProcfsIo`.
pub mod Errors
pub mod RoundTrip
pub mod Values
pub mod Closed
pub mod Traits
use async_procfs.Prelude.{
  FilePath, Text, Bytes, true, Result, map_err, of_result, Run, map_failed, ◌>>=◌, ◌>>◌, pure,
}
use async_procfs.Std.Strings.{trim}
use async_procfs.Std.Utf8.{as_bytes}
use async_procfs.Std.Paths.{join}
use async_procfs.Env.{
  Env, IoError, OpenOptions, new_options, with_read, with_write, with_create, with_truncate,
}
use async_procfs.Machine.{M, on_world}
use async_procfs.Procfs.{AsyncProcfs, try_io}

-- `AsyncProcfsIo` borrows the handle, which its methods below take; `io` makes one.
pub record AsyncProcfsIo (File : Type 0) : Type 0 where
  pub inner : AsyncProcfs File

abbrev pub io : {File : Type 0} → AsyncProcfs File → AsyncProcfsIo File
io procfs = record { inner = procfs }

module _ (E : Env) where
  open E use {ProcError, File}

  -- `.map_err(|e| e.into()).error_path(&root.join(path))`, before the `?`.
  abbrev pub at_path :
      {A S : Type 0} → AsyncProcfs File → FilePath → (S → Run A IoError S) → S → Run A ProcError S
  at_path procfs path = map_failed (λ e. E.error_path (join procfs.root path) (E.from_io e))

  abbrev pub write_options : OpenOptions
  write_options = with_truncate true (with_create true (with_write true new_options))

  unfoldable pub read_file : AsyncProcfs File → FilePath → M E Text
  read_file procfs path = do
    file ← at_path procfs path (on_world (E.open_at procfs.file path (with_read true new_options)))
    at_path procfs path (on_world (E.hybrid_read_to_string file))

  unfoldable pub write_file : AsyncProcfs File → FilePath → Bytes → M E (Unit {0})
  write_file procfs path bytes = do
    file ← at_path procfs path (on_world (E.open_at procfs.file path write_options))
    at_path procfs path (on_world (E.write_all file bytes))

  -- The type that is read gives its `FromStr` and the conversion of that one's error.
  unfoldable pub read_value :
      {T F : Type 0} → (Text → Result T F) → (F → ProcError) → AsyncProcfs File → FilePath → M E T
  read_value parse from procfs path = do
    s ← read_file procfs path
    of_result (map_err from (parse (trim s)))

  unfoldable pub read_value_from :
      {T F : Type 0} → (Text → Result T F) → (F → ProcError) → File → M E T
  read_value_from parse from file = do
    s ← try_io E (on_world (E.hybrid_read_to_string file))
    of_result (map_err from (parse (trim s)))

  -- The type that is written gives its `Display`.
  unfoldable pub write_value :
      {T : Type 0} → (T → Text) → AsyncProcfs File → FilePath → T → M E (Unit {0})
  write_value show procfs path value = write_file procfs path (as_bytes (show value))

  unfoldable pub write_value_to : {T : Type 0} → (T → Text) → File → T → M E (Unit {0})
  write_value_to show file value = try_io E (on_world (E.write_all file (as_bytes (show value))))
