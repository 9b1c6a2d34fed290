-- ===== src/Process/Reading/Errors.antt =====
-- The paths that the errors of a process's files name.
use async_procfs.Prelude.{◌≡◌, FilePath, arith, failed}
use async_procfs.Std.Paths.{join}
use async_procfs.Env.{Env, IoError, wrapped, kind}
use async_procfs.Machine.{State}
use async_procfs.Procfs.{wrap_error, read_options}
use async_procfs.Process.{Process}
use async_procfs.Process.Reading.{FromRead, read_with_cursor}

module _ (E : Env) {T : Type 0} (from_read : FromRead E T) (p : Process E.File) (relpath : FilePath)
    (s : State E.World) (w₁ w₂ : E.World) (e : IoError) where
  -- A file that cannot be opened gives an error of the same kind that names the file below the process.
  pub open_error :
      E.open_at p.fd relpath (read_options E) s.world ≡ failed e w₁
      → read_with_cursor E from_read p relpath s
        ≡ failed (E.from_io (wrapped (kind e) (join p.path relpath) e)) (record s { world = w₁ })
  unfolding read_with_cursor wrap_error
  open_error opened = ground arith
