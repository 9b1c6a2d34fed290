-- ===== src/Helpers/Errors.antt =====
-- The paths in the errors of `read_file` and `write_file`.
use async_procfs.Prelude.{◌≡◌, Bytes, FilePath, failed, arith, Run-cases, inl, inr}
use async_procfs.Std.Paths.{join}
use async_procfs.Env.{Env, IoError}
use async_procfs.Machine.{State}
use async_procfs.Procfs.{AsyncProcfs, read_options}
use async_procfs.Helpers.{read_file, write_file, write_options}

module _ (E : Env) (procfs : AsyncProcfs E.File) (path : FilePath) (s t : State E.World)
    (x : E.ProcError) where
  -- Whatever fails in `read_file`, opening or reading, the error is that of some `io::Error` with the path below the root.
  pub read_file_failed :
      read_file E procfs path s ≡ failed x t
      → (e : IoError) × (x ≡ E.error_path (join procfs.root path) (E.from_io e))
  unfolding read_file
  read_file_failed h = elim (Run-cases (E.open_at procfs.file path (read_options E) s.world)) [
    | inl (f, w₁, opened) ↦ elim (Run-cases (E.hybrid_read_to_string f w₁)) [
      | inl (text, w₂, e) ↦ absurd (ground arith)
      | inr (inl (e, w₂, q)) ↦ (e, ground arith)
      | inr (inr (m, w₂, q)) ↦ absurd (ground arith)
    ]
    | inr (inl (e, w₁, stopped)) ↦ (e, ground arith)
    | inr (inr (m, w₁, stopped)) ↦ absurd (ground arith)
  ]

  -- Whatever fails in `write_file`, opening or writing, the error is that of some `io::Error` with the path
  -- below the root.
  pub write_file_failed :
      (bytes : Bytes)
      → write_file E procfs path bytes s ≡ failed x t
      → (e : IoError) × (x ≡ E.error_path (join procfs.root path) (E.from_io e))
  unfolding write_file
  write_file_failed bytes h =
      elim (Run-cases (E.open_at procfs.file path (write_options E) s.world)) [
        | inl (f, w₁, opened) ↦ elim (Run-cases (E.write_all f bytes w₁)) [
          | inl (u, w₂, e) ↦ absurd (ground arith)
          | inr (inl (e, w₂, q)) ↦ (e, ground arith)
          | inr (inr (m, w₂, q)) ↦ absurd (ground arith)
        ]
        | inr (inl (e, w₁, stopped)) ↦ (e, ground arith)
        | inr (inr (m, w₁, stopped)) ↦ absurd (ground arith)
      ]
