-- ===== src/Process/Descriptors/Info.antt =====
-- What is known of one descriptor.
use async_procfs.Prelude.{
  ◌*◌, ◌/◌, ◌%◌, ◌≡◌, ℤ, some, [], ◌∷◌, FilePath, Text, Result, returned, attempt, arith,
}
use async_procfs.Std.Bits.{bit_and_owner}
use async_procfs.Std.Utf8.{to_str}
use async_procfs.Env.{Env, from_flag_and_mode, at_symlink_nofollow, at_empty_path}
use async_procfs.Machine.{State}
use async_procfs.Kernel.Version.{Version, cached}
use async_procfs.Process.{Process, is_old}
use async_procfs.Process.Descriptors.{descriptor_path, descriptor_flags, target_of, from_process_at}

module _ (E : Env) (p : Process E.File) where
  target_of_text :
      (link : FilePath) (text : Text) (target : E.FdTarget)
      → to_str link ≡ some text
      → E.parse_fd_target text ≡ some target
      → target_of E link ≡ Result.ok target
  unfolding target_of
  target_of_text link text target named parsed = ground arith

  -- Where a descriptor can be opened with the flags for the version, known or not, its link is the
  -- text of a target, and its metadata can be read, the result has its number, the target, and of its
  -- mode the bits of 64, 128 and 256.
  pub from_process_at_lem :
      (fd : ℤ) (k : Result Version E.ProcError) (s t : State E.World) (w₁ w₂ w₃ : E.World)
      (file : E.File) (link : FilePath) (text : Text) (meta : E.Metadata) (target : E.FdTarget)
      → attempt {F = E.ProcError} (cached E p.procfs) s ≡ returned k t
      → E.open_at p.fd
          (descriptor_path E fd)
          (from_flag_and_mode (descriptor_flags (is_old k)) 0)
          t.world
        ≡ returned file w₁
      → E.read_link file w₁ ≡ returned link w₂
      → E.hybrid_metadata_at file [] (at_symlink_nofollow ∷ at_empty_path ∷ []) w₂
        ≡ returned meta w₃
      → to_str link ≡ some text
      → E.parse_fd_target text ≡ some target
      → from_process_at E p fd s
        ≡ returned
            (record { raw_fd = fd; mode = E.mode meta / 64 % 8 * 64; target = target })
            (record { world = w₃; kernel = t.kernel })
  unfolding from_process_at
  from_process_at_lem fd k s t w₁ w₂ w₃ file link text meta target looked opened linked found named
        parsed =
      ground (arith, bit_and_owner (E.mode meta), target_of_text link text target named parsed)
