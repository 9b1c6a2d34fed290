-- ===== src/Process/Descriptors.antt =====
-- src/process/mod.rs: `FDInfo`, `fds`, `fd_count` and `fd_from_fd`. A stream is run to its end: its
-- items are made one after the other, each with the state that the one before has left.
pub mod Stream
pub mod Yielded
pub mod Count
pub mod Info
pub mod Polled
pub mod Reader
pub mod Taken
use async_procfs.Prelude.{
  ℕ, ◌%◌, ◌^◌, ℤ, Bool, true, false, Option, none, some, List, [], ◌∷◌, ◌++◌, Text, Bytes, FilePath,
  codes, length, bit_and, ltb, if◌then◌else◌, Result, ok, err, ok_or, ◌>>=?◌, Run, ◌>>=◌, pure,
  of_result, attempt, expect_some,
}
use async_procfs.Std.Ints.{show_int}
use async_procfs.Std.Utf8.{to_str}
use async_procfs.Std.Paths.{join}
use async_procfs.Env.{
  Env, Flag, nofollow, o_path, cloexec, o_directory, OpenOptions, with_custom_flags,
  from_flag_and_mode, IoError, at_symlink_nofollow, at_empty_path,
}
use async_procfs.Machine.{M}
use async_procfs.Procfs.{AsyncProcfs, try_wrapped, read_options, directory_options}
use async_procfs.Kernel.Version.{Version, cached}
use async_procfs.Process.{Process, is_old, parse_id}

pub record FdInfo (Target : Type 0) : Type 0 where
  pub raw_fd : ℤ
  pub mode : ℕ
  pub target : Target

abbrev pub descriptor_flags : Bool → List Flag
descriptor_flags true = nofollow ∷ cloexec ∷ []
descriptor_flags false = nofollow ∷ o_path ∷ cloexec ∷ []

-- `Mode::S_IRWXU`, the bits of the owner.
abbrev pub owner_bits : ℕ
owner_bits = 0o700

module _ (E : Env) where
  open E use {ProcError, File}

  -- The two `expect!` around the link's text.
  unfoldable pub target_of : FilePath → Result E.FdTarget ProcError
  target_of link = ok_or (E.internal_error (codes "link_os.to_str()")) (to_str link) >>=? λ text.
      ok_or (E.internal_error (codes "FDTarget::from_str(expect!(link_os.to_str()))"))
        (E.parse_fd_target text)

  -- The path of a descriptor below the process, and its full path, which the errors name.
  abbrev pub descriptor_path : ℤ → FilePath
  descriptor_path fd = join (codes "fd") (show_int fd)

  abbrev pub descriptor_full_path : Process File → ℤ → FilePath
  descriptor_full_path p fd = join p.path (descriptor_path fd)

  unfoldable pub from_process_at : Process File → ℤ → M E (FdInfo E.FdTarget)
  from_process_at p fd = do
    kernel ← attempt (cached E p.procfs)
    file ← try_wrapped E (descriptor_full_path p fd) (
        E.open_at p.fd (descriptor_path fd)
          (from_flag_and_mode (descriptor_flags (is_old kernel)) 0))
    link ← try_wrapped E (descriptor_full_path p fd) (E.read_link file)
    metadata ←
        try_wrapped E (descriptor_full_path p fd)
          (E.hybrid_metadata_at file [] (at_symlink_nofollow ∷ at_empty_path ∷ []))
    target ← of_result (target_of link)
    pure (record { raw_fd = fd; mode = bit_and (E.mode metadata) owner_bits; target = target })

  unfoldable pub fd_from_fd : Process File → ℤ → M E (FdInfo E.FdTarget)
  fd_from_fd = from_process_at

  -- Opening a directory for its stream: `open_at`, `try_into_std().expect(…)`, `Dir::new`.
  abbrev pub open_dir : File → FilePath → FilePath → M E E.Dir
  open_dir base relpath full = do
    file ← try_wrapped E full (E.open_at base relpath (directory_options E))
    std ←
        expect_some (codes "should have no inflight operation: " ++ E.debug_file file)
          (E.try_into_std file)
    try_wrapped E full (E.new_dir std)

  -- The body of the three `stream!` blocks: an error of the directory is yielded and ends the stream,
  -- a name that is no number is passed over, and so is an entry that cannot be made.
  abbrev pub keep_ok :
      {A : Type 0} → Result A ProcError → List (Result A ProcError) → List (Result A ProcError)
  keep_ok (ok a) items = ok a ∷ items
  keep_ok (err e) items = items

  abbrev pub with_entry :
      {A : Type 0}
      → (ℤ → M E A)
      → Option ℤ
      → M E (List (Result A ProcError))
      → M E (List (Result A ProcError))
  with_entry make none rest = rest
  with_entry make (some id) rest = do
    made ← attempt (make id)
    items ← rest
    pure (keep_ok made items)

  unfoldable pub numbered_entries :
      {A : Type 0} → (ℤ → M E A) → List (Result Bytes IoError) → M E (List (Result A ProcError))
  numbered_entries make [] = pure []
  numbered_entries make (err e ∷ entries) = pure (err (E.from_io e) ∷ [])
  numbered_entries make (ok name ∷ entries) =
      with_entry make (parse_id name) (numbered_entries make entries)

  -- `fds` makes the stream, and `fd_items` is what it yields.
  unfoldable pub fds : Process File → M E E.Dir
  fds p = open_dir p.fd (codes "fd") (join p.path (codes "fd"))

  unfoldable pub fd_items : Process File → E.Dir → M E (List (Result (FdInfo E.FdTarget) ProcError))
  fd_items p dir = numbered_entries (from_process_at p) (E.dir_stream dir)

  -- `size as usize`.
  abbrev pub as_usize : ℕ → ℕ
  as_usize n = n % 256 ^ E.usize_bytes

  abbrev pub count_items : Process File → M E ℕ
  count_items p = do dir ← fds p; items ← fd_items p dir; pure (length items)

  unfoldable pub fd_count : Process File → M E ℕ
  fd_count p = do
    stat ←
        try_wrapped E (join p.path (codes "fd"))
          (E.hybrid_metadata_at p.fd (codes "fd") (at_empty_path ∷ []))
    if ltb 0 (E.size stat) then pure (as_usize (E.size stat)) else count_items p
