-- ===== src/Process/Renamed/Readers.antt =====
-- The readers of a process under two names.
use async_procfs.Prelude.{◌≡◌, ℕ, ℤ, FilePath, Text, ok_of, arith}
use async_procfs.Env.{Env}
use async_procfs.Machine.Alike.{
  Alike, Alike-refl, Alike-of_result, Alike-bind, Alike-attempt, Alike-try_wrapped,
}
use async_procfs.Process.{Process}
use async_procfs.Process.Reading.{
  FromRead, FromReadSi, open_file, read_with_cursor, read_si_with_cursor, read_whole, stat,
  is_alive,
}
use async_procfs.Process.Cmdline.{cmdline}
use async_procfs.Process.Environ.{environ}
use async_procfs.Process.Auxv.{auxv}
use async_procfs.Process.Scores.{parse_filter, coredump_filter}
use async_procfs.Process.Renamed.{renamed, alike}

module _ (E : Env) (p : Process E.File) (path : FilePath) (pid : ℤ) where
  abbrev q : Process E.File
  q = renamed p path pid

  pub open_file-Alike : (relpath : FilePath) → Alike (open_file E p relpath) (open_file E q relpath)
  open_file-Alike relpath = Alike-try_wrapped E _ _ _

  pub read_whole-Alike :
      (relpath : FilePath) → Alike (read_whole E p relpath) (read_whole E q relpath)
  unfolding read_whole
  read_whole-Alike relpath = search alike depth 8

  pub read_with_cursor-Alike :
      {T : Type 0} (from_read : FromRead E T) (relpath : FilePath)
      → Alike (read_with_cursor E from_read p relpath) (read_with_cursor E from_read q relpath)
  unfolding read_with_cursor
  read_with_cursor-Alike from_read relpath = search alike depth 8

  pub read_si_with_cursor-Alike :
      {T : Type 0} (from_read : FromReadSi E T) (relpath : FilePath)
      → Alike
          (read_si_with_cursor E from_read p relpath)
          (read_si_with_cursor E from_read q relpath)
  unfolding read_si_with_cursor
  read_si_with_cursor-Alike from_read relpath = search alike depth 8

  pub is_alive-Alike :
      {T : Type 0} (from_read : FromRead E T) (state : T → ℕ)
      → Alike (is_alive E from_read state p) (is_alive E from_read state q)
  unfolding is_alive stat
  is_alive-Alike from_read state =
      Alike-attempt _ _ _ _ (read_with_cursor-Alike from_read _) (λ a. Alike-refl _)
        (λ e f. Alike-refl _)

  pub cmdline-Alike : Alike (cmdline E p) (cmdline E q)
  unfolding cmdline
  cmdline-Alike = search alike depth 8

  pub environ-Alike : Alike (environ E p) (environ E q)
  unfolding environ
  environ-Alike = search alike depth 8

  pub auxv-Alike : Alike (auxv E p) (auxv E q)
  unfolding auxv
  auxv-Alike = search alike depth 8

  -- The pid is in the error of a filter that cannot be parsed.
  ok_of-parse_filter : (s : Text) → ok_of (parse_filter E p.pid s) ≡ ok_of (parse_filter E pid s)
  unfolding parse_filter
  ok_of-parse_filter s = ground arith

  pub coredump_filter-Alike : Alike (coredump_filter E p) (coredump_filter E q)
  unfolding coredump_filter
  coredump_filter-Alike =
      Alike-bind _ _ _ _ (read_whole-Alike _) λ s. Alike-of_result _ _ (ok_of-parse_filter s)
