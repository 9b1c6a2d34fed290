-- ===== src/Process/Scores.antt =====
-- src/process/mod.rs: the files that hold one number: `coredump_filter`, `loginuid`, `oom_score`,
-- `oom_score_adj` and `clear_refs`.
pub mod Adjust
pub mod Filter
use async_procfs.Prelude.{
  ℕ, ℤ, Bool, true, false, Option, none, some, [], ◌∷◌, Text, FilePath, codes, Result, ok, err,
  map_err, ok_or, ◌>>=?◌, Run, ◌>>=◌, pure, of_result, text_eq, if◌then◌else◌,
}
use async_procfs.Std.Strings.{trim}
use async_procfs.Std.Ints.{parse_uint, parse_int, parse_radix, show_int}
use async_procfs.Std.Paths.{join}
use async_procfs.Env.{Env, OpenOptions, new_options, with_write}
use async_procfs.Machine.{M}
use async_procfs.Procfs.{AsyncProcfs, try_wrapped}
use async_procfs.Helpers.{write_value_to}
use async_procfs.Process.{Process}
use async_procfs.Process.Reading.{read_whole}

module _ (E : Env) where
  open E use {ProcError, File}

  -- `Ok(None)` for a blank file, and otherwise the flags of a hexadecimal `u32`.
  unfoldable pub parse_filter : ℤ → Text → Result (Option E.CoredumpFlags) ProcError
  parse_filter pid s =
      if text_eq (trim s) []
      then ok none
      else map_err (λ _. E.from_str_failed (trim s) (some pid)) (parse_radix 16 32 (trim s))
        >>=? λ flags.
            ok_or (E.internal_error (codes "CoredumpFlags::from_bits(flags)"))
              (E.coredump_flags flags)
            >>=? λ f. ok (some f)

  unfoldable pub coredump_filter : Process File → M E (Option E.CoredumpFlags)
  coredump_filter p = do
    s ← read_whole E p (codes "coredump_filter")
    of_result (parse_filter p.pid s)

  unfoldable pub loginuid : Process File → M E ℕ
  loginuid p = do uid ← read_whole E p (codes "loginuid"); of_result (E.parse_uid_gid uid 0)

  unfoldable pub parse_score : Text → Result ℕ ProcError
  parse_score oom = map_err (λ _. E.from_str_failed (trim oom) none) (parse_uint 16 (trim oom))

  unfoldable pub oom_score : Process File → M E ℕ
  oom_score p = do oom ← read_whole E p (codes "oom_score"); of_result (parse_score oom)

  unfoldable pub parse_score_adj : Text → Result ℤ ProcError
  parse_score_adj oom = map_err (λ _. E.from_str_failed (trim oom) none) (parse_int 16 (trim oom))

  unfoldable pub oom_score_adj : Process File → M E ℤ
  oom_score_adj p = do oom ← read_whole E p (codes "oom_score_adj"); of_result (parse_score_adj oom)

  abbrev pub open_for_write : Process File → FilePath → M E File
  open_for_write p relpath =
      try_wrapped E (join p.path relpath) (E.open_at p.fd relpath (with_write true new_options))

  unfoldable pub set_oom_score_adj : Process File → ℤ → M E (Unit {0})
  set_oom_score_adj p new_oom_score_adj = do
    file ← open_for_write p (codes "oom_score_adj")
    write_value_to E show_int file new_oom_score_adj

  unfoldable pub clear_refs : Process File → E.ClearRefs → M E (Unit {0})
  clear_refs p clear = do
    file ← open_for_write p (codes "clear_refs")
    write_value_to E E.show_clear_refs file clear
