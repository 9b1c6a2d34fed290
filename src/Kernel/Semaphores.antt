-- ===== src/Kernel/Semaphores.antt =====
-- src/sys/kernel/mod.rs: `SemaphoreLimits`, the four numbers of /proc/sys/kernel/sem.
pub mod Grammar
pub mod Parse
pub mod Read
use async_procfs.Prelude.{ℕ, List, Text, codes, get_elem?, Result, ok, err, map_err, ok_or, ◌>>=?◌}
use async_procfs.Std.Strings.{split_ascii_whitespace}
use async_procfs.Std.Ints.{parse_uint}
use async_procfs.Env.{Env}
use async_procfs.Machine.{M}
use async_procfs.Procfs.{AsyncProcfs}
use async_procfs.Helpers.{read_value}

pub record SemaphoreLimits : Type 0 where
  pub semmsl : ℕ
  pub semmns : ℕ
  pub semopm : ℕ
  pub semmni : ℕ

unfoldable pub parse_fields : Text → Text → Text → Text → Result SemaphoreLimits Text
parse_fields a b c d =
    map_err (λ _. codes "Failed to parse SEMMSL") (parse_uint 64 a) >>=? λ semmsl.
    map_err (λ _. codes "Failed to parse SEMMNS") (parse_uint 64 b) >>=? λ semmns.
    map_err (λ _. codes "Failed to parse SEMOPM") (parse_uint 64 c) >>=? λ semopm.
    map_err (λ _. codes "Failed to parse SEMMNI") (parse_uint 64 d) >>=? λ semmni.
    ok (record { semmsl = semmsl; semmns = semmns; semopm = semopm; semmni = semmni })

unfoldable pub parse_words : List Text → Result SemaphoreLimits Text
parse_words s = ok_or (codes "Missing SEMMSL") (get_elem? s 0) >>=? λ semmsl.
    ok_or (codes "Missing SEMMNS") (get_elem? s 1) >>=? λ semmns.
    ok_or (codes "Missing SEMOPM") (get_elem? s 2) >>=? λ semopm.
    ok_or (codes "Missing SEMMNI") (get_elem? s 3) >>=? λ semmni.
    parse_fields semmsl semmns semopm semmni

unfoldable pub limits_from_str : Text → Result SemaphoreLimits Text
limits_from_str s = parse_words (split_ascii_whitespace s)

-- `SemaphoreLimits::new`.
unfoldable pub current_limits : (E : Env) → AsyncProcfs E.File → M E SemaphoreLimits
current_limits E procfs =
    read_value E limits_from_str E.from_message procfs (codes "sys/kernel/sem")
