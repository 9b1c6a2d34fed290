-- ===== src/Kernel/BuildInfo.antt =====
-- src/sys/kernel/mod.rs: `Type` and `BuildInfo`, the texts of /proc/sys/kernel/ostype and version.
pub mod Flags
pub mod Fields
pub mod Date
pub mod Sets
pub mod Grammar
use async_procfs.Prelude.{
  ℕ, Bool, true, false, not, Option, none, some, List, [], ◌∷◌, ◌++◌, Text, codes, leb, ltb, ◌&&◌,
  if◌then◌else◌, Result, ok, err, map_err, ◌>>=?◌, ok_or,
}
use async_procfs.Std.Chars.{is_ascii_digit}
use async_procfs.Std.Strings.{split, join_with, before_first, all_chars, strip_prefix}
use async_procfs.Std.Ints.{parse_uint}
use async_procfs.Std.Maps.{add, contains}
use async_procfs.Env.{Env}
use async_procfs.Machine.{M}
use async_procfs.Procfs.{AsyncProcfs}
use async_procfs.Helpers.{read_value}

-- `Type`, the kernel's name.
pub record KernelType : Type 0 where
  pub sysname : Text

-- `Type::new`.
abbrev pub kernel_type : Text → KernelType
kernel_type sysname = record { sysname = sysname }

-- `Type::from_str` never fails.
unfoldable pub type_from_str : Text → Result KernelType Text
type_from_str s = ok (kernel_type s)

pub record BuildInfo : Type 0 where
  pub version : Text
  pub flags : List Text
  pub extra : Text

abbrev pub build_info : Text → List Text → Text → BuildInfo
build_info version flags extra = record { version = version; flags = flags; extra = extra }

-- What the loop over the words leaves: the flags, the words behind the first other word, and what
-- that word adds to `extra`.
pub record Words : Type 0 where
  pub flags : List Text
  pub extra : Text
  pub remains : List Text

unfoldable pub smp : BuildInfo → Bool
smp b = contains (codes "SMP") b.flags

unfoldable pub preempt : BuildInfo → Bool
preempt b = contains (codes "PREEMPT") b.flags

unfoldable pub preemptrt : BuildInfo → Bool
preemptrt b = contains (codes "PREEMPTRT") b.flags

-- The loop over the characters that stops at the first one that is no digit.
unfoldable pub version_digits : Text → Text
version_digits = before_first (λ c. not (is_ascii_digit c))

module _ (E : Env) where
  -- `char::is_uppercase`.
  unfoldable pub is_uppercase : ℕ → Bool
  is_uppercase c = if ltb c 0x80 then leb b'A' c && leb c b'Z' else E.unicode_uppercase c

  unfoldable pub take_flags : List Text → List Text → Words
  unfolding is_uppercase
  take_flags [] flags = record { flags = flags; extra = []; remains = [] }
  take_flags (w ∷ ws) flags =
      let more = take_flags ws (add w flags) in
      if all_chars (is_uppercase) w
      then more
      else record { flags = flags; extra = w ++ (b' ' ∷ []); remains = ws }

  abbrev pub build_error : Text
  build_error = codes "Failed to parse kernel build version"

  unfoldable pub with_words : Text → Words → BuildInfo
  with_words version r = build_info version r.flags (r.extra ++ join_with b' ' r.remains)

  unfoldable pub parse_words : List Text → Result BuildInfo Text
  unfolding take_flags with_words
  parse_words [] = err build_error
  parse_words (version_str ∷ ws) = ok_or build_error (strip_prefix b'#' version_str) >>=? λ version.
      ok (with_words version (take_flags ws []))

  unfoldable pub build_from_str : Text → Result BuildInfo Text
  unfolding parse_words
  build_from_str s = parse_words (split b' ' s)

  unfoldable pub version_number : BuildInfo → Result ℕ E.ProcError
  unfolding version_digits
  version_number b =
      map_err (λ _. E.from_message (codes "Failed to parse version number"))
        (parse_uint 32 (version_digits b.version))

  unfoldable pub current_type : AsyncProcfs E.File → M E KernelType
  current_type procfs = read_value E type_from_str E.from_message procfs (codes "sys/kernel/ostype")

  unfoldable pub current_build_info : AsyncProcfs E.File → M E BuildInfo
  current_build_info procfs =
      read_value E build_from_str E.from_message procfs (codes "sys/kernel/version")
