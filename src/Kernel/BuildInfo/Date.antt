-- ===== src/Kernel/BuildInfo/Date.antt =====
-- src/sys/kernel/mod.rs: `BuildInfo::extra_date`. Parsing a date by a format, and the change to the
-- local time zone, are chrono's, and parameters here.
use async_procfs.Prelude.{
  ◌≡◌, refl, true, false, All, Option, none, some, List, [], ◌∷◌, ◌++◌, Text, codes, Result, ok,
  err,
}
use async_procfs.Std.Strings.{all_chars, join_with}
use async_procfs.Std.Strings.Laws.{Free, is_sep}
use async_procfs.Env.{Env}
use async_procfs.Kernel.BuildInfo.{BuildInfo, build_info, is_uppercase, build_from_str}
use async_procfs.Kernel.BuildInfo.Fields.{add_all, build_from_str_lem}

-- `%a %b %d %H:%M:%S UTC %Y %z` behind a time zone, and the format of RFC 2822.
abbrev pub utc_format : Text
utc_format = codes "%a %b %d %H:%M:%S UTC %Y %z"

abbrev pub mail_format : Text
mail_format = codes "%a, %d %b %Y %H:%M:%S %z"

module _ (E : Env) {FixedTime LocalTime : Type 0} (parse_from_str : Text → Text → Option FixedTime)
    (with_timezone : FixedTime → LocalTime) where
  -- The first format that fits decides.
  abbrev pub first_date : Option FixedTime → Option FixedTime → Result LocalTime E.ProcError
  first_date (some dt) later = ok (with_timezone dt)
  first_date none (some dt) = ok (with_timezone dt)
  first_date none none = err (E.other_error (codes "Failed to parse extra field to date"))

  -- Both tries on a text.
  abbrev pub date_of : Text → Result LocalTime E.ProcError
  date_of text =
      first_date (parse_from_str (text ++ codes " +0000") utc_format)
        (parse_from_str text mail_format)

  unfoldable pub extra_date : BuildInfo → Result LocalTime E.ProcError
  extra_date b = date_of b.extra

  -- A text of words with single spaces between them, the first of which begins with a hash sign, and
  -- of which two or more stand behind the words in capitals that follow it, is accepted, and its date
  -- is that of those other words with single spaces between them.
  pub extra_date-build_from_str :
      (v w x : Text) (fs ws : List Text)
      → All (Free (is_sep b' ')) (((b'#' ∷ v) ∷ fs) ++ (w ∷ x ∷ ws))
      → All (λ f. all_chars (is_uppercase E) f ≡ true) fs
      → all_chars (is_uppercase E) w ≡ false
      → (b : BuildInfo) × (build_from_str E (join_with b' ' (((b'#' ∷ v) ∷ fs) ++ (w ∷ x ∷ ws)))
          ≡ ok b)
        × (extra_date b ≡ date_of (join_with b' ' (w ∷ x ∷ ws)))
  unfolding extra_date join_with
  extra_date-build_from_str v w x fs ws spaces capitals other = (
    build_info v (add_all fs []) (w ++ (b' ' ∷ join_with b' ' (x ∷ ws))),
    build_from_str_lem E v w fs (x ∷ ws) spaces capitals other,
    refl,
  )
