-- ===== src/Kernel/Version/Parse.antt =====
-- `Version::from_str`: what it accepts, what it returns, and how it fails.
use async_procfs.Prelude.{
  ℕ, ◌≡◌, ◌≢◌, refl, ◌∙◌, false, List, [], ◌∷◌, ◌++◌, append-nil, arith, Text, codes, All,
  All-append, All-weaken, ok, err, >>=?-eq-ok, map_err-eq-ok,
}
use async_procfs.Std.Chars.{IsDigit}
use async_procfs.Std.Strings.{split, before_first, join_with}
use async_procfs.Std.Strings.Cuts.{Starts}
use async_procfs.Std.Strings.Laws.{
  Free, is_sep, split-join_with, before_first-Free, before_first-append,
}
use async_procfs.Std.Ints.{parse_uint, show_uint}
use async_procfs.Std.Ints.RoundTrip.{show_uint-All, parse_uint-show_uint}
use async_procfs.Std.Ints.Bounds.{parse_uint_bound}
use async_procfs.Kernel.Version.{
  Version, IsVersion, ends_version, parse_parts, parse_split, from_str,
}

-- `major.minor.patch`.
unfoldable pub show_version : Version → Text
show_version v = join_with b'.' (show_uint v.major ∷ show_uint v.minor ∷ show_uint v.patch ∷ [])

-- What may follow a version: nothing, or text that begins with neither a dot nor a digit.
abbrev pub Stops : Text → Type 0
Stops = Starts ends_version

digit_continues : (c : ℕ) → IsDigit c → (ends_version c ≡ false) × (is_sep b'.' c ≡ false)
unfolding ends_version
digit_continues c h = ground arith

dot_continues : ends_version b'.' ≡ false
unfolding ends_version
dot_continues = refl

show_uint-continues : (n : ℕ) → Free ends_version (show_uint n)
show_uint-continues n =
    All-weaken IsDigit _ (λ c h. (digit_continues c h).0) (show_uint n) (show_uint-All n)

show_uint_no_dot : (n : ℕ) → Free (is_sep b'.') (show_uint n)
show_uint_no_dot n =
    All-weaken IsDigit _ (λ c h. (digit_continues c h).1) (show_uint n) (show_uint-All n)

join_with-continues :
    (ps : List Text) → All (Free ends_version) ps → Free ends_version (join_with b'.' ps)
unfolding join_with
join_with-continues [] h = tt
join_with-continues (p ∷ []) h = h.0
join_with-continues (p ∷ q ∷ ps) h =
    All-append _ p _ h.0 (dot_continues, join_with-continues (q ∷ ps) h.1)

before_first-Stops :
    (s rest : Text) → Free ends_version s → Stops rest → before_first ends_version (s ++ rest) ≡ s
before_first-Stops s [] h k = rw append-nil (before_first-Free ends_version s h)
before_first-Stops s (c ∷ rest) h k = before_first-append ends_version s c rest h k

-- The text of numbers joined by dots is cut back into the numbers, whatever follows it.
pub from_str-join_with :
    (ps : List Text) (rest : Text)
    → All (Free ends_version) ps
    → All (Free (is_sep b'.')) ps
    → ps ≢ []
    → Stops rest
    → from_str (join_with b'.' ps ++ rest) ≡ parse_split ps
from_str-join_with ps rest h k e stop =
    from_str_lem _
    ∙ rw (before_first-Stops _ rest (join_with-continues ps h) stop, split-join_with b'.' ps k e)
  where
    from_str_lem : (s : Text) → from_str s ≡ parse_split (split b'.' (before_first ends_version s))
    from_str_lem s = unfold from_str in refl

-- The print of a version whose fields fit their types is parsed to that version, also where text
-- follows it that begins with neither a dot nor a digit.
pub from_str-show_version :
    (v : Version) (rest : Text)
    → IsVersion v
    → Stops rest
    → from_str (show_version v ++ rest) ≡ ok v
unfolding show_version
from_str-show_version v rest h stop =
    from_str-join_with (show_uint v.major ∷ show_uint v.minor ∷ show_uint v.patch ∷ []) rest
      (
        show_uint-continues v.major,
        (show_uint-continues v.minor, (show_uint-continues v.patch, tt)),
      )
      (show_uint_no_dot v.major, (show_uint_no_dot v.minor, (show_uint_no_dot v.patch, tt))) (cc)
      stop
    ∙ unfold parse_split parse_parts in
      rw (
        parse_uint-show_uint 8 v.major h.major_fits,
        parse_uint-show_uint 8 v.minor h.minor_fits,
        parse_uint-show_uint 16 v.patch h.patch_fits,
      )

-- A version with no patch level is refused, also where text follows it that begins with neither a
-- dot nor a digit.
pub from_str_no_patch :
    (major minor : ℕ) (rest : Text)
    → Stops rest
    → from_str (join_with b'.' (show_uint major ∷ show_uint minor ∷ []) ++ rest)
      ≡ err (codes "Missing patch version component")
from_str_no_patch major minor rest stop =
    from_str-join_with (show_uint major ∷ show_uint minor ∷ []) rest
      (show_uint-continues major, (show_uint-continues minor, tt))
      (show_uint_no_dot major, (show_uint_no_dot minor, tt)) (cc) stop
    ∙ unfold parse_split in refl

parse_parts_fits : (a b c : Text) {v : Version} → parse_parts a b c ≡ ok v → IsVersion v
unfolding parse_parts
parse_parts_fits a b c h =
    let (x, p, h) = >>=?-eq-ok _ _ h in
    let (y, q, h) = >>=?-eq-ok _ _ h in
    let (z, r, h) = >>=?-eq-ok _ _ h in
    let fits_x = parse_uint_bound 8 a (map_err-eq-ok _ (parse_uint 8 a) p) in
    let fits_y = parse_uint_bound 8 b (map_err-eq-ok _ (parse_uint 8 b) q) in
    let fits_z = parse_uint_bound 16 c (map_err-eq-ok _ (parse_uint 16 c) r) in ground arith

parse_split_fits : (parts : List Text) {v : Version} → parse_split parts ≡ ok v → IsVersion v
unfolding parse_split
parse_split_fits (a ∷ b ∷ c ∷ rest) h = parse_parts_fits a b c h
parse_split_fits (a ∷ b ∷ []) h = cc
parse_split_fits (a ∷ []) h = cc
parse_split_fits [] h = cc

-- The fields of every version that is accepted fit their types.
pub from_str-IsVersion : (s : Text) {v : Version} → from_str s ≡ ok v → IsVersion v
from_str-IsVersion s h =
    parse_split_fits (split b'.' (before_first ends_version s)) (unfold from_str in h)
