-- ===== src/Kernel/Version/Grammar.antt =====
-- The texts that `Version::from_str` accepts.
use async_procfs.Prelude.{
  ℕ, ◌≡◌, ◌↔◌, sym, ap, subst, ◌∙◌, false, List, [], ◌∷◌, ◌++◌, arith, Text, All, All-weaken, ok,
  >>=?-eq-ok, map_err-eq-ok,
}
use async_procfs.Std.Chars.{IsDigit}
use async_procfs.Std.Strings.{split, before_first, join_with}
use async_procfs.Std.Strings.Laws.{Free, is_sep}
use async_procfs.Std.Strings.Cuts.{before_first_cut, split_cut, All-parts}
use async_procfs.Std.Ints.{parse_uint}
use async_procfs.Std.Ints.Decimal.{IsNumeral, decimal, parse_uint-decimal, parse_uint-eq-ok}
use async_procfs.Kernel.Version.{
  Version, version, IsVersion, ends_version, parse_parts, parse_split, from_str,
}
use async_procfs.Kernel.Version.Parse.{Stops, from_str-join_with, from_str-IsVersion}

-- Three numerals and further parts, which are digits or empty, with dots between them, and a rest that begins
-- with neither a dot nor a digit. The numerals stand for the fields, which fit their types.
pub record Spells (s : Text) (v : Version) : Type 0 where
  pub major : Text
  pub minor : Text
  pub patch : Text
  pub more : List Text
  pub rest : Text
  pub shape : s ≡ join_with b'.' (major ∷ minor ∷ patch ∷ more) ++ rest
  pub numerals : IsNumeral major × IsNumeral minor × IsNumeral patch
  pub more_digits : All (All IsDigit) more
  pub stops : Stops rest
  pub fields : v ≡ version (decimal major) (decimal minor) (decimal patch)
  pub fits : IsVersion v

digits_continue : (s : Text) → All IsDigit s → Free ends_version s × Free (is_sep b'.') s
unfolding ends_version
digits_continue s h =
    (All-weaken IsDigit _ (λ c d. ground arith) s h, All-weaken IsDigit _ (λ c d. ground arith) s h)

parts_continue :
    (ps : List Text)
    → All (All IsDigit) ps
    → All (Free ends_version) ps × All (Free (is_sep b'.')) ps
parts_continue ps h = (
  All-weaken _ _ (λ s d. (digits_continue s d).0) ps h,
  All-weaken _ _ (λ s d. (digits_continue s d).1) ps h,
)

-- A character that neither ends a version nor is a dot is a digit.
continues-IsDigit : (c : ℕ) → ends_version c ≡ false → is_sep b'.' c ≡ false → IsDigit c
unfolding ends_version
continues-IsDigit c h k = ground arith

part-IsDigit : (s : Text) → Free ends_version s → Free (is_sep b'.') s → All IsDigit s
part-IsDigit [] h k = tt
part-IsDigit (c ∷ s) (h, hs) (k, ks) = (continues-IsDigit c h k, part-IsDigit s hs ks)

parts-IsDigit :
    (ps : List Text)
    → All (Free ends_version) ps
    → All (Free (is_sep b'.')) ps
    → All (All IsDigit) ps
parts-IsDigit [] h k = tt
parts-IsDigit (p ∷ ps) (h, hs) (k, ks) = (part-IsDigit p h k, parts-IsDigit ps hs ks)

parse_split-numerals :
    (a b c : Text) (more : List Text)
    → IsNumeral a
    → IsNumeral b
    → IsNumeral c
    → IsVersion (version (decimal a) (decimal b) (decimal c))
    → parse_split (a ∷ b ∷ c ∷ more) ≡ ok (version (decimal a) (decimal b) (decimal c))
unfolding parse_split
parse_split-numerals a b c more (a_some, a_digits) (b_some, b_digits) (c_some, c_digits) fits = rw (
  parse_uint-decimal 8 a a_some a_digits fits.major_fits,
  parse_uint-decimal 8 b b_some b_digits fits.minor_fits,
  parse_uint-decimal 16 c c_some c_digits fits.patch_fits,
)

-- A text that spells a version is accepted as it.
from_str-Spells : (s : Text) (v : Version) → Spells s v → from_str s ≡ ok v
from_str-Spells s v h =
    let (major_n, minor_n, patch_n) = h.numerals in
    let (go_on, no_dot) =
      parts_continue (h.major ∷ h.minor ∷ h.patch ∷ h.more)
        (major_n.1, (minor_n.1, (patch_n.1, h.more_digits))) in
    ap from_str h.shape
    ∙ from_str-join_with (h.major ∷ h.minor ∷ h.patch ∷ h.more) h.rest go_on no_dot (λ e. cc)
        h.stops
    ∙ parse_split-numerals h.major h.minor h.patch h.more major_n minor_n patch_n
        (subst IsVersion h.fields h.fits)
    ∙ ap ok (sym h.fields)

parse_parts-eq-ok :
    (a b c : Text) {v : Version}
    → All IsDigit a
    → All IsDigit b
    → All IsDigit c
    → parse_parts a b c ≡ ok v
    → (IsNumeral a × IsNumeral b × IsNumeral c) × (v ≡ version (decimal a) (decimal b) (decimal c))
unfolding parse_parts
parse_parts-eq-ok a b c da db dc h =
    let (x, p, h) = >>=?-eq-ok _ _ h in
    let (y, q, h) = >>=?-eq-ok _ _ h in
    let (z, r, h) = >>=?-eq-ok _ _ h in
    let (a_some, ea) = parse_uint-eq-ok 8 a da (map_err-eq-ok _ (parse_uint 8 a) p) in
    let (b_some, eb) = parse_uint-eq-ok 8 b db (map_err-eq-ok _ (parse_uint 8 b) q) in
    let (c_some, ec) = parse_uint-eq-ok 16 c dc (map_err-eq-ok _ (parse_uint 16 c) r) in
    (((a_some, da), (b_some, db), (c_some, dc)), cc)

Spells-parts :
    (parts : List Text) (s rest : Text) (v : Version)
    → All (All IsDigit) parts
    → Stops rest
    → s ≡ join_with b'.' parts ++ rest
    → IsVersion v
    → parse_split parts ≡ ok v
    → Spells s v
unfolding parse_split
Spells-parts (a ∷ b ∷ c ∷ more) s rest v (da, (db, (dc, dm))) stops shape fits h =
    let (numerals, fields) = parse_parts-eq-ok a b c da db dc h in
    record {
      major = a;
      minor = b;
      patch = c;
      more = more;
      rest = rest;
      shape = shape;
      numerals = numerals;
      more_digits = dm;
      stops = stops;
      fields = fields;
      fits = fits;
    }
Spells-parts (a ∷ b ∷ []) s rest v d stops shape fits h = absurd (cc)
Spells-parts (a ∷ []) s rest v d stops shape fits h = absurd (cc)
Spells-parts [] s rest v d stops shape fits h = absurd (cc)

-- A text that is accepted spells the version that is returned.
Spells-from_str : (s : Text) (v : Version) → from_str s ≡ ok v → Spells s v
Spells-from_str s v h =
    let (rest, same, stops, free) = before_first_cut ends_version s in
    let (joined, some_part, no_dot) = split_cut b'.' (before_first ends_version s) in
    let parts_free =
      All-parts (λ c. ends_version c ≡ false) b'.' (split b'.' (before_first ends_version s))
        (rw joined free) in
    Spells-parts (split b'.' (before_first ends_version s)) s rest v
      (parts-IsDigit _ parts_free no_dot) stops (rw joined same) (from_str-IsVersion s h)
      (unfold from_str in h)

-- A text is accepted as a version exactly if it spells it: it consists of three numerals and perhaps further
-- parts of digits, which may be empty, with dots between them, and of a rest that begins with neither a dot
-- nor a digit, and the version has the numbers of the three numerals, leading zeros allowed, which
-- fit an u8, an u8 and an u16.
pub from_str_iff : (s : Text) (v : Version) → (from_str s ≡ ok v) ↔ Spells s v
from_str_iff s v = (Spells-from_str s v, from_str-Spells s v)
