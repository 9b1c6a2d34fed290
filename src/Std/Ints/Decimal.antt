-- ===== src/Std/Ints/Decimal.antt =====
-- The number that a text of decimal digits stands for, leading zeros allowed.
use async_procfs.Prelude.{
  Option-cases, Bool-cases, ◌⊎◌, ◌↔◌, inl, inr, ◌==◌, ℕ, ◌+◌, ◌-◌, ◌*◌, ◌^◌, ◌≤◌, ◌<◌, ◌≡◌, ◌≢◌,
  refl, some, [], ◌∷◌, Text, ok, err, All, arith, ◌∙◌,
}
use native.Mathlib.Nat.{one-le-pow}
use async_procfs.Std.Chars.{to_digit, IsDigit}
use async_procfs.Std.Ints.{ParseIntError, scan, scan_all, parse_uint}
use async_procfs.Std.Ints.Bounds.{parse_uint_bound}

-- With the digits read so far as `n`.
abbrev pub value : ℕ → Text → ℕ
value n [] = n
value n (c ∷ s) = value (n * 10 + (c - b'0')) s

abbrev pub decimal : Text → ℕ
decimal s = value 0 s

le-value : (n : ℕ) (s : Text) → n ≤ value n s
le-value n [] = omega arith
le-value n (c ∷ s) = omega (arith, le-value (n * 10 + (c - b'0')) s)

to_digit-IsDigit : (c : ℕ) → IsDigit c → to_digit 10 c ≡ some (c - b'0')
unfolding to_digit
to_digit-IsDigit c h = ground arith

module _ (max : ℕ) (o : ParseIntError) where
  scan-value :
      (n : ℕ) (s : Text) → All IsDigit s → value n s ≤ max → scan 10 max o n s ≡ ok (value n s)
  unfolding scan
  scan-value n [] h k = refl
  scan-value n (c ∷ s) (d, h) k = ground (
    arith,
    to_digit-IsDigit c d,
    le-value (n * 10 + (c - b'0')) s,
    scan-value (n * 10 + (c - b'0')) s h k,
  )

  scan-eq-ok : (n : ℕ) (s : Text) {r : ℕ} → All IsDigit s → scan 10 max o n s ≡ ok r → r ≡ value n s
  unfolding scan
  scan-eq-ok n [] h e = ground arith
  scan-eq-ok n (c ∷ s) {r} (d, h) e =
      ground (arith, to_digit-IsDigit c d, scan-eq-ok (n * 10 + (c - b'0')) s {r = r} h)

parse_uint-cons :
    (width c : ℕ) (s : Text)
    → IsDigit c
    → parse_uint width (c ∷ s) ≡ scan 10 (2 ^ width - 1) ParseIntError.pos_overflow 0 (c ∷ s)
unfolding parse_uint scan_all
parse_uint-cons width c s d = ground arith

parse_uint-nil : (width : ℕ) → parse_uint width [] ≡ err ParseIntError.empty
unfolding parse_uint
parse_uint-nil width = refl

-- A text of digits is read as the number that it stands for, if that fits.
pub parse_uint-decimal :
    (width : ℕ) (s : Text)
    → s ≢ []
    → All IsDigit s
    → decimal s < 2 ^ width
    → parse_uint width s ≡ ok (decimal s)
parse_uint-decimal width [] ne h k = absurd (ne refl)
parse_uint-decimal width (c ∷ s) ne h k =
    parse_uint-cons width c s h.0
    ∙ scan-value (2 ^ width - 1) ParseIntError.pos_overflow 0 (c ∷ s) h
        (omega (arith, one-le-pow width 2 (omega arith)))

-- A text of digits that is read as a number is not empty and stands for that number.
pub parse_uint-eq-ok :
    (width : ℕ) (s : Text) {n : ℕ}
    → All IsDigit s
    → parse_uint width s ≡ ok n
    → (s ≢ []) × (n ≡ decimal s)
parse_uint-eq-ok width [] h e = absurd (cc (parse_uint-nil width))
parse_uint-eq-ok width (c ∷ s) h e = (
  λ nil. cc,
  scan-eq-ok (2 ^ width - 1) ParseIntError.pos_overflow 0 (c ∷ s) h
      (rw (parse_uint-cons width c s h.0) at e),
)

-- One digit or more.
abbrev pub IsNumeral : Text → Type 0
IsNumeral s = (s ≢ []) × All IsDigit s

-- A numeral that stands for `n`, with or without a sign in front.
abbrev pub SpellsNumber : Text → ℕ → Type 0
SpellsNumber s n = (t : Text) × ((s ≡ t) ⊎ (s ≡ b'+' ∷ t)) × IsNumeral t × (n ≡ decimal t)

IsDigit-to_digit : (c d : ℕ) → to_digit 10 c ≡ some d → IsDigit c
unfolding to_digit
IsDigit-to_digit c d h = ground arith

scan-All :
    (max : ℕ) (o : ParseIntError) (n : ℕ) (s : Text) {r : ℕ}
    → scan 10 max o n s ≡ ok r
    → All IsDigit s
unfolding scan
scan-All max o n [] h = tt
scan-All max o n (c ∷ s) {r} h = elim (Option-cases (to_digit 10 c)) [
  | inl bad ↦ absurd (ground arith)
  | inr (d, good) ↦
      (IsDigit-to_digit c d good, scan-All max o (n * 10 + d) s {r = r} (ground arith))
]

scan_all-IsNumeral :
    (max : ℕ) (o : ParseIntError) (s : Text) {r : ℕ}
    → scan_all 10 max o s ≡ ok r
    → IsNumeral s × (r ≡ decimal s)
unfolding scan_all
scan_all-IsNumeral max o [] h = absurd (cc)
scan_all-IsNumeral max o (c ∷ s) h =
    let digits = scan-All max o 0 (c ∷ s) h in
    (((λ e. cc), digits), scan-eq-ok max o 0 (c ∷ s) digits h)

parse_uint-SpellsNumber :
    (width : ℕ) (s : Text) {n : ℕ} → parse_uint width s ≡ ok n → SpellsNumber s n
unfolding parse_uint
parse_uint-SpellsNumber width [] h = absurd (cc)
parse_uint-SpellsNumber width (c ∷ s) {n} h = elim (Bool-cases (c == b'+')) [
  | inl plus ↦
      let sign : c ≡ b'+' = ground arith in
      let (numeral, same) =
        scan_all-IsNumeral (2 ^ width - 1) ParseIntError.pos_overflow s {r = n} (rw plus at h) in
      (s, inr (rw sign refl), numeral, same)
  | inr other ↦
      let (numeral, same) =
        scan_all-IsNumeral (2 ^ width - 1) ParseIntError.pos_overflow (c ∷ s) {r = n}
          (rw other at h) in
      (c ∷ s, inl refl, numeral, same)
]

parse_uint-plus :
    (width : ℕ) (t : Text) → IsNumeral t → parse_uint width (b'+' ∷ t) ≡ parse_uint width t
unfolding parse_uint
parse_uint-plus width [] h = absurd (h.0 refl)
parse_uint-plus width (c ∷ t) h = ground (arith, h.1.0)

-- A text is read as a number exactly if it spells the number, which fits the width.
pub parse_uint_iff :
    (width : ℕ) (s : Text) (n : ℕ)
    → (parse_uint width s ≡ ok n) ↔ (SpellsNumber s n × (n < 2 ^ width))
parse_uint_iff width s n = (spelled, read)
  where
    spelled : parse_uint width s ≡ ok n → SpellsNumber s n × (n < 2 ^ width)
    spelled h = (parse_uint-SpellsNumber width s h, parse_uint_bound width s h)

    numeral : (t : Text) → IsNumeral t → n ≡ decimal t → n < 2 ^ width → parse_uint width t ≡ ok n
    numeral t (some_digit, digits) same fits =
        rw same (parse_uint-decimal width t some_digit digits (rw same at fits))

    read : SpellsNumber s n × (n < 2 ^ width) → parse_uint width s ≡ ok n
    read ((t, inl plain, h, same), fits) = rw plain (numeral t h same fits)
    read ((t, inr signed, h, same), fits) =
        rw (signed, parse_uint-plus width t h) (numeral t h same fits)
