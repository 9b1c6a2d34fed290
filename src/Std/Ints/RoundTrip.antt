-- ===== src/Std/Ints/RoundTrip.antt =====
-- Every integer of a width is read back from its print.
use async_procfs.Prelude.{
  All-weaken, ℕ, zero, suc, ◌+◌, ◌-◌, ◌*◌, ◌/◌, ◌%◌, ◌^◌, ◌≤◌, ◌<◌, ◌≡◌, ◌≢◌, refl, [], ◌∷◌, Text,
  ok, ℤ, pos, negsuc, neg_ℕ, ◌∙◌, All, arith,
}
use async_procfs.Std.Chars.{to_digit_of_digit, IsDigit}
use async_procfs.Std.Ints.{
  ParseIntError, scan, scan_all, parse_uint, parse_int, digits, show_uint, show_int, map_ok,
}

scan-nil : (max : ℕ) (o : ParseIntError) (n : ℕ) → scan 10 max o n [] ≡ ok n
unfolding scan
scan-nil max o n = refl

scan_all-cons :
    (max : ℕ) (o : ParseIntError) (c : ℕ) (s : Text)
    → scan_all 10 max o (c ∷ s) ≡ scan 10 max o 0 (c ∷ s)
unfolding scan_all
scan_all-cons max o c s = refl

parse_uint_of_digit :
    (width c : ℕ) (s : Text)
    → IsDigit c
    → parse_uint width (c ∷ s) ≡ scan_all 10 (2 ^ width - 1) ParseIntError.pos_overflow (c ∷ s)
unfolding parse_uint
parse_uint_of_digit width c s d = ground arith

parse_int_of_digit :
    (width c : ℕ) (s : Text)
    → IsDigit c
    → parse_int width (c ∷ s)
      ≡ map_ok pos (scan_all 10 (2 ^ (width - 1) - 1) ParseIntError.pos_overflow (c ∷ s))
unfolding parse_int
parse_int_of_digit width c s d = ground arith

parse_int_of_minus :
    (width : ℕ) (s : Text)
    → parse_int width (b'-' ∷ s)
      ≡ map_ok neg_ℕ (scan_all 10 (2 ^ (width - 1)) ParseIntError.neg_overflow s)
unfolding parse_int
parse_int_of_minus width s = refl

show_int_pos : (n : ℕ) → show_int (pos n) ≡ show_uint n
unfolding show_int
show_int_pos n = refl

show_int_negsuc : (n : ℕ) → show_int (negsuc n) ≡ b'-' ∷ show_uint (suc n)
unfolding show_int
show_int_negsuc n = refl

-- The integers of `width` bits in two's complement.
abbrev pub InRange : ℕ → ℤ → Type 0
InRange width (pos n) = n < 2 ^ (width - 1)
InRange width (negsuc n) = n < 2 ^ (width - 1)

scan-digit :
    (max : ℕ) (o : ParseIntError) (n d : ℕ) (out : Text)
    → d < 10
    → n * 10 + d ≤ max
    → scan 10 max o n ((b'0' + d) ∷ out) ≡ scan 10 max o (n * 10 + d) out
unfolding scan
scan-digit max o n d out h k = ground (arith, to_digit_of_digit 10 d)

pub scan-digits :
    (max : ℕ) (o : ParseIntError) (rounds n : ℕ) (out : Text)
    → n < rounds
    → n ≤ max
    → scan 10 max o 0 (digits rounds n out) ≡ scan 10 max o n out
unfolding digits
scan-digits max o zero n out h k = absurd (omega arith)
scan-digits max o (suc rounds) n out h k = ground (
  arith,
  scan-digit max o 0 n out,
  scan-digits max o rounds (n / 10) ((b'0' + n % 10) ∷ out),
  scan-digit max o (n / 10) (n % 10) out,
)

pub digits-All : (rounds n : ℕ) (out : Text) → All IsDigit out → All IsDigit (digits rounds n out)
unfolding digits
digits-All zero n out h = h
digits-All (suc rounds) n out h = ground (arith, digits-All rounds (n / 10) ((b'0' + n % 10) ∷ out))

pub show_uint-All : (n : ℕ) → All IsDigit (show_uint n)
unfolding show_uint
show_uint-All n = digits-All (suc n) n [] tt

digits-ne-nil : (rounds n : ℕ) (out : Text) → out ≢ [] → digits rounds n out ≢ []
unfolding digits
digits-ne-nil zero n out h = h
digits-ne-nil (suc rounds) n out h =
    ground (arith, digits-ne-nil rounds (n / 10) ((b'0' + n % 10) ∷ out))

pub show_uint-ne-nil : (n : ℕ) → show_uint n ≢ []
unfolding show_uint digits
show_uint-ne-nil n = ground (arith, digits-ne-nil n (n / 10) ((b'0' + n % 10) ∷ []))

-- A print begins with a digit.
pub show_uint_head : (n : ℕ) → (c : ℕ) × (s : Text) × (show_uint n ≡ c ∷ s) × IsDigit c
show_uint_head n = go (show_uint n) refl (show_uint-All n)
  where
    go :
        (t : Text)
        → show_uint n ≡ t
        → All IsDigit t
        → (c : ℕ) × (s : Text) × (show_uint n ≡ c ∷ s) × IsDigit c
    go [] e a = absurd (show_uint-ne-nil n e)
    go (c ∷ s) e a = (c, s, e, a.0)

show_uint_lem : (n : ℕ) → show_uint n ≡ digits (suc n) n []
unfolding show_uint
show_uint_lem n = refl

pub scan-show_uint :
    (max : ℕ) (o : ParseIntError) (n : ℕ) → n ≤ max → scan 10 max o 0 (show_uint n) ≡ ok n
scan-show_uint max o n h =
    rw show_uint_lem (scan-digits max o (suc n) n [] (omega arith) h ∙ scan-nil max o n)

pub scan_all-show_uint :
    (max : ℕ) (o : ParseIntError) (n : ℕ) → n ≤ max → scan_all 10 max o (show_uint n) ≡ ok n
scan_all-show_uint max o n h =
    let (c, s, e, d) = show_uint_head n in
    rw (e, scan_all-cons) (rw e at (scan-show_uint max o n h))

-- An unsigned integer of `width` bits is read back from its print.
pub parse_uint-show_uint : (width n : ℕ) → n < 2 ^ width → parse_uint width (show_uint n) ≡ ok n
parse_uint-show_uint width n h =
    let (c, s, e, d) = show_uint_head n in
    rw (e, parse_uint_of_digit width c s d, ← e)
      (scan_all-show_uint (2 ^ width - 1) ParseIntError.pos_overflow n (omega arith))

-- A signed integer of `width` bits is read back from its print.
pub parse_int-show_int : (width : ℕ) (z : ℤ) → InRange width z → parse_int width (show_int z) ≡ ok z
parse_int-show_int width (pos n) h =
    let (c, s, e, d) = show_uint_head n in
    rw (
      show_int_pos n,
      e,
      parse_int_of_digit width c s d,
      ← e,
      scan_all-show_uint (2 ^ (width - 1) - 1) ParseIntError.pos_overflow n (omega arith),
    )
parse_int-show_int width (negsuc n) h = rw (
  show_int_negsuc n,
  parse_int_of_minus,
  scan_all-show_uint (2 ^ (width - 1)) ParseIntError.neg_overflow (suc n) (omega arith),
)

-- Prints are ASCII text.
pub show_uint-ascii : (n : ℕ) → All (λ c. c < 0x80) (show_uint n)
show_uint-ascii n = All-weaken IsDigit _ (λ c h. ground arith) (show_uint n) (show_uint-All n)

pub show_int-ascii : (z : ℤ) → All (λ c. c < 0x80) (show_int z)
unfolding show_int
show_int-ascii (pos n) = show_uint-ascii n
show_int-ascii (negsuc n) = (omega arith, show_uint-ascii (suc n))
