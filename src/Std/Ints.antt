-- ===== src/Std/Ints.antt =====
-- Parsing and printing of machine integers: `FromStr`, `from_str_radix` and `Display`.
pub mod Bounds
pub mod Decimal
pub mod Hex
pub mod RoundTrip
use async_procfs.Prelude.{
  ℕ, zero, suc, ◌+◌, ◌-◌, ◌*◌, ◌/◌, ◌%◌, ◌^◌, ◌≡◌, refl, Option, none, some, [], ◌∷◌, Text, ltb,
  ◌==◌, if◌then◌else◌, Result, ok, err, map_err, ok_of, ℤ, pos, negsuc, neg_ℕ, codes, Bool, true,
  false,
}
use async_procfs.Std.Chars.{to_digit}

-- `std::num::IntErrorKind`, as `parse` produces it.
pub data ParseIntError : Type 0 where
  empty invalid_digit pos_overflow neg_overflow : ParseIntError

-- The digits, most significant first, onto the value `n`: an invalid digit is found before the
-- overflow that it would take part in.
unfoldable pub scan : ℕ → ℕ → ParseIntError → ℕ → Text → Result ℕ ParseIntError
scan radix max overflow n [] = ok n
scan radix max overflow n (c ∷ s) = elim (to_digit radix c) [
  | none ↦ err invalid_digit
  | some d ↦
      let rest = scan radix max overflow (n * radix + d) s in
      if ltb max (n * radix + d) then err overflow else rest
]

-- Behind the sign there must be a digit.
unfoldable pub scan_all : ℕ → ℕ → ParseIntError → Text → Result ℕ ParseIntError
unfolding scan
scan_all radix max overflow [] = err invalid_digit
scan_all radix max overflow (c ∷ s) = scan radix max overflow 0 (c ∷ s)

-- `u8`, `u16`, `u32` and `u64` by their width: a leading `+` is accepted, a `-` is no digit.
unfoldable pub parse_radix : ℕ → ℕ → Text → Result ℕ ParseIntError
unfolding scan_all
parse_radix radix width [] = err empty
parse_radix radix width (c ∷ s) =
    if c == b'+'
    then scan_all radix (2 ^ width - 1) pos_overflow s
    else scan_all radix (2 ^ width - 1) pos_overflow (c ∷ s)

unfoldable pub parse_uint : ℕ → Text → Result ℕ ParseIntError
unfolding parse_radix
parse_uint = parse_radix 10

abbrev pub map_ok : (ℕ → ℤ) → Result ℕ ParseIntError → Result ℤ ParseIntError
map_ok f (ok n) = ok (f n)
map_ok f (err e) = err e

-- `i16` and `i32`.
unfoldable pub parse_int : ℕ → Text → Result ℤ ParseIntError
unfolding scan_all
parse_int width [] = err empty
parse_int width (c ∷ s) =
    if c == b'-'
    then map_ok neg_ℕ (scan_all 10 (2 ^ (width - 1)) neg_overflow s)
    else if c == b'+'
    then map_ok pos (scan_all 10 (2 ^ (width - 1) - 1) pos_overflow s)
    else map_ok pos (scan_all 10 (2 ^ (width - 1) - 1) pos_overflow (c ∷ s))

-- The decimal digits of `n` before `out`; `n + 1` rounds are more than enough.
unfoldable pub digits : ℕ → ℕ → Text → Text
digits zero n out = out
digits (suc rounds) n out =
    let more = digits rounds (n / 10) ((b'0' + n % 10) ∷ out) in
    if ltb n 10 then (b'0' + n) ∷ out else more

-- `to_string` of an unsigned and of a signed integer.
unfoldable pub show_uint : ℕ → Text
unfolding digits
show_uint n = digits (suc n) n []

unfoldable pub show_int : ℤ → Text
unfolding show_uint
show_int (pos n) = show_uint n
show_int (negsuc n) = b'-' ∷ show_uint (suc n)

extremes_u8 :
    (parse_uint 8 (codes "255") ≡ ok 255)
    × (parse_uint 8 (codes "256") ≡ err pos_overflow)
    × (parse_uint 8 (codes "+7") ≡ ok 7)
    × (parse_uint 8 (codes "-7") ≡ err invalid_digit)
    × (parse_uint 8 (codes "+") ≡ err invalid_digit)
    × (parse_uint 8 [] ≡ err empty)
unfolding parse_uint to_digit
extremes_u8 = (refl, refl, refl, refl, refl, refl)

extremes_i16 :
    (parse_int 16 (show_int (negsuc 32767)) ≡ ok (negsuc 32767))
    × (parse_int 16 (codes "-32769") ≡ err neg_overflow)
    × (parse_int 16 (codes "32768") ≡ err pos_overflow)
unfolding parse_int show_int to_digit
extremes_i16 = (refl, refl, refl)
