-- ===== src/Std/Ints/Hex.antt =====
-- Hexadecimal numbers, as the kernel prints them, and how they are read.
use async_procfs.Prelude.{
  ℕ, ◌+◌, ◌*◌, ◌-◌, ◌^◌, ◌<◌, ◌≤◌, ◌≡◌, ◌∙◌, refl, false, some, List, [], ◌∷◌, Text, All, arith,
  ltb, if◌then◌else◌, ◌==◌, ok,
}
use async_procfs.Std.Chars.{to_digit, is_whitespace}
use async_procfs.Std.Strings.Laws.{Free}
use async_procfs.Std.Ints.{ParseIntError, scan, scan_all, parse_radix}

-- The character of a digit below 16.
unfoldable pub hex_digit : ℕ → ℕ
hex_digit d = if ltb d 10 then b'0' + d else b'a' + (d - 10)

abbrev pub show_hex : List ℕ → Text
show_hex [] = []
show_hex (d ∷ ds) = hex_digit d ∷ show_hex ds

-- The number of these digits, behind the digits of `n`.
abbrev pub hex_value : ℕ → List ℕ → ℕ
hex_value n [] = n
hex_value n (d ∷ ds) = hex_value (n * 16 + d) ds

to_digit-hex_digit : (d : ℕ) → d < 16 → to_digit 16 (hex_digit d) ≡ some d
unfolding to_digit hex_digit
to_digit-hex_digit d h = ground arith

hex_digit_plain : (d : ℕ) → d < 16 → (hex_digit d == b'+') ≡ false
unfolding hex_digit
hex_digit_plain d h = ground arith

hex_digit_word : (d : ℕ) → d < 16 → is_whitespace (hex_digit d) ≡ false
unfolding is_whitespace hex_digit
hex_digit_word d h = ground arith

pub show_hex-Free : (ds : List ℕ) → All (λ d. d < 16) ds → Free is_whitespace (show_hex ds)
show_hex-Free [] h = tt
show_hex-Free (d ∷ ds) (h, hs) = (hex_digit_word d h, show_hex-Free ds hs)

hex_value-grows : (n : ℕ) (ds : List ℕ) → n ≤ hex_value n ds
hex_value-grows n [] = omega arith
hex_value-grows n (d ∷ ds) = omega (arith, hex_value-grows (n * 16 + d) ds)

scan_step :
    (max : ℕ) (o : ParseIntError) (n c d : ℕ) (s : Text)
    → to_digit 16 c ≡ some d
    → n * 16 + d ≤ max
    → scan 16 max o n (c ∷ s) ≡ scan 16 max o (n * 16 + d) s
unfolding scan
scan_step max o n c d s digit small = ground arith

scan-show_hex :
    (max : ℕ) (o : ParseIntError) (n : ℕ) (ds : List ℕ)
    → All (λ d. d < 16) ds
    → hex_value n ds ≤ max
    → scan 16 max o n (show_hex ds) ≡ ok (hex_value n ds)
unfolding scan
scan-show_hex max o n [] h k = refl
scan-show_hex max o n (d ∷ ds) (h, hs) k =
    let grows = hex_value-grows (n * 16 + d) ds in
    scan_step max o n (hex_digit d) d (show_hex ds) (to_digit-hex_digit d h) (omega arith)
    ∙ scan-show_hex max o (n * 16 + d) ds hs k

-- One or more digits below 16, most significant first, are read in radix 16 as their number if it
-- fits the width.
pub parse_radix-show_hex :
    (width d : ℕ) (ds : List ℕ)
    → All (λ d. d < 16) (d ∷ ds)
    → hex_value 0 (d ∷ ds) < 2 ^ width
    → parse_radix 16 width (show_hex (d ∷ ds)) ≡ ok (hex_value 0 (d ∷ ds))
unfolding parse_radix scan_all
parse_radix-show_hex width d ds h k =
    rw (hex_digit_plain d h.0)
      (scan-show_hex (2 ^ width - 1) ParseIntError.pos_overflow 0 (d ∷ ds) h (omega arith))
