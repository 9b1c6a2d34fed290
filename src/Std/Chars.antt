-- ===== src/Std/Chars.antt =====
-- `char` methods. A character is its code point.
use async_procfs.Prelude.{
  ℕ, ◌+◌, ◌-◌, ◌≤◌, ◌<◌, ◌≡◌, Bool, true, false, ◌&&◌, ◌||◌, Option, none, some, arith, ltb, leb,
  ◌==◌, if◌then◌else◌,
}

unfoldable pub is_ascii_digit : ℕ → Bool
is_ascii_digit c = leb b'0' c && leb c b'9'

-- The Unicode property White_Space, behind `char::is_whitespace`, `trim` and `split_whitespace`.
unfoldable pub is_whitespace : ℕ → Bool
is_whitespace c =
    (leb 0x9 c && leb c 0xd)
    || c == 0x20
    || c == 0x85
    || c == 0xa0
    || c == 0x1680
    || (leb 0x2000 c && leb c 0x200a)
    || c == 0x2028
    || c == 0x2029
    || c == 0x202f
    || c == 0x205f
    || c == 0x3000

-- `u8::is_ascii_whitespace`, behind `split_ascii_whitespace`: no vertical tab.
unfoldable pub is_ascii_whitespace : ℕ → Bool
is_ascii_whitespace c = c == 0x20 || c == 0x9 || c == 0xa || c == 0xc || c == 0xd

-- `char::to_digit`, for a radix of at most 36.
unfoldable pub to_digit : ℕ → ℕ → Option ℕ
to_digit radix c =
    let below = λ (d : ℕ). if ltb d radix then some d else none in
    if leb b'0' c && leb c b'9'
    then below (c - b'0')
    else if leb b'a' c && leb c b'z'
    then below (c - b'a' + 10)
    else if leb b'A' c && leb c b'Z'
    then below (c - b'A' + 10)
    else none

abbrev pub IsDigit : ℕ → Type 0
IsDigit c = (b'0' ≤ c) × (c ≤ b'9')

-- A digit's character is read as that digit, in every radix that has it.
pub to_digit_of_digit : (radix d : ℕ) → d < 10 → d < radix → to_digit radix (b'0' + d) ≡ some d
unfolding to_digit
to_digit_of_digit radix d h k = ground arith

-- Digits are not white space, under either definition, and are no separators.
pub digit_not_space :
    (d : ℕ) → d < 10 → (is_whitespace (b'0' + d) ≡ false) × (is_ascii_whitespace (b'0' + d) ≡ false)
unfolding is_whitespace is_ascii_whitespace
digit_not_space d h = ground arith

pub digit_is_digit : (d : ℕ) → d < 10 → is_ascii_digit (b'0' + d) ≡ true
unfolding is_ascii_digit
digit_is_digit d h = ground arith
