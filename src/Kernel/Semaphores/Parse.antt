-- ===== src/Kernel/Semaphores/Parse.antt =====
-- `SemaphoreLimits::from_str` on the print of numbers.
use async_procfs.Prelude.{
  ℕ, map, ◌<◌, ◌^◌, ◌≡◌, ◌≢◌, ◌∙◌, true, false, List, [], ◌∷◌, arith, codes, All, All-weaken, ok,
  err,
}
use async_procfs.Std.Chars.{IsDigit, is_ascii_whitespace}
use async_procfs.Std.Strings.{split_ascii_whitespace, join_with}
use async_procfs.Std.Strings.Laws.{Free, split_by-join_with, nonempty-All}
use async_procfs.Std.Ints.{show_uint}
use async_procfs.Std.Ints.RoundTrip.{show_uint-All, show_uint-ne-nil, parse_uint-show_uint}
use async_procfs.Kernel.Semaphores.{SemaphoreLimits, limits_from_str, parse_words, parse_fields}

digit_not_white : (c : ℕ) → IsDigit c → is_ascii_whitespace c ≡ false
unfolding is_ascii_whitespace
digit_not_white c h = ground arith

numbers-Free : (ns : List ℕ) → All (Free is_ascii_whitespace) (map show_uint ns)
numbers-Free [] = tt
numbers-Free (n ∷ ns) =
    (All-weaken IsDigit _ digit_not_white (show_uint n) (show_uint-All n), numbers-Free ns)

pub numbers-ne-nil : (ns : List ℕ) → All (λ p. p ≢ []) (map show_uint ns)
numbers-ne-nil [] = tt
numbers-ne-nil (n ∷ ns) = (show_uint-ne-nil n, numbers-ne-nil ns)

-- Numbers with one ASCII white space character between them are cut apart.
limits_from_str-numbers :
    (sep n : ℕ) (ns : List ℕ)
    → is_ascii_whitespace sep ≡ true
    → limits_from_str (join_with sep (map show_uint (n ∷ ns)))
      ≡ parse_words (map show_uint (n ∷ ns))
unfolding limits_from_str split_ascii_whitespace
limits_from_str-numbers sep n ns space = rw (
  split_by-join_with is_ascii_whitespace sep (map show_uint (n ∷ ns)) space (numbers-Free (n ∷ ns))
      (cc),
  nonempty-All (map show_uint (n ∷ ns)) (numbers-ne-nil (n ∷ ns)),
)

abbrev pub FitsU64 : SemaphoreLimits → Type 0
FitsU64 l = (l.semmsl < 2 ^ 64) × (l.semmns < 2 ^ 64) × (l.semopm < 2 ^ 64) × (l.semmni < 2 ^ 64)

-- Four `u64` numbers with any ASCII white space character between them, and any numbers behind them,
-- are parsed in their order.
pub limits_from_str_lem :
    (sep : ℕ) (l : SemaphoreLimits) (more : List ℕ)
    → is_ascii_whitespace sep ≡ true
    → FitsU64 l
    → limits_from_str
        (join_with sep (map show_uint (l.semmsl ∷ l.semmns ∷ l.semopm ∷ l.semmni ∷ more)))
      ≡ ok l
limits_from_str_lem sep l more space (a, b, c, d) =
    limits_from_str-numbers sep l.semmsl (l.semmns ∷ l.semopm ∷ l.semmni ∷ more) space
    ∙ unfold parse_words parse_fields in
      rw (
        parse_uint-show_uint 64 l.semmsl a,
        parse_uint-show_uint 64 l.semmns b,
        parse_uint-show_uint 64 l.semopm c,
        parse_uint-show_uint 64 l.semmni d,
      )

-- With one, two or three numbers the error names the first limit that is missing.
pub limits_from_str_missing :
    (sep a b c : ℕ)
    → is_ascii_whitespace sep ≡ true
    → (limits_from_str (join_with sep (map show_uint (a ∷ []))) ≡ err (codes "Missing SEMMNS"))
      × (limits_from_str (join_with sep (map show_uint (a ∷ b ∷ [])))
          ≡ err (codes "Missing SEMOPM"))
      × (limits_from_str (join_with sep (map show_uint (a ∷ b ∷ c ∷ [])))
          ≡ err (codes "Missing SEMMNI"))
unfolding parse_words
limits_from_str_missing sep a b c space = (
  limits_from_str-numbers sep a [] space,
  limits_from_str-numbers sep a (b ∷ []) space,
  limits_from_str-numbers sep a (b ∷ c ∷ []) space,
)
