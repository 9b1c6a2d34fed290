-- ===== src/Kernel/SysRq/Grammar.antt =====
-- The texts that `SysRq::from_str` accepts.
use async_procfs.Prelude.{
  ℕ, ◌%◌, ◌<◌, ◌^◌, ◌≡◌, ◌↔◌, ◌∙◌, sym, inl, inr, Text, if◌then◌else◌, ◌==◌, bit_and, some, none,
  ok, arith, >>=?-eq-ok, map_err-eq-ok, Option-cases,
}
use async_procfs.Std.Bits.{bit_and_functions}
use async_procfs.Std.Ints.{parse_uint}
use async_procfs.Std.Ints.Decimal.{SpellsNumber, parse_uint_iff}
use async_procfs.Env.{Env}
use async_procfs.Kernel.SysRq.{
  SysRq, disable, enable, allowed_functions, all_functions, from_number, sysrq_from_str,
}
use async_procfs.Kernel.SysRq.RoundTrip.{AcceptsKnownBits}

-- What a number stands for: 0 for no function, 1 for all, and an even number below 512 for the functions of
-- its binary digits.
abbrev pub StandsFor : ℕ → SysRq → Type 0
StandsFor n disable = n ≡ 0
StandsFor n enable = n ≡ 1
StandsFor n (allowed_functions bits) = (bits ≡ n) × (1 < n) × (n < 512) × (n % 2 ≡ 0)

StandsFor-fits : (n : ℕ) (r : SysRq) → StandsFor n r → n < 2 ^ 16
StandsFor-fits n disable h = omega arith
StandsFor-fits n enable h = omega arith
StandsFor-fits n (allowed_functions bits) h = omega arith

module _ (E : Env) (known : AcceptsKnownBits E) where
  -- The bits of the constants are those of the even numbers below 512.
  from_bits_known : (n : ℕ) → n < 512 → n % 2 ≡ 0 → E.from_bits all_functions n ≡ some n
  from_bits_known n small even = known all_functions n ∙ ground (arith, bit_and_functions n)

  from_bits-eq-some :
      (n bits : ℕ) → E.from_bits all_functions n ≡ some bits → (bits ≡ n) × (n < 512) × (n % 2 ≡ 0)
  from_bits-eq-some n bits h =
      let answer : (if bit_and n all_functions == n then some n else none) ≡ some bits =
        sym (known all_functions n) ∙ h in
      ground (arith, bit_and_functions n)

  from_number-StandsFor : (n : ℕ) (r : SysRq) → from_number E n ≡ ok r → StandsFor n r
  unfolding from_number
  from_number-StandsFor n disable h = ground arith
  from_number-StandsFor n enable h = ground arith
  from_number-StandsFor n (allowed_functions bits) h =
      elim (Option-cases (E.from_bits all_functions n)) [
        | inl refused ↦ absurd (ground arith)
        | inr (found, e) ↦ let (same, small, even) = from_bits-eq-some n found e in ground arith
      ]

  StandsFor-from_number : (n : ℕ) (r : SysRq) → StandsFor n r → from_number E n ≡ ok r
  unfolding from_number
  StandsFor-from_number n disable h = ground arith
  StandsFor-from_number n enable h = ground arith
  StandsFor-from_number n (allowed_functions bits) (same, large, small, even) =
      ground (arith, from_bits_known n small even)

  -- With `from_bits` accepting the known bits alone, a text is accepted exactly if it is a numeral,
  -- with or without a plus sign in front, of 0, of 1, or of an even number below 512, and it is read as
  -- no function, as all functions, and as the functions of the binary digits of that number.
  pub sysrq_from_str_iff :
      (s : Text) (r : SysRq)
      → (sysrq_from_str E s ≡ ok r) ↔ ((n : ℕ) × SpellsNumber s n × StandsFor n r)
  unfolding sysrq_from_str
  sysrq_from_str_iff s r = (accepted, read)
    where
      accepted : sysrq_from_str E s ≡ ok r → (n : ℕ) × SpellsNumber s n × StandsFor n r
      accepted h =
          let (n, p, q) = >>=?-eq-ok _ _ h in
          let parsed = map_err-eq-ok E.from_parse_int (parse_uint 16 s) p in
          (n, ((parse_uint_iff 16 s n).0 parsed).0, from_number-StandsFor n r q)

      read : ((n : ℕ) × SpellsNumber s n × StandsFor n r) → sysrq_from_str E s ≡ ok r
      read (n, spelled, stands) =
          rw ((parse_uint_iff 16 s n).1 (spelled, StandsFor-fits n r stands))
            (StandsFor-from_number n r stands)
