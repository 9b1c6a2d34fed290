-- ===== src/Std/Bits.antt =====
-- `&` with two masks: the owner's permissions, and the functions of SysRq.
use Prim.Native.Nat.{min, digits, bit_and-bitwise}
use async_procfs.Prelude.{ℕ, zero, suc, ◌+◌, ◌*◌, ◌/◌, ◌%◌, ◌≤◌, ◌≡◌, refl, arith, bit_and, ◌∙◌}

-- The digits of a conjunction, with a count of digits to go.
abbrev conj : ℕ → ℕ → ℕ → ℕ
conj n a m = digits (λ b. zero) min n a m

-- `r` is conjunction with the mask `m`.
abbrev Masks : ℕ → (ℕ → ℕ) → Type 0
Masks m r = (n a : ℕ) → a ≤ n → conj n a m ≡ r a

Masks-zero : Masks 0 (λ a. 0)
Masks-zero zero a h = refl
Masks-zero (suc n) zero h = refl
Masks-zero (suc n) (suc a) h = omega (arith, Masks-zero n (suc a / 2) (omega arith))

min_one : (x : ℕ) → x % 2 ≡ x → min x 1 ≡ x
min_one x h = omega arith

min_zero : (x : ℕ) → min x 0 ≡ 0
min_zero x = omega arith

-- One more digit in front: the mask's half acts on the number's half, and the lowest digit is kept
-- or left out.
Masks-odd : (m : ℕ) (r : ℕ → ℕ) → m % 2 ≡ 1 → Masks (m / 2) r → Masks m (λ a. r (a / 2) * 2 + a % 2)
Masks-odd m r odd half zero zero h = omega (arith, half 0 0 (omega arith))
Masks-odd m r odd half zero (suc a) h = absurd (omega arith)
Masks-odd m r odd half (suc n) zero h = omega (arith, half 0 0 (omega arith))
Masks-odd m r odd half (suc n) (suc a) h =
    let below = half n (suc a / 2) (omega arith) in
    let front : min (suc a % 2) (m % 2) ≡ suc a % 2 = rw odd (min_one (suc a % 2) (omega arith)) in
    omega (arith, below, front)

Masks-even : (m : ℕ) (r : ℕ → ℕ) → m % 2 ≡ 0 → Masks (m / 2) r → Masks m (λ a. r (a / 2) * 2)
Masks-even m r even half zero zero h = omega (arith, half 0 0 (omega arith))
Masks-even m r even half zero (suc a) h = absurd (omega arith)
Masks-even m r even half (suc n) zero h = omega (arith, half 0 0 (omega arith))
Masks-even m r even half (suc n) (suc a) h =
    let below = half n (suc a / 2) (omega arith) in
    let front : min (suc a % 2) (m % 2) ≡ 0 = rw even (min_zero (suc a % 2)) in
    omega (arith, below, front)

Masks-seven : Masks 7 (λ a. a % 8)
Masks-seven n a h =
    Masks-odd 7 _ refl (Masks-odd 3 _ refl (Masks-odd 1 _ refl Masks-zero)) n a h ∙ omega arith

-- The mask 0o700 keeps the digits of 64, 128 and 256.
pub bit_and_owner : (a : ℕ) → bit_and a 0o700 ≡ a / 64 % 8 * 64
bit_and_owner a =
    bit_and-bitwise a 0o700
    ∙ Masks-even 448 _ refl
        (Masks-even 224 _ refl (
          Masks-even 112 _ refl
            (Masks-even 56 _ refl (Masks-even 28 _ refl (Masks-even 14 _ refl Masks-seven)))))
        a a (omega arith)
    ∙ omega arith

Masks-low_eight : Masks 255 (λ a. a % 256)
Masks-low_eight n a h =
    Masks-odd 255 _ refl
      (Masks-odd 127 _ refl
        (Masks-odd 63 _ refl (Masks-odd 31 _ refl (Masks-odd 15 _ refl Masks-seven))))
      n a h
    ∙ omega arith

-- The mask 510 keeps the digits of 2 to 256.
pub bit_and_functions : (a : ℕ) → bit_and a 510 ≡ a / 2 % 256 * 2
bit_and_functions a =
    bit_and-bitwise a 510 ∙ Masks-even 510 _ refl Masks-low_eight a a (omega arith) ∙ omega arith
