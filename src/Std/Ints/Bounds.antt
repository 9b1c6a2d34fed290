-- ===== src/Std/Ints/Bounds.antt =====
-- A parsed integer lies in the range of its type.
use async_procfs.Prelude.{
  Bool-cases, Option-cases, Result, Text, [], arith, err, false, inl, inr, neg_ℕ, ok, pos, refl,
  subst, suc, sym, true, zero, ℕ, ℤ, ◌*◌, ◌+◌, ◌-◌, ◌<◌, ◌==◌, ◌^◌, ◌∙◌, ◌∷◌, ◌≡◌, ◌≤◌,
}
use native.Mathlib.Nat.{one-le-pow}
use async_procfs.Std.Chars.{to_digit}
use async_procfs.Std.Ints.{ParseIntError, scan, scan_all, parse_uint, parse_int, map_ok}
use async_procfs.Std.Ints.RoundTrip.{InRange}

scan_bound :
    (radix max : ℕ) (o : ParseIntError) (n : ℕ) (s : Text) {r : ℕ}
    → n ≤ max
    → scan radix max o n s ≡ ok r
    → r ≤ max
unfolding scan
scan_bound radix max o n [] {r} h e = ground arith
scan_bound radix max o n (c ∷ s) {r} h e = elim (Option-cases (to_digit radix c)) [
  | inl bad ↦ ground arith
  | inr (d, good) ↦ ground (arith, scan_bound radix max o (n * radix + d) s {r = r})
]

scan_all_bound :
    (radix max : ℕ) (o : ParseIntError) (s : Text) {r : ℕ} → scan_all radix max o s ≡ ok r → r ≤ max
unfolding scan_all
scan_all_bound radix max o [] e = ground arith
scan_all_bound radix max o (c ∷ s) e = scan_bound radix max o 0 (c ∷ s) (omega arith) e

-- A parsed `u8`, `u16`, `u32` or `u64` fits its width.
pub parse_uint_bound : (width : ℕ) (s : Text) {n : ℕ} → parse_uint width s ≡ ok n → n < 2 ^ width
unfolding parse_uint
parse_uint_bound width [] e = ground arith
parse_uint_bound width (c ∷ s) {n} e =
    let fits : n ≤ 2 ^ width - 1 = elim (Bool-cases (c == b'+')) [
      | inl plus ↦ scan_all_bound 10 (2 ^ width - 1) ParseIntError.pos_overflow s (rw plus at e)
      | inr digit ↦
          scan_all_bound 10 (2 ^ width - 1) ParseIntError.pos_overflow (c ∷ s) (rw digit at e)
    ] in
    omega (arith, one-le-pow width 2 (omega arith))

map_ok-eq-ok :
    (f : ℕ → ℤ) (r : Result ℕ ParseIntError) {z : ℤ}
    → map_ok f r ≡ ok z
    → (n : ℕ) × (r ≡ ok n) × (f n ≡ z)
map_ok-eq-ok f (ok n) h = (n, refl, cc)
map_ok-eq-ok f (err e) h = cc

neg-InRange : (width n : ℕ) → n ≤ 2 ^ (width - 1) → InRange width (neg_ℕ n)
neg-InRange width zero h = omega (arith, one-le-pow (width - 1) 2 (omega arith))
neg-InRange width (suc n) h = h

pos-InRange : (width n : ℕ) → n ≤ 2 ^ (width - 1) - 1 → InRange width (pos n)
pos-InRange width n h = omega (arith, one-le-pow (width - 1) 2 (omega arith))

parse_int_nil : (width : ℕ) → parse_int width [] ≡ err ParseIntError.empty
unfolding parse_int
parse_int_nil width = refl

module _ (width c : ℕ) (s : Text) where
  parse_int_minus :
      (c == b'-') ≡ true
      → parse_int width (c ∷ s)
        ≡ map_ok neg_ℕ (scan_all 10 (2 ^ (width - 1)) ParseIntError.neg_overflow s)
  unfolding parse_int
  parse_int_minus h = rw h

  parse_int_plus :
      (c == b'-') ≡ false
      → (c == b'+') ≡ true
      → parse_int width (c ∷ s)
        ≡ map_ok pos (scan_all 10 (2 ^ (width - 1) - 1) ParseIntError.pos_overflow s)
  unfolding parse_int
  parse_int_plus h k = rw (h, k)

  parse_int_plain :
      (c == b'-') ≡ false
      → (c == b'+') ≡ false
      → parse_int width (c ∷ s)
        ≡ map_ok pos (scan_all 10 (2 ^ (width - 1) - 1) ParseIntError.pos_overflow (c ∷ s))
  unfolding parse_int
  parse_int_plain h k = rw (h, k)

-- A parsed `i16` or `i32` lies in the range of its width.
pub parse_int_bound : (width : ℕ) (s : Text) {z : ℤ} → parse_int width s ≡ ok z → InRange width z
parse_int_bound width s {z} e = go s (unfold parse_int in e)
  where
    positive :
        (s : Text)
        → map_ok pos (scan_all 10 (2 ^ (width - 1) - 1) ParseIntError.pos_overflow s) ≡ ok z
        → InRange width z
    positive s e =
        let (n, p, q) =
          map_ok-eq-ok pos (scan_all 10 (2 ^ (width - 1) - 1) ParseIntError.pos_overflow s) e in
        let bound = scan_all_bound 10 (2 ^ (width - 1) - 1) ParseIntError.pos_overflow s p in
        subst (InRange width) q (pos-InRange width n bound)

    negative :
        (s : Text)
        → map_ok neg_ℕ (scan_all 10 (2 ^ (width - 1)) ParseIntError.neg_overflow s) ≡ ok z
        → InRange width z
    negative s e =
        let (n, p, q) =
          map_ok-eq-ok neg_ℕ (scan_all 10 (2 ^ (width - 1)) ParseIntError.neg_overflow s) e in
        let bound = scan_all_bound 10 (2 ^ (width - 1)) ParseIntError.neg_overflow s p in
        subst (InRange width) q (neg-InRange width n bound)

    go : (s : Text) → parse_int width s ≡ ok z → InRange width z
    go [] e = cc (parse_int_nil width)
    go (c ∷ s) e = elim (Bool-cases (c == b'-')) [
      | inl minus ↦ negative s (sym (parse_int_minus width c s minus) ∙ e)
      | inr other ↦ elim (Bool-cases (c == b'+')) [
        | inl plus ↦ positive s (sym (parse_int_plus width c s other plus) ∙ e)
        | inr digit ↦ positive (c ∷ s) (sym (parse_int_plain width c s other digit) ∙ e)
      ]
    ]
