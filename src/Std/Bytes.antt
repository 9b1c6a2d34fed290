-- ===== src/Std/Bytes.antt =====
-- Integers as byte arrays in the target's order: `to_ne_bytes` and `from_ne_bytes`.
use async_procfs.Prelude.{
  ℕ, zero, suc, ◌+◌, ◌*◌, ◌/◌, ◌%◌, ◌^◌, ◌<◌, ◌≡◌, refl, ◌∙◌, ap, Bool, true, false, [], ◌∷◌, arith,
  if◌then◌else◌, Bytes, length, length-append,
}
use mathlib.Core.List.{reverse, reverse-cons, reverse-reverse}
use native.Mathlib.Nat.{pow-suc}

-- The `k` low bytes of `n`, least significant first.
unfoldable pub to_le_bytes : ℕ → ℕ → Bytes
to_le_bytes zero n = []
to_le_bytes (suc k) n = (n % 256) ∷ to_le_bytes k (n / 256)

unfoldable pub from_le_bytes : Bytes → ℕ
from_le_bytes [] = 0
from_le_bytes (b ∷ bs) = b + 256 * from_le_bytes bs

-- The first argument says whether the target is little-endian.
unfoldable pub to_ne_bytes : Bool → ℕ → ℕ → Bytes
unfolding to_le_bytes
to_ne_bytes little k n = if little then to_le_bytes k n else reverse (to_le_bytes k n)

unfoldable pub from_ne_bytes : Bool → Bytes → ℕ
unfolding from_le_bytes
from_ne_bytes little bs = if little then from_le_bytes bs else from_le_bytes (reverse bs)

length-to_le_bytes : (k n : ℕ) → length (to_le_bytes k n) ≡ k
unfolding to_le_bytes
length-to_le_bytes zero n = refl
length-to_le_bytes (suc k) n = ap suc (length-to_le_bytes k (n / 256))

length-reverse : (bs : Bytes) → length (reverse bs) ≡ length bs
length-reverse [] = refl
length-reverse (b ∷ bs) =
    rw reverse-cons (omega (arith, length-append (reverse bs) (b ∷ []), length-reverse bs))

pub length-to_ne_bytes : (little : Bool) (k n : ℕ) → length (to_ne_bytes little k n) ≡ k
length-to_ne_bytes true k n = unfold to_ne_bytes in length-to_le_bytes k n
length-to_ne_bytes false k n =
    unfold to_ne_bytes in (length-reverse (to_le_bytes k n) ∙ length-to_le_bytes k n)

div_lt : (k n : ℕ) → n < 256 ^ suc k → n / 256 < 256 ^ k
div_lt k n h = let e : n < 256 ^ k * 256 = rw pow-suc at h in omega arith

from_le_bytes-to_le_bytes : (k n : ℕ) → n < 256 ^ k → from_le_bytes (to_le_bytes k n) ≡ n
unfolding from_le_bytes to_le_bytes
from_le_bytes-to_le_bytes zero n h = omega arith
from_le_bytes-to_le_bytes (suc k) n h =
    omega (arith, from_le_bytes-to_le_bytes k (n / 256) (div_lt k n h))

-- An integer that fits `k` bytes is read back, on either kind of target.
pub from_ne_bytes-to_ne_bytes :
    (little : Bool) (k n : ℕ) → n < 256 ^ k → from_ne_bytes little (to_ne_bytes little k n) ≡ n
unfolding from_ne_bytes to_ne_bytes
from_ne_bytes-to_ne_bytes true k n h = from_le_bytes-to_le_bytes k n h
from_ne_bytes-to_ne_bytes false k n h = rw reverse-reverse (from_le_bytes-to_le_bytes k n h)
