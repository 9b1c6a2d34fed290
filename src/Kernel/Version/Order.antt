-- ===== src/Kernel/Version/Order.antt =====
-- `Ord` for `Version`.
use Prim.Native.Nat.{compare, Ordering}
use async_procfs.Prelude.{ℕ, ◌+◌, ◌*◌, ◌≡◌, ◌<◌, ◌↔◌, ◌⊎◌, Bool, true, arith}
use async_procfs.Kernel.Version.{Version, IsVersion, cmp, version_lt}

-- The fields as the digits of one number.
abbrev pub key : Version → ℕ
key v = v.major * 16777216 + v.minor * 65536 + v.patch

-- For versions whose fields fit, `cmp` compares the numbers whose digits are the fields.
pub cmp-key : (a b : Version) → IsVersion a → IsVersion b → cmp a b ≡ compare (key a) (key b)
unfolding cmp
cmp-key a b h k = ground arith

-- Two versions compare as equal exactly when they are the same version.
pub cmp_eq_iff : (a b : Version) → (cmp a b ≡ Ordering.eq) ↔ (a ≡ b)
unfolding cmp
cmp_eq_iff a b = ground arith

-- For versions whose fields fit, the operator `<` compares the numbers whose digits are the fields.
pub version_lt-key :
    (a b : Version) → IsVersion a → IsVersion b → (version_lt a b ≡ true) ↔ (key a < key b)
unfolding version_lt
version_lt-key a b h k = ground arith

-- What `Ord` and `PartialOrd` ask of `cmp` and of the operator `<`.
pub record IsTotalOrder (compares : Version → Version → Ordering) (lt : Version → Version → Bool)
    : Type 0 where
  pub eq_iff_same : (a b : Version) → (compares a b ≡ Ordering.eq) ↔ (a ≡ b)
  pub lt_iff_gt : (a b : Version) → (compares a b ≡ Ordering.lt) ↔ (compares b a ≡ Ordering.gt)
  pub lt_trans :
      (a b c : Version)
      → compares a b ≡ Ordering.lt
      → compares b c ≡ Ordering.lt
      → compares a c ≡ Ordering.lt
  pub decided :
      (a b : Version)
      → (compares a b ≡ Ordering.lt) ↔ (
          (a.major < b.major)
          ⊎ ((a.major ≡ b.major) × (a.minor < b.minor))
          ⊎ ((a.major ≡ b.major) × (a.minor ≡ b.minor) × (a.patch < b.patch)))
  pub lt_agrees : (a b : Version) → (lt a b ≡ true) ↔ (compares a b ≡ Ordering.lt)

trans : (a b c : Version) → cmp a b ≡ Ordering.lt → cmp b c ≡ Ordering.lt → cmp a c ≡ Ordering.lt
unfolding cmp
trans a b c h k = ground arith

decided_lem :
    (a b : Version)
    → (cmp a b ≡ Ordering.lt) ↔ (
        (a.major < b.major)
        ⊎ ((a.major ≡ b.major) × (a.minor < b.minor))
        ⊎ ((a.major ≡ b.major) × (a.minor ≡ b.minor) × (a.patch < b.patch)))
unfolding cmp
decided_lem a b = ground arith

-- `cmp` and the operator `<` are one total order of all versions: two versions compare as equal
-- exactly when they are the same, turning the sides round turns the answer round, less than is
-- transitive and what the operator says, and the first of major version, minor version and patch
-- level that differs decides.
pub cmp-IsTotalOrder : IsTotalOrder cmp version_lt
unfolding cmp version_lt
cmp-IsTotalOrder = record {
  eq_iff_same = cmp_eq_iff;
  lt_iff_gt = λ a b. ground arith;
  lt_trans = trans;
  decided = decided_lem;
  lt_agrees = λ a b. ground arith;
}
