-- ===== src/Helpers/Traits.antt =====
-- src/helpers.rs: the traits `IntoOption` and `IntoResult`, and the implementations of the former.
use async_procfs.Prelude.{Option, Result, ok_of}

-- A type `S` of which the trait gives an `Option` of `A`.
pub record IntoOption {ℓ κ} (S : Type ℓ) (A : Type κ) : Type (ℓ ⊔ κ) where
  pub into_option : S → Option A

instance abbrev pub option_into {ℓ} : {A : Type ℓ} → IntoOption (Option A) A
option_into = record { into_option = λ t. t }

instance abbrev pub result_into {ℓ κ} : {A : Type ℓ} {F : Type κ} → IntoOption (Result A F) A
result_into = record { into_option = ok_of }

-- The method at the instance that the type decides.
abbrev pub into_option {ℓ κ} : {S : Type ℓ} {A : Type κ} ⦃trait : IntoOption S A⦄ → S → Option A
into_option ⦃trait⦄ = trait.into_option

-- A type of which the trait gives a `Result`; nothing implements it.
pub record IntoResult {ℓ κ ι} (S : Type ℓ) (A : Type κ) (F : Type ι) : Type (ℓ ⊔ κ ⊔ ι) where
  pub into : S → Result A F
