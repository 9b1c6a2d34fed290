-- ===== src/Prelude/Results.antt =====
-- `Result<A, E>` as a value, and a run of an `async fn` on a state: it returns, it fails with an
-- error, or it panics, and in each case leaves a state behind. An `.await` is a sequencing step.
use mathlib.Core.Path.{◌≡◌, refl}
use mathlib.Core.Logic.{◌⊎◌, inl, inr}
use mathlib.Core.Option.{Option, none, some}
use async_procfs.Prelude.Lists.{Text}

pub data Result {ℓ κ} (A : Type ℓ) (E : Type κ) : Type (ℓ ⊔ κ) where
  ok : A → Result A E
  err : E → Result A E

-- `Result::map_err`, `Option::ok_or` and `Result::ok`.
abbrev pub map_err {ℓ κ ι} :
    {A : Type ℓ} {E : Type κ} {F : Type ι} → (E → F) → Result A E → Result A F
map_err f (ok a) = ok a
map_err f (err e) = err (f e)

abbrev pub ok_or {ℓ κ} : {A : Type ℓ} {E : Type κ} → E → Option A → Result A E
ok_or e none = err e
ok_or e (some a) = ok a

abbrev pub ok_of {ℓ κ} : {A : Type ℓ} {E : Type κ} → Result A E → Option A
ok_of (ok a) = some a
ok_of (err e) = none

-- `Result::and_then`, which the operator `?` chains too.
infixl 5 ◌>>=?◌
abbrev pub ◌>>=?◌ {ℓ κ ι} :
    {A : Type ℓ} {B : Type κ} {E : Type ι} → Result A E → (A → Result B E) → Result B E
ok a >>=? f = f a
err e >>=? f = err e

pub Result-cases {ℓ κ} :
    {A : Type ℓ} {E : Type κ} (r : Result A E) → ((a : A) × (r ≡ ok a)) ⊎ ((e : E) × (r ≡ err e))
Result-cases (ok a) = inl (a, refl)
Result-cases (err e) = inr (e, refl)

-- What a successful chain, and a successful `map_err`, came from.
pub >>=?-eq-ok {ℓ κ ι} :
    {A : Type ℓ} {B : Type κ} {E : Type ι} (r : Result A E) (f : A → Result B E) {b : B}
    → (r >>=? f) ≡ ok b
    → (a : A) × (r ≡ ok a) × (f a ≡ ok b)
>>=?-eq-ok (ok a) f h = (a, refl, h)
>>=?-eq-ok (err e) f h = cc

pub map_err-eq-ok {ℓ κ ι} :
    {A : Type ℓ} {E : Type κ} {F : Type ι} (f : E → F) (r : Result A E) {a : A}
    → map_err f r ≡ ok a
    → r ≡ ok a
map_err-eq-ok f (ok a) h = cc
map_err-eq-ok f (err e) h = cc

pub data Run (A E S : Type 0) : Type 0 where
  returned : A → S → Run A E S
  failed : E → S → Run A E S
  panicked : Text → S → Run A E S

module _ {S E : Type 0} where
  abbrev pub pure : {A : Type 0} → A → S → Run A E S
  pure a s = returned a s

  abbrev pub throw : {A : Type 0} → E → S → Run A E S
  throw e s = failed e s

  abbrev pub of_result : {A : Type 0} → Result A E → S → Run A E S
  of_result (ok a) s = returned a s
  of_result (err e) s = failed e s

  -- What is done with the outcome of an `.await`: only a value that is returned goes on.
  abbrev pub run_bind : {A B : Type 0} → Run A E S → (A → S → Run B E S) → Run B E S
  run_bind (returned a t) f = f a t
  run_bind (failed e t) f = failed e t
  run_bind (panicked p t) f = panicked p t

  infixl 5 ◌>>=◌ ◌>>◌
  abbrev pub ◌>>=◌ : {A B : Type 0} → (S → Run A E S) → (A → S → Run B E S) → S → Run B E S
  ◌>>=◌ m f s = run_bind (m s) f

  abbrev pub ◌>>◌ : {B : Type 0} → (S → Run (Unit {0}) E S) → (S → Run B E S) → S → Run B E S
  m >> k = m >>= λ _. k

  abbrev pub map_run : {A B : Type 0} → (A → B) → (S → Run A E S) → S → Run B E S
  map_run f m = m >>= λ a. pure (f a)

  -- The outcome as a value: a `match` on it goes on in both cases, and not from a panic.
  abbrev pub run_attempt : {A F : Type 0} → Run A E S → Run (Result A E) F S
  run_attempt (returned a t) = returned (ok a) t
  run_attempt (failed e t) = returned (err e) t
  run_attempt (panicked p t) = panicked p t

  abbrev pub attempt : {A F : Type 0} → (S → Run A E S) → S → Run (Result A E) F S
  attempt m s = run_attempt (m s)

-- The conversion of an error that `?` or `map_err` makes.
abbrev pub run_map_failed : {S E F A : Type 0} → (E → F) → Run A E S → Run A F S
run_map_failed f (returned a t) = returned a t
run_map_failed f (failed e t) = failed (f e) t
run_map_failed f (panicked p t) = panicked p t

abbrev pub map_failed : {S E F A : Type 0} → (E → F) → (S → Run A E S) → S → Run A F S
map_failed f m s = run_map_failed f (m s)

-- The state that a run leaves behind, however it ends.
abbrev pub state_of : {A E S : Type 0} → Run A E S → S
state_of (returned a t) = t
state_of (failed e t) = t
state_of (panicked p t) = t

-- A value that is returned, if one is, satisfies `P`.
abbrev pub Returns : {A E S : Type 0} → (A → Type 0) → Run A E S → Type 0
Returns P (returned a t) = P a
Returns P (failed e t) = Unit
Returns P (panicked p t) = Unit

pub Returns-all :
    {A E S : Type 0} (P : A → Type 0) (r : Run A E S)
    → ((a : A) (t : S) → r ≡ returned a t → P a)
    → Returns P r
Returns-all P (returned a t) h = h a t refl
Returns-all P (failed e t) h = tt
Returns-all P (panicked p t) h = tt

pub Run-cases :
    {A E S : Type 0} (r : Run A E S)
    → ((a : A) × (t : S) × (r ≡ returned a t))
      ⊎ ((e : E) × (t : S) × (r ≡ failed e t))
      ⊎ ((p : Text) × (t : S) × (r ≡ panicked p t))
Run-cases (returned a t) = inl (a, t, refl)
Run-cases (failed e t) = inr (inl (e, t, refl))
Run-cases (panicked p t) = inr (inr (p, t, refl))

-- What a chain that returned came from.
pub run_bind-eq-returned :
    {S E A B : Type 0} (r : Run A E S) (f : A → S → Run B E S) {b : B} {u : S}
    → run_bind r f ≡ returned b u
    → (a : A) × (t : S) × (r ≡ returned a t) × (f a t ≡ returned b u)
run_bind-eq-returned (returned a t) f h = (a, t, refl, h)
run_bind-eq-returned (failed e t) f h = cc
run_bind-eq-returned (panicked p t) f h = cc

pub of_result-eq-returned :
    {S E A : Type 0} (r : Result A E) (s : S) {a : A} {t : S}
    → of_result r s ≡ returned a t
    → (r ≡ ok a) × (s ≡ t)
of_result-eq-returned (ok a) s h = (cc, cc)
of_result-eq-returned (err e) s h = (cc, cc)

pub run_map_failed-eq-returned :
    {S E F A : Type 0} (f : E → F) (r : Run A E S) {a : A} {t : S}
    → run_map_failed f r ≡ returned a t
    → r ≡ returned a t
run_map_failed-eq-returned f (returned a t) h = cc
run_map_failed-eq-returned f (failed e t) h = cc
run_map_failed-eq-returned f (panicked p t) h = cc

-- `Option::expect`.
abbrev pub expect_some : {S E A : Type 0} → Text → Option A → S → Run A E S
expect_some message none s = panicked message s
expect_some message (some a) s = returned a s
