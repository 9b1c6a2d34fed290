-- ===== src/Machine/Settled.antt =====
-- Runs that leave the static cache alone, or fill it where it is empty, one rule for each way to
-- build a run. What may fill it is a parameter.
use async_procfs.Prelude.{
  ℕ, ◌≡◌, ◌⊎◌, inl, inr, refl, sym, ◌∙◌, subst, Option, some, none, Text, Result, Run, returned,
  failed, panicked, run_bind, run_attempt, run_map_failed, ◌>>=◌, pure, throw, attempt, map_failed,
  expect_some, state_of,
}
use async_procfs.Env.{Env, IoError}
use async_procfs.Machine.{State, on_world, with_kernel}
use async_procfs.Machine.Closed.{Closed, Writes}

-- The cache stays as it was, or was empty and holds what it may hold.
abbrev pub Change : (ℕ → Type 0) → ℕ → ℕ → Type 0
Change P before after = (after ≡ before) ⊎ ((before ≡ 0) × P after)

pub record Settled {World A F : Type 0} (P : ℕ → Type 0) (m : State World → Run A F (State World))
    : Type 0 where
  pub at : (s : State World) → Change P s.kernel (state_of (m s)).kernel

Change-trans : (P : ℕ → Type 0) (a b c : ℕ) → Change P a b → Change P b c → Change P a c
Change-trans P a b c (inl p) (inl q) = inl (q ∙ p)
Change-trans P a b c (inl p) (inr (zero_b, filled)) = inr (sym p ∙ zero_b, filled)
Change-trans P a b c (inr (zero_a, filled)) (inl q) = inr (zero_a, subst P (sym q) filled)
Change-trans P a b c (inr (zero_a, filled)) (inr (zero_b, again)) = inr (zero_a, again)

-- The outcome is looked at, and the state is not.
state_of-run_attempt :
    {S A E : Type 0} (F : Type 0) (r : Run A E S) → state_of (run_attempt {F = F} r) ≡ state_of r
state_of-run_attempt F (returned a t) = refl
state_of-run_attempt F (failed e t) = refl
state_of-run_attempt F (panicked p t) = refl

state_of-run_map_failed :
    {S A E F : Type 0} (f : E → F) (r : Run A E S) → state_of (run_map_failed f r) ≡ state_of r
state_of-run_map_failed f (returned a t) = refl
state_of-run_map_failed f (failed e t) = refl
state_of-run_map_failed f (panicked p t) = refl

kernel-with_kernel :
    {World A : Type 0} (k : ℕ) (r : Run A IoError World) → (state_of (with_kernel k r)).kernel ≡ k
kernel-with_kernel k (returned a w) = refl
kernel-with_kernel k (failed e w) = refl
kernel-with_kernel k (panicked p w) = refl

module _ {World A E : Type 0} {P : ℕ → Type 0} where
  Settled-pure : (a : A) → Settled {World = World} {A = A} {F = E} P (pure a)
  Settled-pure a = record { at = λ s. inl refl }

  Settled-throw : (e : E) → Settled {World = World} {A = A} {F = E} P (throw e)
  Settled-throw e = record { at = λ s. inl refl }

  Settled-expect_some :
      (message : Text) (o : Option A)
      → Settled {World = World} {A = A} {F = E} P (expect_some message o)
  Settled-expect_some message none = record { at = λ s. inl refl }
  Settled-expect_some message (some a) = record { at = λ s. inl refl }

  Settled-attempt :
      {F : Type 0} (m : State World → Run A E (State World))
      → Settled P m
      → Settled {World = World} {A = Result A E} {F = F} P (attempt m)
  Settled-attempt {F} m km = record { at = λ s. rw (state_of-run_attempt F (m s)) (km.at s) }

  Settled-map_failed :
      {F : Type 0} (f : E → F) (m : State World → Run A E (State World))
      → Settled P m
      → Settled P (map_failed f m)
  Settled-map_failed f m km = record { at = λ s. rw (state_of-run_map_failed f (m s)) (km.at s) }

module _ {World A B E : Type 0} {P : ℕ → Type 0} where
  run_bind-Change :
      (k : ℕ) (r : Run A E (State World)) (f : A → State World → Run B E (State World))
      → Change P k (state_of r).kernel
      → ((a : A) → Settled P (f a))
      → Change P k (state_of (run_bind r f)).kernel
  run_bind-Change k (returned a u) f kr kf = Change-trans P _ _ _ kr ((kf a).at u)
  run_bind-Change k (failed e u) f kr kf = kr
  run_bind-Change k (panicked q u) f kr kf = kr

  Settled-bind :
      (m : State World → Run A E (State World)) (f : A → State World → Run B E (State World))
      → Settled P m
      → ((a : A) → Settled P (f a))
      → Settled P (m >>= f)
  Settled-bind m f km kf = record { at = λ s. run_bind-Change s.kernel (m s) f (km.at s) kf }

module _ {P : ℕ → Type 0} where
  -- No operation of the files touches the cache.
  Settled-on_world : {World A : Type 0} (op : World → Run A IoError World) → Settled P (on_world op)
  Settled-on_world op = record { at = λ s. inl (kernel-with_kernel s.kernel (op s.world)) }

-- It is a property that every way to build a run keeps, reading and writing.
pub Closed-Settled : (E : Env) (P : ℕ → Type 0) → Closed E (λ A F m. Settled P m)
Closed-Settled E P = record {
  pure_keeps = λ a. Settled-pure a;
  throw_keeps = λ e. Settled-throw e;
  attempt_keeps = λ m k. Settled-attempt m k;
  map_failed_keeps = λ f m k. Settled-map_failed f m k;
  bind_keeps = λ m k km kk. Settled-bind m k km kk;
  open_at = λ base path o r. Settled-on_world _;
  read_to_end = λ f. Settled-on_world _;
  read_to_string = λ f. Settled-on_world _;
  hybrid_read_to_string = λ f. Settled-on_world _;
  read_link_at = λ base path. Settled-on_world _;
  read_link = λ f. Settled-on_world _;
  hybrid_metadata = λ f. Settled-on_world _;
  hybrid_metadata_at = λ base path flags. Settled-on_world _;
  new_dir = λ std. Settled-on_world _;
  idle = λ message f. Settled-expect_some message _;
}

pub Settled-Writes : (E : Env) (P : ℕ → Type 0) → Writes E (λ A F m. Settled P m)
Settled-Writes E P = record {
  open_any = λ base path o. Settled-on_world _;
  write_all = λ f bytes. Settled-on_world _;
}
