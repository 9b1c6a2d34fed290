-- ===== src/Process/Reading/Alive.antt =====
-- When a process counts as alive.
use async_procfs.Prelude.{
  sym, Run, subst, Text, ◌≡◌, ◌≢◌, ◌↔◌, ℕ, true, false, Bool, ok, Run-cases, inl, inr, returned,
  failed, panicked, arith,
}
use async_procfs.Env.{Env}
use async_procfs.Machine.{State}
use async_procfs.Process.{Process}
use async_procfs.Process.Reading.{FromRead, stat, alive_state, is_alive}

module _ (E : Env) {T : Type 0} (from_read : FromRead E T) (state : T → ℕ) (p : Process E.File)
    (s : State E.World) where
  -- Alive, with the state that `stat` left.
  abbrev pub IsAlive : State E.World → Type 0
  IsAlive t = (v : T) × (stat E from_read p s ≡ returned v t) × (state v ≢ b'Z') × (state v ≢ b'X')

  is_alive_read :
      (v : T) (t : State E.World)
      → stat E from_read p s ≡ returned v t
      → is_alive E from_read state p s ≡ returned (alive_state E {F = E.ProcError} state (ok v)) t
  unfolding is_alive
  is_alive_read v t read = ground arith

  is_alive_unread :
      (e : E.ProcError) (t : State E.World)
      → stat E from_read p s ≡ failed e t
      → is_alive E from_read state p s ≡ returned false t
  unfolding is_alive
  is_alive_unread e t read = ground arith

  is_alive_panicked :
      (m : Text) (t : State E.World)
      → stat E from_read p s ≡ panicked m t
      → is_alive E from_read state p s ≡ panicked m t
  unfolding is_alive
  is_alive_panicked m t read = ground arith

  -- `is_alive` never fails.
  is_alive_no_error :
      (e : E.ProcError) (t : State E.World) → is_alive E from_read state p s ≢ failed e t
  is_alive_no_error e t h = elim (Run-cases (stat E from_read p s)) [
    | inl (v, u, r) ↦ ground (arith, is_alive_read v u r)
    | inr (inl (x, u, r)) ↦ ground (arith, is_alive_unread x u r)
    | inr (inr (m, u, r)) ↦ ground (arith, is_alive_panicked m u r)
  ]

  is_alive-IsAlive :
      (b : Bool) (t : State E.World)
      → is_alive E from_read state p s ≡ returned b t
      → b ≡ true
      → IsAlive t
  is_alive-IsAlive b t h said = elim (Run-cases (stat E from_read p s)) [
    | inl (v, u, r) ↦
        let answered = is_alive_read v u r in
        let same : u ≡ t = cc (answered, h) in
        let answer : alive_state E {F = E.ProcError} state (ok v) ≡ true = cc (answered, h, said) in
        (
          v,
          subst (λ (x : State E.World). stat E from_read p s ≡ returned v x) same r,
          (λ e. ground arith),
          (λ e. ground arith),
        )
    | inr (inl (x, u, r)) ↦ absurd (ground (arith, is_alive_unread x u r))
    | inr (inr (m, u, r)) ↦ absurd (ground (arith, is_alive_panicked m u r))
  ]

  alive_stated :
      (b : Bool) (t : State E.World)
      → is_alive E from_read state p s ≡ returned b t
      → IsAlive t
      → b ≡ true
  alive_stated b t h (v, r, z, x) = let answered = is_alive_read v t r in ground arith

  is_alive-panicked :
      (m : Text) (t : State E.World)
      → is_alive E from_read state p s ≡ panicked m t
      → stat E from_read p s ≡ panicked m t
  is_alive-panicked m t h = elim (Run-cases (stat E from_read p s)) [
    | inl (v, u, r) ↦ absurd (ground (arith, is_alive_read v u r))
    | inr (inl (x, u, r)) ↦ absurd (ground (arith, is_alive_unread x u r))
    | inr (inr (n, u, r)) ↦ cc (is_alive_panicked n u r, r, h)
  ]

  -- What `is_alive` may answer, given what `stat` did.
  abbrev pub IsAnswer : Run Bool E.ProcError (State E.World) → Type 0
  IsAnswer (returned b t) = (b ≡ true) ↔ IsAlive t
  IsAnswer (failed e t) = ⊥
  IsAnswer (panicked m t) = stat E from_read p s ≡ panicked m t

  -- `is_alive` never fails; where it answers, it answers yes exactly if the file `stat` was read and
  -- parsed and its state is neither `Z` nor `X`; and it panics only as reading that file does.
  pub is_alive_lem : IsAnswer (is_alive E from_read state p s)
  is_alive_lem = elim (Run-cases (is_alive E from_read state p s)) [
    | inl (b, t, h) ↦ subst IsAnswer (sym h) (is_alive-IsAlive b t h, alive_stated b t h)
    | inr (inl (e, t, h)) ↦ absurd (is_alive_no_error e t h)
    | inr (inr (m, t, h)) ↦ subst IsAnswer (sym h) (is_alive-panicked m t h)
  ]
