-- ===== src/Process/Descriptors/Yielded.antt =====
-- What the streams of descriptors, tasks and processes yield, as a relation that says which entries
-- were made, in which states.
use async_procfs.Prelude.{
  ◌≡◌, ℤ, Option, none, some, List, [], ◌∷◌, map, subst, Bytes, arith, Result, ok, err, returned,
  failed, Run-cases, inl, inr, run_bind-eq-returned, pure,
}
use async_procfs.Env.{Env, IoError}
use async_procfs.Machine.{M, State}
use async_procfs.Process.{parse_id}
use async_procfs.Process.Descriptors.{numbered_entries, with_entry}
use async_procfs.Process.Descriptors.Stream.{with_id, ids, first_error}

module _ (E : Env) {A : Type 0} (make : ℤ → M E A) where
  abbrev Items : Type 0
  Items = List (Result A E.ProcError)

  -- From a state, for some numbers and the directory's error, if any: the items and the last state.
  pub data Yields (errors : List IoError)
      : List ℤ → State E.World → Items → State E.World → Type 0 where
    ended : {s : State E.World} → Yields errors [] s (map (λ e. err (E.from_io e)) errors) s
    kept :
        {id : ℤ} {known : List ℤ} {a : A} {items : Items} {s t u : State E.World}
        → make id s ≡ returned a t
        → Yields errors known t items u
        → Yields errors (id ∷ known) s (ok a ∷ items) u
    passed :
        {id : ℤ} {known : List ℤ} {e : E.ProcError} {items : Items} {s t u : State E.World}
        → make id s ≡ failed e t
        → Yields errors known t items u
        → Yields errors (id ∷ known) s items u

  with_entry-Yields :
      (id : Option ℤ) (rest : M E Items) (known : List ℤ) (errors : List IoError)
      → ((s t : State E.World) (items : Items)
          → rest s ≡ returned items t
          → Yields errors known s items t)
      → (s t : State E.World) (items : Items) → with_entry E make id rest s ≡ returned items t
      → Yields errors (with_id id known) s items t
  with_entry-Yields none rest known errors good s t items h = good s t items h
  with_entry-Yields (some id) rest known errors good s t items h = elim (Run-cases (make id s)) [
    | inl (a, u, e) ↦
        let (more, w, p, q) =
          run_bind-eq-returned (rest u) (λ items. pure (ok a ∷ items)) (rw e at h) in
        let same : ok a ∷ more ≡ items = cc in
        let last : w ≡ t = cc in
        subst (λ (x : Items). Yields errors (id ∷ known) s x t) same
          (subst (λ (v : State E.World). Yields errors (id ∷ known) s (ok a ∷ more) v) last
            (kept e (good u w more p)))
    | inr (inl (f, u, e)) ↦
        let (more, w, p, q) = run_bind-eq-returned (rest u) (λ items. pure items) (rw e at h) in
        let same : more ≡ items = cc in
        let last : w ≡ t = cc in
        subst (λ (x : Items). Yields errors (id ∷ known) s x t) same
          (subst (λ (v : State E.World). Yields errors (id ∷ known) s more v) last
            (passed e (good u w more p)))
    | inr (inr (m, u, e)) ↦ absurd (ground arith)
  ]

  -- A stream that came to its end has opened, in the order of the directory and each in the state that
  -- the one before left, the entries whose names are numbers, up to the directory's first error; it has
  -- yielded those that could be made, and at last that error.
  pub numbered_entries-Yields :
      (entries : List (Result Bytes IoError)) (s t : State E.World) (items : Items)
      → numbered_entries E make entries s ≡ returned items t
      → Yields (first_error entries) (ids entries) s items t
  unfolding numbered_entries
  numbered_entries-Yields [] s t items h =
      let same : [] ≡ items = cc in
      let last : s ≡ t = cc in
      subst (λ (x : Items). Yields [] [] s x t) same
        (subst (λ (v : State E.World). Yields [] [] s [] v) last ended)
  numbered_entries-Yields (err e ∷ entries) s t items h =
      let same : err (E.from_io e) ∷ [] ≡ items = cc in
      let last : s ≡ t = cc in
      subst (λ (x : Items). Yields (e ∷ []) [] s x t) same
        (subst (λ (v : State E.World). Yields (e ∷ []) [] s (err (E.from_io e) ∷ []) v) last ended)
  numbered_entries-Yields (ok name ∷ entries) s t items h =
      with_entry-Yields (parse_id name) (numbered_entries E make entries) (ids entries)
        (first_error entries) (numbered_entries-Yields entries) s t items h
