-- ===== src/Process/Descriptors/Stream.antt =====
-- What the streams of descriptors, tasks and processes yield.
use async_procfs.Prelude.{
  suc, ◌≡◌, refl, ap, inl, inr, ℤ, Option, none, some, List, [], ◌∷◌, map, subst, Bytes, length,
  arith, ok_of, Result, ok, err, returned, Run-cases, run_bind-eq-returned, pure,
}
use async_procfs.Std.Ints.{parse_int}
use async_procfs.Std.Ints.RoundTrip.{InRange}
use async_procfs.Std.Ints.Bounds.{parse_int_bound}
use async_procfs.Std.Utf8.{to_string_lossy}
use async_procfs.Env.{Env, IoError}
use async_procfs.Machine.{M, State}
use async_procfs.Process.{parse_id}
use async_procfs.Process.Descriptors.{numbered_entries, with_entry}

-- The names that are numbers, in front of the first error of the directory.
abbrev pub with_id : Option ℤ → List ℤ → List ℤ
with_id none ids = ids
with_id (some id) ids = id ∷ ids

abbrev pub ids : List (Result Bytes IoError) → List ℤ
ids [] = []
ids (err e ∷ entries) = []
ids (ok name ∷ entries) = with_id (parse_id name) (ids entries)

-- The numbers of the items that were made.
abbrev pub keys {ℓ} : {A F : Type ℓ} → (A → ℤ) → List (Result A F) → List ℤ
keys key [] = []
keys key (ok a ∷ items) = key a ∷ keys key items
keys key (err e ∷ items) = keys key items

-- Every item that was made.
abbrev pub AllMade {ℓ} : {A F : Type ℓ} → (A → Type 0) → List (Result A F) → Type 0
AllMade P [] = Unit
AllMade P (ok a ∷ items) = P a × AllMade P items
AllMade P (err e ∷ items) = AllMade P items

-- `xs` is `ys` with some elements left out.
pub data Within {ℓ} {A : Type ℓ} : List A → List A → Type ℓ where
  nil : Within [] []
  keep : {a : A} {xs ys : List A} → Within xs ys → Within (a ∷ xs) (a ∷ ys)
  skip : {a : A} {xs ys : List A} → Within xs ys → Within xs (a ∷ ys)

-- The errors that the items hold are those of the directory: the first one alone.
abbrev pub errors {ℓ} : {A F : Type ℓ} → List (Result A F) → List F
errors [] = []
errors (ok a ∷ items) = errors items
errors (err e ∷ items) = e ∷ errors items

abbrev pub first_error : List (Result Bytes IoError) → List IoError
first_error [] = []
first_error (err e ∷ entries) = e ∷ []
first_error (ok name ∷ entries) = first_error entries

-- A name that is read as a number is a number of 32 bits.
ok_of-eq-some : {A F : Type 0} (r : Result A F) (a : A) → ok_of r ≡ some a → r ≡ ok a
ok_of-eq-some (ok b) a h = cc
ok_of-eq-some (err e) a h = cc

pub parse_id_fits : (name : Bytes) (n : ℤ) → parse_id name ≡ some n → InRange 32 n
unfolding parse_id
parse_id_fits name n h =
    parse_int_bound 32 (to_string_lossy name)
      (ok_of-eq-some (parse_int 32 (to_string_lossy name)) n h)

module _ (E : Env) {A : Type 0} (make : ℤ → M E A) (key : A → ℤ)
    (named : (id : ℤ) (s t : State E.World) (a : A)
      → InRange 32 id
      → make id s ≡ returned a t
      → key a ≡ id) where
  abbrev Items : Type 0
  Items = List (Result A E.ProcError)

  abbrev Good : List ℤ → List E.ProcError → Items → Type 0
  Good known errs items = Within (keys key items) known × (errors items ≡ errs)

  with_entry-Good :
      (id : Option ℤ) (rest : M E Items) (known : List ℤ) (errs : List E.ProcError)
      → ((n : ℤ) → id ≡ some n → InRange 32 n)
      → ((s t : State E.World) (items : Items) → rest s ≡ returned items t → Good known errs items)
      → (s t : State E.World) (items : Items) → with_entry E make id rest s ≡ returned items t
      → Good (with_id id known) errs items
  with_entry-Good none rest known errs fits good s t items h = good s t items h
  with_entry-Good (some id) rest known errs fits good s t items h = elim (Run-cases (make id s)) [
    | inl (a, u, e) ↦
        let (more, w, p, q) =
          run_bind-eq-returned (rest u) (λ items. pure (ok a ∷ items)) (rw e at h) in
        let good_more = good u w more p in
        let same : ok a ∷ more ≡ items = cc in
        subst (Good (id ∷ known) errs) same
          (rw (named id s u a (fits id refl) e) (keep good_more.0), good_more.1)
    | inr (inl (f, u, e)) ↦
        let (more, w, p, q) = run_bind-eq-returned (rest u) (λ items. pure items) (rw e at h) in
        let good_more = good u w more p in
        let same : more ≡ items = cc in
        subst (Good (id ∷ known) errs) same (skip good_more.0, good_more.1)
    | inr (inr (m, u, e)) ↦ absurd (ground arith)
  ]

  -- A stream that came to its end has yielded, in the order of the directory, one item for each name
  -- that is a number and whose entry could be made, and at last the directory's first error, if any.
  pub numbered_entries-Within :
      (entries : List (Result Bytes IoError)) (s t : State E.World)
      (items : List (Result A E.ProcError))
      → numbered_entries E make entries s ≡ returned items t
      → Within (keys key items) (ids entries) × (errors items ≡ map E.from_io (first_error entries))
  unfolding numbered_entries
  numbered_entries-Within [] s t items h =
      let same : [] ≡ items = cc in subst (Good [] []) same (nil, refl)
  numbered_entries-Within (err e ∷ entries) s t items h =
      let same : err (E.from_io e) ∷ [] ≡ items = cc in
      subst (Good [] (E.from_io e ∷ [])) same (nil, refl)
  numbered_entries-Within (ok name ∷ entries) s t items h =
      with_entry-Good (parse_id name) (numbered_entries E make entries) (ids entries)
        (map E.from_io (first_error entries)) (λ n e. parse_id_fits name n e)
        (numbered_entries-Within entries) s t items h

-- Where every entry can be made, in any state, and the directory gives no error, the stream yields an
-- item for every name that is a number, and nothing else.
module _ (E : Env) {A : Type 0} (make : ℤ → M E A) (key : A → ℤ)
    (made : (id : ℤ) (s : State E.World)
      → (a : A) × (t : State E.World) × (make id s ≡ returned a t) × (key a ≡ id)) where
  with_entry_complete :
      (id : Option ℤ) (rest : M E (List (Result A E.ProcError))) (known : List ℤ)
      → ((s : State E.World)
          → (items : List (Result A E.ProcError)) × (t : State E.World) × (rest s
              ≡ returned items t)
            × (keys key items ≡ known)
            × (length items ≡ length known))
      → (s : State E.World)
      → (items : List (Result A E.ProcError)) × (t : State E.World) × (with_entry E make id rest s
          ≡ returned items t)
        × (keys key items ≡ with_id id known)
        × (length items ≡ length (with_id id known))
  with_entry_complete none rest known all s = all s
  with_entry_complete (some id) rest known all s =
      let (a, u, e, k) = made id s in
      let (items, t, p, q, n) = all u in (ok a ∷ items, t, rw e (rw p), rw (k, q), ap suc n)

  pub numbered_entries_complete :
      (entries : List (Result Bytes IoError)) (s : State E.World)
      → first_error entries ≡ []
      → (items : List (Result A E.ProcError)) × (t : State E.World) × (numbered_entries E make
            entries s
          ≡ returned items t)
        × (keys key items ≡ ids entries)
        × (length items ≡ length (ids entries))
  unfolding numbered_entries
  numbered_entries_complete [] s h = ([], s, refl, refl, refl)
  numbered_entries_complete (err e ∷ entries) s h = cc
  numbered_entries_complete (ok name ∷ entries) s h =
      with_entry_complete (parse_id name) (numbered_entries E make entries) (ids entries)
        (λ t. numbered_entries_complete entries t h) s
