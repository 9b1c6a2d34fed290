-- ===== src/Process/Descriptors/Reader.antt =====
-- A reader of one of the streams that polls when it likes: between two polls it, and whoever else uses
-- the files, may do anything to the state, and it may stop before the stream ends.
use mathlib.Core.List.{append-eq-nil_iff}
use async_procfs.Prelude.{
  ◌≡◌, ◌++◌, refl, ap, sym, ℤ, none, some, List, [], ◌∷◌, map, Bytes, arith, Result, ok, err,
  returned, failed, Run-cases, Option-cases, inl, inr, subst,
}
use async_procfs.Env.{Env, IoError}
use async_procfs.Machine.{M, State}
use async_procfs.Process.{parse_id}
use async_procfs.Process.Descriptors.Stream.{ids, first_error}
use async_procfs.Process.Descriptors.Polled.{Entries, poll, poll_entry}

module _ (E : Env) {A : Type 0} (make : ℤ → M E A) where
  abbrev Items : Type 0
  Items = List (Result A E.ProcError)

  -- The polls of a stream that gave an item, with the entries that are left. A poll may find any state.
  pub data Reads : Entries → Items → Entries → Type 0 where
    started : {entries : Entries} → Reads entries [] entries
    polled :
        {entries rest left : Entries} {item : Result A E.ProcError} {items : Items}
        (s t : State E.World)
        → poll E make entries s ≡ returned (some (item, rest)) t
        → Reads rest items left
        → Reads entries (item ∷ items) left

  -- Numbers that were tried one after the other, and errors of the directory that came last: each
  -- number that could be made, in the state of its poll, is an item.
  pub data Tried (errors : List IoError) : List ℤ → Items → Type 0 where
    ended : Tried errors [] (map (λ e. err (E.from_io e)) errors)
    kept :
        {id : ℤ} {known : List ℤ} {a : A} {items : Items} (s t : State E.World)
        → make id s ≡ returned a t
        → Tried errors known items
        → Tried errors (id ∷ known) (ok a ∷ items)
    passed :
        {id : ℤ} {known : List ℤ} {items : Items} (e : E.ProcError) (s t : State E.World)
        → make id s ≡ failed e t
        → Tried errors known items
        → Tried errors (id ∷ known) items

  -- What was tried and what is left are together the directory.
  pub record Account (entries : Entries) (items : Items) (left : Entries) : Type 0 where
    pub known : List ℤ
    pub errors : List IoError
    pub ids_split : ids entries ≡ known ++ ids left
    pub errors_split : first_error entries ≡ errors ++ first_error left
    pub tried : Tried errors known items

  none-Tried :
      {errors : List IoError} {known : List ℤ} {items : Items}
      → Tried errors known items
      → known ≡ []
      → items ≡ map (λ e. err (E.from_io e)) errors
  none-Tried ended h = refl
  none-Tried (kept s t e tried) h = absurd (cc)
  none-Tried (passed f s t e tried) h = absurd (cc)

  -- At the directory's error nothing is left, so the reader has nothing more.
  Account-error :
      (e : IoError) (entries left : Entries) (items : Items)
      → Account [] items left
      → Account (err e ∷ entries) (err (E.from_io e) ∷ items) left
  Account-error e entries left items a =
      let (no_known, none_left) =
        (append-eq-nil_iff {p = a.known} {q = ids left}).0 (sym a.ids_split) in
      let (no_errors, no_more) =
        (append-eq-nil_iff {p = a.errors} {q = first_error left}).0 (sym a.errors_split) in
      let nothing : items ≡ [] = rw no_errors at (none-Tried a.tried no_known) in
      record {
        known = [];
        errors = e ∷ [];
        ids_split = sym none_left;
        errors_split = rw no_more refl;
        tried = rw nothing ended;
      }

  -- One more number was tried.
  Account-Tried :
      (name : Bytes) (id : ℤ) (entries left : Entries) (items more : Items)
      (c : Account entries items left)
      → parse_id name ≡ some id
      → Tried c.errors (id ∷ c.known) more
      → Account (ok name ∷ entries) more left
  Account-Tried name id entries left items more c e tried = record {
    known = id ∷ c.known;
    errors = c.errors;
    ids_split = rw e (ap (◌∷◌ id) c.ids_split);
    errors_split = c.errors_split;
    tried = tried;
  }

  Account-other :
      (name : Bytes) (entries left : Entries) (items : Items)
      → Account entries items left
      → parse_id name ≡ none
      → Account (ok name ∷ entries) items left
  Account-other name entries left items c e = record {
    known = c.known;
    errors = c.errors;
    ids_split = rw e c.ids_split;
    errors_split = c.errors_split;
    tried = c.tried;
  }

  Account-made :
      (name : Bytes) (id : ℤ) (entries rest left : Entries) (item : Result A E.ProcError)
      (items : Items) (s t : State E.World)
      → parse_id name ≡ some id
      → poll_entry E make (some id) entries (poll E make entries) s ≡ returned (some (item, rest)) t
      → Account rest items left
      → ((u : State E.World)
          → poll E make entries u ≡ returned (some (item, rest)) t
          → Account rest items left
          → Account entries (item ∷ items) left)
      → Account (ok name ∷ entries) (item ∷ items) left
  Account-made name id entries rest left item items s t e h c later = elim (Run-cases (make id s)) [
    | inl (a, u, m) ↦
        let offered = rw m at h in
        let given : ok a ≡ item = cc in
        let same : entries ≡ rest = cc in
        let after = subst (λ (x : Entries). Account x items left) (sym same) c in
        subst (λ (x : Result A E.ProcError). Account (ok name ∷ entries) (x ∷ items) left) given
          (Account-Tried name id entries left items (ok a ∷ items) after e (kept s u m after.tried))
    | inr (inl (f, u, m)) ↦
        let after = later u (rw m at h) c in
        Account-Tried name id entries left (item ∷ items) (item ∷ items) after e
          (passed f s u m after.tried)
    | inr (inr (p, u, m)) ↦ absurd (ground arith)
  ]

  -- One poll: what it gives is accounted for by the entries that it took.
  Account-poll :
      (entries rest left : Entries) (item : Result A E.ProcError) (items : Items)
      (s t : State E.World)
      → poll E make entries s ≡ returned (some (item, rest)) t
      → Account rest items left
      → Account entries (item ∷ items) left
  unfolding poll
  Account-poll [] rest left item items s t h c = absurd (cc)
  Account-poll (err e ∷ entries) rest left item items s t h c =
      let given : err (E.from_io e) ≡ item = cc in
      let nothing : [] ≡ rest = cc in
      subst (λ (x : Result A E.ProcError). Account (err e ∷ entries) (x ∷ items) left) given
        (Account-error e entries left items
          (subst (λ (x : Entries). Account x items left) (sym nothing) c))
  Account-poll (ok name ∷ entries) rest left item items s t h c =
      elim (Option-cases (parse_id name)) [
        | inl e ↦
            Account-other name entries left (item ∷ items)
              (Account-poll entries rest left item items s t (rw e at h) c) e
        | inr (id, e) ↦
            Account-made name id entries rest left item items s t e (rw e at h) c
              (λ u. Account-poll entries rest left item items u t)
      ]

  -- Whatever was done to the state between the polls, the items that a reader has so far come from the
  -- numbers among the names that the stream has passed, tried in the order of the directory: the items
  -- are what could be made, each in the state of its poll, and last the directory's error, if the
  -- stream has passed it. What the stream has passed and what is left for later polls are together
  -- all numbers of the directory up to its first error, and that error.
  pub Reads-Account :
      {entries left : Entries} {items : Items}
      → Reads entries items left
      → Account entries items left
  Reads-Account started = record {
    known = [];
    errors = [];
    ids_split = refl;
    errors_split = refl;
    tried = ended;
  }
  Reads-Account (polled s t h reads) = Account-poll _ _ _ _ _ s t h (Reads-Account reads)
