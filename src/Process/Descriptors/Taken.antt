-- ===== src/Process/Descriptors/Taken.antt =====
-- A reader of one of the streams that takes some items and stops, and what holds of all that it has.
use async_procfs.Prelude.{
  ℕ, zero, suc, ◌≡◌, ◌≤◌, ℤ, none, some, List, [], ◌∷◌, length, arith, Result, returned, pure,
  subst, run_bind-eq-returned,
}
use async_procfs.Env.{Env, IoError}
use async_procfs.Machine.{M, State}
use async_procfs.Process.Descriptors.Stream.{AllMade}
use async_procfs.Process.Descriptors.Count.{errors-AllMade}
use async_procfs.Process.Descriptors.Polled.{Entries, Items, Next, poll, take_more, take_items}
use async_procfs.Process.Descriptors.Reader.{Reads, started, polled, Tried, ended, kept, passed}

module _ (E : Env) {A : Type 0} (make : ℤ → M E A) where
  -- The items of some polls, as many as `count` at most.
  abbrev pub ReadsUpTo : ℕ → Entries → Items E make → Type 0
  ReadsUpTo count entries items =
      (left : Entries) × Reads E make entries items left × (length items ≤ count)

  none_taken :
      (count : ℕ) (entries : Entries) (items : Items E make)
      → [] ≡ items
      → ReadsUpTo count entries items
  none_taken count entries items nothing =
      subst (ReadsUpTo count entries) nothing (entries, started, omega arith)

  some_taken :
      (count : ℕ) (entries : Entries) (s t u : State E.World) (items : Items E make)
      → ((rest : Entries) (v : State E.World) (more : Items E make)
          → take_items E make count rest u ≡ returned more v
          → ReadsUpTo count rest more)
      → (next : Next E make) → poll E make entries s ≡ returned next u
      → take_more E make (take_items E make count) next u ≡ returned items t
      → ReadsUpTo (suc count) entries items
  some_taken count entries s t u items fewer none p q = none_taken (suc count) entries items (cc)
  some_taken count entries s t u items fewer (some (item, rest)) p q =
      let (more, v, m, e) =
        run_bind-eq-returned (take_items E make count rest u) (λ items. pure (item ∷ items)) q in
      let (left, reads, short) = fewer rest v more m in
      let same : item ∷ more ≡ items = cc in
      subst (ReadsUpTo (suc count) entries) same (left, polled s u p reads, omega arith)

  -- A reader that takes some items and stops has polled for each of them.
  pub take_items-Reads :
      (count : ℕ) (entries : Entries) (s t : State E.World) (items : Items E make)
      → take_items E make count entries s ≡ returned items t
      → ReadsUpTo count entries items
  unfolding take_items
  take_items-Reads zero entries s t items h = none_taken 0 entries items (cc)
  take_items-Reads (suc count) entries s t items h =
      let (next, u, p, q) =
        run_bind-eq-returned (poll E make entries s) (take_more E make (take_items E make count))
          h in
      some_taken count entries s t u items (λ rest v more m. take_items-Reads count rest u v more m)
        next p q

-- What holds of everything that can be made holds of the items that a reader has.
module _ (E : Env) {A : Type 0} (make : ℤ → M E A) (P : A → Type 0)
    (made : (id : ℤ) (s t : State E.World) (a : A) → make id s ≡ returned a t → P a) where
  pub AllMade-Tried :
      (errs : List IoError) {known : List ℤ} {items : List (Result A E.ProcError)}
      → Tried E make errs known items
      → AllMade P items
  AllMade-Tried errs ended = errors-AllMade E make P made errs
  AllMade-Tried errs (kept s t h tried) = (made _ s t _ h, AllMade-Tried errs tried)
  AllMade-Tried errs (passed e s t h tried) = AllMade-Tried errs tried
