-- ===== src/Process/Descriptors/Polled.antt =====
-- The `stream!` blocks of `fds`, `tasks` and `all_processes` as a reader polls them: what a poll gives,
-- and what it leaves of the directory.
use async_procfs.Prelude.{
  ℕ, zero, suc, ◌≡◌, ◌<◌, refl, ℤ, Option, none, some, List, [], ◌∷◌, Bytes, length, arith, Result,
  ok, err, Run, returned, failed, panicked, Run-cases, inl, inr, ◌>>=◌, run_bind, pure, attempt,
}
use async_procfs.Env.{Env, IoError}
use async_procfs.Machine.{M, State}
use async_procfs.Process.{parse_id}
use async_procfs.Process.Descriptors.{numbered_entries, with_entry}

abbrev pub Entries : Type 0
Entries = List (Result Bytes IoError)

module _ (E : Env) {A : Type 0} (make : ℤ → M E A) where
  abbrev pub Items : Type 0
  Items = List (Result A E.ProcError)

  -- The end of the stream, or an item and the entries that were not looked at.
  abbrev pub Next : Type 0
  Next = Option (Result A E.ProcError × Entries)

  abbrev pub offer : Result A E.ProcError → Entries → M E Next → M E Next
  offer (ok a) entries rest = pure (some (ok a, entries))
  offer (err e) entries rest = rest

  abbrev pub poll_entry : Option ℤ → Entries → M E Next → M E Next
  poll_entry none entries rest = rest
  poll_entry (some id) entries rest = do made ← attempt (make id); offer made entries rest

  -- The block runs from one `yield` to the next. The `?` on an entry yields its error and ends it.
  unfoldable pub poll : Entries → M E Next
  poll [] = pure none
  poll (err e ∷ entries) = pure (some (err (E.from_io e), []))
  poll (ok name ∷ entries) = poll_entry (parse_id name) entries (poll entries)

  abbrev pub take_more : (Entries → M E Items) → Next → M E Items
  take_more rest none = pure []
  take_more rest (some (item, entries)) = do items ← rest entries; pure (item ∷ items)

  -- A reader that polls until the stream ends, and `count` times at most.
  unfoldable pub take_items : ℕ → Entries → M E Items
  take_items zero entries = pure []
  take_items (suc count) entries = do next ← poll entries; take_more (take_items count) next

  run_bind-pure : {B : Type 0} (r : Run B E.ProcError (State E.World)) → run_bind r pure ≡ r
  run_bind-pure (returned a t) = refl
  run_bind-pure (failed e t) = refl
  run_bind-pure (panicked p t) = refl

  take_entry :
      (id : Option ℤ) (count : ℕ) (entries : Entries)
      → ((s : State E.World)
          → run_bind (poll entries s) (take_more (take_items count))
            ≡ numbered_entries E make entries s)
      → ((n : ℤ)
          → id ≡ some n
          → (s : State E.World) → take_items count entries s ≡ numbered_entries E make entries s)
      → (s : State E.World)
      → run_bind (poll_entry id entries (poll entries) s) (take_more (take_items count))
        ≡ with_entry E make id (numbered_entries E make entries) s
  take_entry none count entries same fewer s = same s
  take_entry (some n) count entries same fewer s = elim (Run-cases (make n s)) [
    | inl (a, u, e) ↦ rw e (rw (fewer n refl u) refl)
    | inr (inl (f, u, e)) ↦ rw e (rw (same u) (rw run_bind-pure refl))
    | inr (inr (p, u, e)) ↦ rw e refl
  ]

  -- Polled often enough, the stream gives what it yields when it is run to its end.
  pub take_items-eq :
      (count : ℕ) (entries : Entries) (s : State E.World)
      → length entries < count
      → take_items count entries s ≡ numbered_entries E make entries s
  unfolding take_items poll numbered_entries
  take_items-eq zero entries s h = absurd (omega arith)
  take_items-eq (suc count) [] s h = refl
  take_items-eq (suc zero) (err e ∷ entries) s h = absurd (omega arith)
  take_items-eq (suc (suc count)) (err e ∷ entries) s h = refl
  take_items-eq (suc count) (ok name ∷ entries) s h =
      take_entry (parse_id name) count entries
        (λ t. take_items-eq (suc count) entries t (omega arith))
        (λ n e t. take_items-eq count entries t (omega arith)) s
