-- ===== src/Runtime.antt =====
-- src/runtime.rs: `execute_future_from_sync`, which runs a future to its end from code that is not
-- asynchronous. What tokio and the threads of the library provide are the surroundings.
use async_procfs.Prelude.{
  Option, none, some, ◌++◌, Text, codes, Result, ok, err, Run, returned, failed, panicked, ◌≡◌, ◌≢◌,
  ◌⊎◌, inl, inr, Run-cases, refl,
}

-- `RuntimeFlavor`, which is open to further flavors, each with its `Debug` text.
pub data RuntimeFlavor : Type 0 where
  current_thread multi_thread : RuntimeFlavor
  other_flavor : Text → RuntimeFlavor

-- For futures that give an `A`: `Handle::try_current().ok()` as the flavor of its runtime; what
-- `Builder::build` gives, an error with its `Debug` text; what `block_in_place` makes of a closure, and
-- `block_on` of a future in the caller's thread and in a thread of its own; and the `Debug` text of what a
-- panic leaves for `join`.
pub record Surroundings (A F S : Type 0) : Type 0 where
  pub handle : Option RuntimeFlavor
  pub build : Result (Unit {0}) Text
  pub block_in_place : (S → Run A F S) → S → Run A F S
  pub block_on : (S → Run A F S) → S → Run A F S
  pub block_on_in_thread : (S → Run A F S) → S → Run A F S
  pub debug_panic : Text → Text

module _ {A F S : Type 0} (r : Surroundings A F S) where
  -- `build().expect(…)`, then what is done with the runtime.
  abbrev with_backup : (S → Run A F S) → S → Run A F S
  with_backup then s = elim r.build [
    | ok _ ↦ then s
    | err e ↦ panicked (codes "failed to create backup runtime: " ++ e) s
  ]

  -- `join().expect(…)`: a panic in the thread is one of the caller, with another message.
  abbrev joined : Run A F S → Run A F S
  joined (returned a s) = returned a s
  joined (failed e s) = failed e s
  joined (panicked p s) =
      panicked (codes "failed to join backup runtime thread: " ++ r.debug_panic p) s

  abbrev by_flavor : Option RuntimeFlavor → (S → Run A F S) → S → Run A F S
  by_flavor (some current_thread) future s = joined (with_backup (r.block_on_in_thread future) s)
  by_flavor (some multi_thread) future s = r.block_in_place (r.block_on future) s
  by_flavor (some (other_flavor name)) future s =
      panicked
        (codes "internal error: entered unreachable code: Unsupported runtime flavor: " ++ name) s
  by_flavor none future s = with_backup (r.block_in_place (r.block_on future)) s

  unfoldable pub execute_future_from_sync : (S → Run A F S) → S → Run A F S
  execute_future_from_sync future s = by_flavor r.handle future s

-- What the documents of tokio say of blocking on a future: inside `block_in_place`, `block_on` runs it to its
-- end, unless the caller is on a runtime of one thread, where `block_in_place` panics; and so does
-- `block_on` in a thread of its own. For the latter the future must not wait for what the blocked runtime
-- drives.
pub record Blocks {A F S : Type 0} (r : Surroundings A F S) (future : S → Run A F S) : Type 0 where
  pub in_place :
      r.handle ≢ some current_thread → (s : S) → r.block_in_place (r.block_on future) s ≡ future s
  pub in_thread : (s : S) → r.block_on_in_thread future s ≡ future s

module _ {A F S : Type 0} (r : Surroundings A F S) (future : S → Run A F S)
    (blocks : Blocks r future) where
  by_flavor-future :
      (handle : Option RuntimeFlavor) (s : S)
      → r.handle ≡ handle
      → ((name : Text) → handle ≢ some (other_flavor name))
      → (r.build ≡ ok tt) ⊎ (handle ≡ some multi_thread)
      → ((p : Text) (t : S) → future s ≢ panicked p t)
      → by_flavor r handle future s ≡ future s
  by_flavor-future (some current_thread) s at known (inl built) calm =
      rw (built, blocks.in_thread s)
        (elim (Run-cases (future s)) [
          | inl (a, t, e) ↦ rw e refl
          | inr (inl (x, t, e)) ↦ rw e refl
          | inr (inr (p, t, e)) ↦ absurd (calm p t e)
        ])
  by_flavor-future (some current_thread) s at known (inr multi) calm = absurd (cc)
  by_flavor-future (some multi_thread) s at known built calm = blocks.in_place (λ e. cc) s
  by_flavor-future (some (other_flavor name)) s at known built calm = absurd (known name refl)
  by_flavor-future none s at known (inl built) calm = rw built (blocks.in_place (λ e. cc) s)
  by_flavor-future none s at known (inr multi) calm = absurd (cc)

  -- Where a runtime can be built, or the caller is on a multi-threaded one, and not on one of an
  -- unknown flavor, a future that does not panic is run once and its outcome and state are passed on.
  pub execute_future_lem :
      (s : S)
      → ((name : Text) → r.handle ≢ some (other_flavor name))
      → (r.build ≡ ok tt) ⊎ (r.handle ≡ some multi_thread)
      → ((p : Text) (t : S) → future s ≢ panicked p t)
      → execute_future_from_sync r future s ≡ future s
  unfolding execute_future_from_sync
  execute_future_lem s known built calm = by_flavor-future r.handle s refl known built calm
