-- ===== src/Machine/Alike.antt =====
-- Two runs that differ in the errors that they fail with and in nothing else: from each state both
-- return one value, or both fail, or both panic with one message, and leave one state behind. One rule
-- for each way to build a run.
use async_procfs.Prelude.{
  ◌≡◌, refl, Bool, true, false, FilePath, Result, ok, err, ok_of, Run, returned, failed, panicked,
  run_bind, run_attempt, run_map_failed, map_run, ◌>>=◌, of_result, attempt, map_failed,
  if◌then◌else◌, arith,
}
use async_procfs.Env.{Env, IoError}
use async_procfs.Procfs.{try_wrapped, wrap_error}

-- The outcome without the error.
abbrev pub forget : {A F S : Type 0} → Run A F S → Run A (Unit {0}) S
forget (returned a t) = returned a t
forget (failed e t) = failed tt t
forget (panicked p t) = panicked p t

pub record Alike {S A F G : Type 0} (m : S → Run A F S) (n : S → Run A G S) : Type 0 where
  pub at : (s : S) → forget (m s) ≡ forget (n s)

module _ {S A F : Type 0} where
  pub Alike-refl : (m : S → Run A F S) → Alike m m
  Alike-refl m = record { at = λ s. refl }

  pub Alike-of_result :
      (r q : Result A F) → ok_of r ≡ ok_of q → Alike {S = S} (of_result r) (of_result q)
  Alike-of_result (ok a) (ok b) h = record { at = λ s. ground arith }
  Alike-of_result (ok a) (err f) h = absurd (cc)
  Alike-of_result (err e) (ok b) h = absurd (cc)
  Alike-of_result (err e) (err f) h = record { at = λ s. refl }

  pub Alike-if :
      (b : Bool) (m n k l : S → Run A F S)
      → Alike m k
      → Alike n l
      → Alike (if b then m else n) (if b then k else l)
  Alike-if true m n k l h i = h
  Alike-if false m n k l h i = i

forget-run_map_failed :
    {S A F G : Type 0} (f : F → G) (r : Run A F S) → forget (run_map_failed f r) ≡ forget r
forget-run_map_failed f (returned a t) = refl
forget-run_map_failed f (failed e t) = refl
forget-run_map_failed f (panicked p t) = refl

pub Alike-map_failed :
    {S A F G H I : Type 0} (f : F → H) (g : G → I) (m : S → Run A F S) (n : S → Run A G S)
    → Alike m n
    → Alike (map_failed f m) (map_failed g n)
Alike-map_failed f g m n h = record {
  at = λ s. rw (forget-run_map_failed f (m s), forget-run_map_failed g (n s)) (h.at s);
}

module _ {S A B F : Type 0} where
  forget-run_bind :
      (q r : Run A F S) (k l : A → S → Run B F S)
      → forget q ≡ forget r
      → ((a : A) → Alike (k a) (l a))
      → forget (run_bind q k) ≡ forget (run_bind r l)
  forget-run_bind (returned a t) (returned b u) k l h alike =
      let same : a ≡ b = cc in let left : t ≡ u = cc in rw (same, left) ((alike b).at u)
  forget-run_bind (failed e t) (failed f u) k l h alike = ground arith
  forget-run_bind (panicked p t) (panicked q u) k l h alike = ground arith
  forget-run_bind (returned a t) (failed f u) k l h alike = absurd (cc)
  forget-run_bind (returned a t) (panicked q u) k l h alike = absurd (cc)
  forget-run_bind (failed e t) (returned b u) k l h alike = absurd (cc)
  forget-run_bind (failed e t) (panicked q u) k l h alike = absurd (cc)
  forget-run_bind (panicked p t) (returned b u) k l h alike = absurd (cc)
  forget-run_bind (panicked p t) (failed f u) k l h alike = absurd (cc)

  pub Alike-bind :
      (m n : S → Run A F S) (k l : A → S → Run B F S)
      → Alike m n
      → ((a : A) → Alike (k a) (l a))
      → Alike (m >>= k) (n >>= l)
  Alike-bind m n k l h alike = record { at = λ s. forget-run_bind (m s) (n s) k l (h.at s) alike }

  pub Alike-map_run :
      (f : A → B) (m n : S → Run A F S) → Alike m n → Alike (map_run f m) (map_run f n)
  Alike-map_run f m n h = Alike-bind m n _ _ h λ a. Alike-refl _

  -- What follows a `match` on an outcome must not tell one error from another.
  forget-run_attempt :
      (q r : Run A F S) (k l : Result A F → S → Run B F S)
      → forget q ≡ forget r
      → ((a : A) → Alike (k (ok a)) (l (ok a)))
      → ((e f : F) → Alike (k (err e)) (l (err f)))
      → forget (run_bind (run_attempt q) k) ≡ forget (run_bind (run_attempt r) l)
  forget-run_attempt (returned a t) (returned b u) k l h good bad =
      let same : a ≡ b = cc in let left : t ≡ u = cc in rw (same, left) ((good b).at u)
  forget-run_attempt (failed e t) (failed f u) k l h good bad =
      let left : t ≡ u = cc in rw left ((bad e f).at u)
  forget-run_attempt (panicked p t) (panicked q u) k l h good bad = ground arith
  forget-run_attempt (returned a t) (failed f u) k l h good bad = absurd (cc)
  forget-run_attempt (returned a t) (panicked q u) k l h good bad = absurd (cc)
  forget-run_attempt (failed e t) (returned b u) k l h good bad = absurd (cc)
  forget-run_attempt (failed e t) (panicked q u) k l h good bad = absurd (cc)
  forget-run_attempt (panicked p t) (returned b u) k l h good bad = absurd (cc)
  forget-run_attempt (panicked p t) (failed f u) k l h good bad = absurd (cc)

  pub Alike-attempt :
      (m n : S → Run A F S) (k l : Result A F → S → Run B F S)
      → Alike m n
      → ((a : A) → Alike (k (ok a)) (l (ok a)))
      → ((e f : F) → Alike (k (err e)) (l (err f)))
      → Alike (attempt m >>= k) (attempt n >>= l)
  Alike-attempt m n k l h good bad = record {
    at = λ s. forget-run_attempt (m s) (n s) k l (h.at s) good bad;
  }

-- The path in `wrap_io_error!` is in the error alone.
pub Alike-try_wrapped :
    (E : Env) {A : Type 0} (path other : FilePath) (op : E.World → Run A IoError E.World)
    → Alike (try_wrapped E path op) (try_wrapped E other op)
Alike-try_wrapped E path other op =
    Alike-map_failed E.from_io E.from_io _ _
      (Alike-map_failed (wrap_error path) (wrap_error other) _ _ (Alike-refl _))
