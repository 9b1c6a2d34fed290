-- ===== src/Kernel/Version/Race/Invariant.antt =====
-- What holds of many calls of `Version::cached`, whatever the order of their steps.
use async_procfs.Prelude.{
  ℕ, ◌≡◌, ◌≢◌, ◌⊎◌, inl, inr, refl, sym, ap, ◌∙◌, ok, err, Run, returned, state_of, ◌==◌, List, [],
  ◌∷◌, ◌++◌, All, All-split, Mem, All-Mem, Bool-cases,
}
use async_procfs.Env.{Env}
use async_procfs.Machine.{State}
use async_procfs.Procfs.{AsyncProcfs}
use async_procfs.Kernel.Version.{Version, IsVersion, to_u32, from_u32, current}
use async_procfs.Kernel.Version.Packing.{from_u32-to_u32}
use async_procfs.Kernel.Version.Cache.{current-IsVersion, current_kernel}
use async_procfs.Kernel.Version.Race.{
  Call, loading, reading, storing, finished, crashed, System, with_call, Step, load_full,
  load_empty, read, read_failed, read_panicked, store, outside, Reach, here, next, initial,
}

module _ (E : Env) (procfs : ℕ → AsyncProcfs E.File) where
  -- The versions that the reads of a run yielded, the last one first.
  abbrev pub version_read : {s t : System E procfs} → Step E procfs s t → List Version
  version_read (load_full i at full) = []
  version_read (load_empty i at empty) = []
  version_read (read i v t at e) = v ∷ []
  version_read (read_failed i f t at e) = []
  version_read (read_panicked i p t at e) = []
  version_read (store i k at) = []
  version_read (outside w) = []

  abbrev pub versions_read : {s t : System E procfs} → Reach E procfs s t → List Version
  versions_read here = []
  versions_read (next r step) = version_read step ++ versions_read r

  versions_read-All :
      (Q : Version → Type 0)
      → ((i : ℕ) (s t : State E.World) (w : Version) → current E (procfs i) s ≡ returned w t → Q w)
      → {s t : System E procfs} (r : Reach E procfs s t) → All Q (versions_read r)
  versions_read-All Q reads here = tt
  versions_read-All Q reads (next r (load_full i at full)) = versions_read-All Q reads r
  versions_read-All Q reads (next r (load_empty i at empty)) = versions_read-All Q reads r
  versions_read-All Q reads (next r (read i v t at e)) =
      (reads i _ t v e, versions_read-All Q reads r)
  versions_read-All Q reads (next r (read_failed i f t at e)) = versions_read-All Q reads r
  versions_read-All Q reads (next r (read_panicked i p t at e)) = versions_read-All Q reads r
  versions_read-All Q reads (next r (store i k at)) = versions_read-All Q reads r
  versions_read-All Q reads (next r (outside w)) = versions_read-All Q reads r

module _ (E : Env) (procfs : ℕ → AsyncProcfs E.File) (Q : Version → Type 0) where
  -- A number that packs such a version.
  abbrev Packed : ℕ → Type 0
  Packed k = (v : Version) × IsVersion v × Q v × (k ≡ to_u32 E.little_endian v)

  -- What the phase of a call owes to the reads.
  abbrev Agrees : Call E procfs → Type 0
  Agrees loading = Unit
  Agrees reading = Unit
  Agrees (storing k) = Packed k
  Agrees (finished (ok w)) = Q w
  Agrees (finished (err e)) = Unit
  Agrees crashed = Unit

  pub record IsConsistent (s : System E procfs) : Type 0 where
    pub cache : (s.shared.kernel ≡ 0) ⊎ Packed s.shared.kernel
    pub agree : (i : ℕ) → Agrees (s.calls i)

  with_call-Agrees :
      (s : System E procfs) (i : ℕ) (phase : Call E procfs)
      → ((j : ℕ) → Agrees (s.calls j))
      → Agrees phase
      → (j : ℕ) → Agrees (with_call E procfs s i phase j)
  with_call-Agrees s i phase h a j = elim (Bool-cases (i == j)) [
    | inl same ↦ rw same a
    | inr other ↦ rw other (h j)
  ]

  unpacked : (k : ℕ) → Packed k → Q (from_u32 E.little_endian k)
  unpacked k (v, fits, q, e) = rw (e, from_u32-to_u32 E.little_endian v fits) q

  full_cache :
      (s : System E procfs)
      → IsConsistent s
      → s.shared.kernel ≢ 0
      → Q (from_u32 E.little_endian s.shared.kernel)
  full_cache s h full = elim h.cache [
    | inl e ↦ absurd (full e)
    | inr packed ↦ unpacked s.shared.kernel packed
  ]

  stored : (s : System E procfs) (i k : ℕ) → IsConsistent s → s.calls i ≡ storing k → Packed k
  stored s i k h at = rw at at (h.agree i)

  -- A state that was reached without touching the cache keeps the invariant's first half.
  same_cache : (k l : ℕ) → k ≡ l → (l ≡ 0) ⊎ Packed l → (k ≡ 0) ⊎ Packed k
  same_cache k l e (inl h) = inl (e ∙ h)
  same_cache k l e (inr (v, fits, q, h)) = inr (v, fits, q, e ∙ h)

  pub read_cache :
      (i : ℕ) (s t : State E.World) (r : Run Version E.ProcError (State E.World))
      → current E (procfs i) s ≡ r
      → state_of r ≡ t
      → t.kernel ≡ s.kernel
  read_cache i s t r e f =
      sym (ap (λ (u : State E.World). u.kernel) f)
      ∙ sym (ap (λ (x : Run Version E.ProcError (State E.World)). (state_of x).kernel) e)
      ∙ current_kernel E (procfs i) s

  Step-IsConsistent :
      {s t : System E procfs} (step : Step E procfs s t)
      → All Q (version_read E procfs step)
      → IsConsistent s
      → IsConsistent t
  Step-IsConsistent {s} (load_full i at full) q h = record {
    cache = h.cache;
    agree = with_call-Agrees s i _ h.agree (full_cache s h full);
  }
  Step-IsConsistent {s} (load_empty i at empty) q h = record {
    cache = h.cache;
    agree = with_call-Agrees s i reading h.agree tt;
  }
  Step-IsConsistent {s} (read i w t at e) q h = record {
    cache = same_cache t.kernel s.shared.kernel (read_cache i s.shared t _ e refl) h.cache;
    agree =
        with_call-Agrees s i (storing (to_u32 E.little_endian w)) h.agree
          (w, current-IsVersion E (procfs i) s.shared t w e, q.0, refl);
  }
  Step-IsConsistent {s} (read_failed i e t at f) q h = record {
    cache = same_cache t.kernel s.shared.kernel (read_cache i s.shared t _ f refl) h.cache;
    agree = with_call-Agrees s i (finished (err e)) h.agree tt;
  }
  Step-IsConsistent {s} (read_panicked i p t at f) q h = record {
    cache = same_cache t.kernel s.shared.kernel (read_cache i s.shared t _ f refl) h.cache;
    agree = with_call-Agrees s i crashed h.agree tt;
  }
  Step-IsConsistent {s} (store i k at) q h = record {
    cache = inr (stored s i k h at);
    agree = with_call-Agrees s i _ h.agree (unpacked k (stored s i k h at));
  }
  Step-IsConsistent (outside w) q h = record { cache = h.cache; agree = h.agree }

  Reach-IsConsistent :
      {s t : System E procfs} (r : Reach E procfs s t)
      → All Q (versions_read E procfs r)
      → IsConsistent s
      → IsConsistent t
  Reach-IsConsistent here q h = h
  Reach-IsConsistent (next r step) q h =
      let (now, before) = All-split Q (version_read E procfs step) (versions_read E procfs r) q in
      Step-IsConsistent step now (Reach-IsConsistent r before h)

  initial-IsConsistent : (w : E.World) → IsConsistent (initial E procfs w)
  initial-IsConsistent w = record { cache = inl refl; agree = λ i. tt }

-- Where `Q` holds of every version that was read in a run, in every interleaving of any number of calls
-- each version that a call returns has `Q`, and the cache holds the sentinel or the packing of a
-- version that fits its fields and has `Q`.
pub race_reads :
    (E : Env) (procfs : ℕ → AsyncProcfs E.File) (Q : Version → Type 0) (w : E.World)
    (t : System E procfs) (r : Reach E procfs (initial E procfs w) t)
    → All Q (versions_read E procfs r)
    → ((i : ℕ) (u : Version) → t.calls i ≡ finished (ok u) → Q u)
      × ((t.shared.kernel ≡ 0)
          ⊎ ((v : Version) × IsVersion v × Q v × (t.shared.kernel ≡ to_u32 E.little_endian v)))
race_reads E procfs Q w t r q =
    let c = Reach-IsConsistent E procfs Q r q (initial-IsConsistent E procfs Q w) in
    (λ i u at. rw at at (c.agree i), c.cache)

-- In every interleaving of any number of calls, each made with an instance of its own, with any changes of
-- the world between their steps, each version that a call returns is one that a call of the same run has read from the file, and the
-- cache holds the sentinel or the packing of such a version, whose fields fit.
pub race_returns_read :
    (E : Env) (procfs : ℕ → AsyncProcfs E.File) (w : E.World) (t : System E procfs)
    (r : Reach E procfs (initial E procfs w) t)
    → ((i : ℕ) (u : Version) → t.calls i ≡ finished (ok u) → Mem u (versions_read E procfs r))
      × ((t.shared.kernel ≡ 0)
          ⊎ ((v : Version) × IsVersion v
              × Mem v (versions_read E procfs r)
              × (t.shared.kernel ≡ to_u32 E.little_endian v)))
race_returns_read E procfs w t r =
    race_reads E procfs (λ u. Mem u (versions_read E procfs r)) w t r
      (All-Mem (versions_read E procfs r))

-- If every read of the file that succeeds yields the version `v`, whose fields fit, then in every
-- interleaving of any number of calls each call that returns a version returns `v`, and the cache
-- holds the sentinel or the packing of `v`.
pub race_agrees :
    (E : Env) (procfs : ℕ → AsyncProcfs E.File) (v : Version)
    → IsVersion v
    → ((i : ℕ) (s t : State E.World) (w : Version) → current E (procfs i) s ≡ returned w t → w ≡ v)
    → (w : E.World) (t : System E procfs) → Reach E procfs (initial E procfs w) t
    → ((i : ℕ) (u : Version) → t.calls i ≡ finished (ok u) → u ≡ v)
      × ((t.shared.kernel ≡ 0) ⊎ (t.shared.kernel ≡ to_u32 E.little_endian v))
race_agrees E procfs v fits stable w t r =
    let (agree, cache) =
      race_reads E procfs (λ u. u ≡ v) w t r (versions_read-All E procfs (λ u. u ≡ v) stable r) in
    (
      agree,
      elim cache [
        | inl e ↦ inl e
        | inr (u, f, same, e) ↦ inr (e ∙ ap (to_u32 E.little_endian) same)
      ],
    )
