-- ===== src/Kernel/Version/Cell.antt =====
-- `Version::cached` against a cell that holds a version or nothing: any sequence of calls by any
-- instances, with changes of the world between them.
use async_procfs.Prelude.{
  ℕ, ◌≡◌, ◌≢◌, ◌⊎◌, refl, ap, true, Option, none, some, List, [], ◌∷◌, codes, Text, arith, Run,
  returned, failed, panicked, map_err, ◌>>=◌, of_result, state_of, ◌==◌, if◌then◌else◌, Bool-cases,
  Run-cases, inl, inr, ◌&&◌,
}
use async_procfs.Std.Strings.{trim}
use async_procfs.Env.{Env, new_options, with_read}
use async_procfs.Machine.{State}
use async_procfs.Procfs.{AsyncProcfs}
use async_procfs.Helpers.{at_path, read_file, read_value}
use async_procfs.Kernel.Version.{Version, IsVersion, to_u32, from_u32, from_str, current, cached}
use async_procfs.Kernel.Version.Packing.{from_u32-to_u32, to_u32_fits}
use async_procfs.Kernel.Version.Cache.{current-IsVersion, cached_hit, cached_miss}

-- The state behind a run, seen through a function.
abbrev pub map_state : {A F S T : Type 0} → (S → T) → Run A F S → Run A F T
map_state f (returned a s) = returned a (f s)
map_state f (failed e s) = failed e (f s)
map_state f (panicked p s) = panicked p (f s)

-- `0.0.0` packs to the sentinel, so that it is not kept.
abbrev pub remember : Version → Option Version
remember v = if v.major == 0 && v.minor == 0 && v.patch == 0 then none else some v

module _ (E : Env) where
  open E use {ProcError, World}

  -- The cell, and the world outside.
  pub record Cell : Type 0 where
    pub known : Option Version
    pub world : World

  -- The version in the release file, read in the world alone.
  pub release : AsyncProcfs E.File → World → Run Version ProcError World
  release procfs = do
    file ←
        at_path E procfs (codes "sys/kernel/osrelease")
          (E.open_at procfs.file (codes "sys/kernel/osrelease") (with_read true new_options))
    text ← at_path E procfs (codes "sys/kernel/osrelease") (E.hybrid_read_to_string file)
    of_result (map_err E.from_message (from_str (trim text)))

  abbrev pub keep : Run Version ProcError World → Run Version ProcError Cell
  keep (returned v w) = returned v (record { known = remember v; world = w })
  keep (failed e w) = failed e (record { known = none; world = w })
  keep (panicked p w) = panicked p (record { known = none; world = w })

  -- A cell that knows a version tells it and looks at no file; one that does not reads the file, tells
  -- what comes of that, and keeps a version.
  abbrev pub ask : AsyncProcfs E.File → Option Version → World → Run Version ProcError Cell
  ask procfs (some v) w = returned v (record { known = some v; world = w })
  ask procfs none w = keep (release procfs w)

  -- What the static holds: nothing where it is the sentinel, and otherwise the version unpacked.
  abbrev pub unpack : ℕ → Option Version
  unpack kernel = if kernel == 0 then none else some (from_u32 E.little_endian kernel)

  abbrev pub cell : State World → Cell
  cell s = record { known = unpack s.kernel; world = s.world }

  -- The file is read in the world alone, whatever the static holds.
  abbrev at_kernel : {A F : Type 0} → ℕ → Run A F World → Run A F (State World)
  at_kernel k r = map_state (λ w. record { world = w; kernel = k }) r

  current-release :
      (procfs : AsyncProcfs E.File) (s : State World)
      → current E procfs s ≡ at_kernel s.kernel (release procfs s.world)
  unfolding current read_value read_file release
  current-release procfs s = ground arith

  unpack-to_u32 : (v : Version) → IsVersion v → unpack (to_u32 E.little_endian v) ≡ remember v
  unpack-to_u32 v fits =
      ground (arith, to_u32_fits E.little_endian v fits, from_u32-to_u32 E.little_endian v fits)

  abbrev IsStep : AsyncProcfs E.File → State World → Run Version ProcError Cell → Type 0
  IsStep procfs s r = map_state cell (cached E procfs s) ≡ r

  full-IsStep :
      (procfs : AsyncProcfs E.File) (s : State World)
      → s.kernel ≢ 0
      → IsStep procfs s (ask procfs (unpack s.kernel) s.world)
  full-IsStep procfs s full = rw (cached_hit E procfs s full) (ground arith)

  stopped-IsStep :
      (procfs : AsyncProcfs E.File) (s : State World)
      → s.kernel ≡ 0
      → ((e : ProcError) × (w : World) × (release procfs s.world ≡ failed e w))
        ⊎ ((p : Text) × (w : World) × (release procfs s.world ≡ panicked p w))
      → IsStep procfs s (ask procfs none s.world)
  unfolding cached
  stopped-IsStep procfs s empty (inl (e, w, h)) = ground (arith, current-release procfs s)
  stopped-IsStep procfs s empty (inr (p, w, h)) = ground (arith, current-release procfs s)

  read-IsStep :
      (procfs : AsyncProcfs E.File) (s : State World) (v : Version) (w : World)
      → s.kernel ≡ 0
      → release procfs s.world ≡ returned v w
      → IsStep procfs s (ask procfs none s.world)
  read-IsStep procfs s v w empty h =
      let read : current E procfs s ≡ returned v (record { world = w; kernel = s.kernel }) =
        rw (current-release procfs s, h) refl in
      rw (cached_miss E procfs s _ v empty read, h)
        (rw (unpack-to_u32 v (current-IsVersion E procfs s _ v read)) refl)

  -- One call is one question to the cell.
  pub cached-ask :
      (procfs : AsyncProcfs E.File) (s : State World)
      → map_state cell (cached E procfs s) ≡ ask procfs (unpack s.kernel) s.world
  cached-ask procfs s = elim (Bool-cases (s.kernel == 0)) [
    | inr full ↦ full-IsStep procfs s (λ e. ground arith)
    | inl sentinel ↦
        let empty : s.kernel ≡ 0 = ground arith in
        rw sentinel (elim (Run-cases (release procfs s.world)) [
          | inl (v, w, h) ↦ read-IsStep procfs s v w empty h
          | inr stopped ↦ stopped-IsStep procfs s empty stopped
        ])
  ]

  -- A call by an instance, or a change of the world from outside.
  pub data Event : Type 0 where
    call : AsyncProcfs E.File → Event
    outside : (World → World) → Event

  -- What a call tells its caller: a version, an error or a panic.
  abbrev pub Answer : Type 0
  Answer = Run Version ProcError (Unit {0})

  abbrev pub answer : {S : Type 0} → Run Version ProcError S → Answer
  answer r = map_state (λ _. tt) r

  -- The calls of the crate, and the questions to the cell.
  pub run : List Event → State World → List Answer × State World
  run [] s = ([], s)
  run (call procfs ∷ events) s =
      let r = cached E procfs s in let rest = run events (state_of r) in (answer r ∷ rest.0, rest.1)
  run (outside change ∷ events) s = run events (record s { world = change s.world })

  pub replay : List Event → Cell → List Answer × Cell
  replay [] c = ([], c)
  replay (call procfs ∷ events) c =
      let r = ask procfs c.known c.world in
      let rest = replay events (state_of r) in (answer r ∷ rest.0, rest.1)
  replay (outside change ∷ events) c = replay events (record c { world = change c.world })

  map_state-seen :
      {S T : Type 0} (f : S → T) (r : Run Version ProcError S)
      → (answer (map_state f r) ≡ answer r) × (state_of (map_state f r) ≡ f (state_of r))
  map_state-seen f (returned v s) = (refl, refl)
  map_state-seen f (failed e s) = (refl, refl)
  map_state-seen f (panicked p s) = (refl, refl)

  -- Any sequence of calls by any instances, with any changes of the world between them, gives its callers
  -- the answers of a cell that holds a version or nothing, tells the version that it holds without
  -- looking at a file, and otherwise reads the file and keeps what it reads unless that is 0.0.0; it
  -- leaves the static and the world as the cell and its world.
  pub run_refines :
      (events : List Event) (s : State World)
      → ((run events s).0 ≡ (replay events (cell s)).0)
        × (cell (run events s).1 ≡ (replay events (cell s)).1)
  unfolding run replay
  run_refines [] s = (refl, refl)
  run_refines (outside change ∷ events) s = run_refines events (record s { world = change s.world })
  run_refines (call procfs ∷ events) s =
      let r = cached E procfs s in
      let asked = cached-ask procfs s in
      let (told, left) = map_state-seen cell r in
      let (answers, last) = run_refines events (state_of r) in
      rw (← asked, told, left) (ap (◌∷◌ (answer r)) answers, last)
