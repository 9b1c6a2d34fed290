-- ===== src/Process/Environ/Slices.antt =====
-- `Process::environ` for files of any bytes: which slice gives a name its value.
use async_procfs.Prelude.{
  ℕ, ◌≡◌, ◌↔◌, ◌⊎◌, ◌∙◌, refl, ap, sym, inl, inr, Option, none, some, List, [], ◌∷◌, ◌++◌, Bytes,
  All, codes, returned, arith, if◌then◌else◌, text_eq, text_eq_sound, text_eq_refl, Bool-cases,
  Option-cases, ◌==◌,
}
use async_procfs.Std.Strings.{split, split_once, join_with}
use async_procfs.Std.Strings.Laws.{Free, is_sep, split_once-append}
use async_procfs.Std.Strings.Cuts.{split_cut}
use async_procfs.Std.Maps.{lookup}
use async_procfs.Std.Maps.Laws.{lookup-insert}
use async_procfs.Env.{Env}
use async_procfs.Machine.{State}
use async_procfs.Procfs.{read_options}
use async_procfs.Process.{Process}
use async_procfs.Process.Environ.{
  EnvMap, insert_split, insert_slice, insert_slices, parse_environ, environ, environ_reads,
}

-- The slice is the name, without `=`, then `=` and the value.
abbrev pub Defines : Bytes → Bytes → Bytes → Type 0
Defines k v slice = (slice ≡ k ++ (b'=' ∷ v)) × Free (is_sep b'=') k

abbrev pub NoneDefines : Bytes → List Bytes → Type 0
NoneDefines k = All (λ slice. (v : Bytes) → Defines k v slice → ⊥)

-- The last of the slices that define the name gives it this value.
abbrev pub LastDefines : Bytes → Bytes → List Bytes → Type 0
LastDefines k v [] = ⊥
LastDefines k v (slice ∷ slices) =
    LastDefines k v slices ⊎ (Defines k v slice × NoneDefines k slices)

-- What a slice says of a name.
abbrev value_of : Bytes → Bytes → Option Bytes → Option Bytes
value_of k name none = none
value_of k name (some v) = if text_eq name k then some v else none

abbrev value_in : Bytes → Bytes → Option Bytes
value_in k slice = value_of k (split_once b'=' slice).0 (split_once b'=' slice).1

-- A slice with an `=` is cut at its first one, and one without is left whole.
split_once_cut :
    (sep : ℕ) (s v : Bytes)
    → (split_once sep s).1 ≡ some v
    → (s ≡ (split_once sep s).0 ++ (sep ∷ v)) × Free (is_sep sep) (split_once sep s).0
unfolding split_once
split_once_cut sep [] v h = absurd (cc)
split_once_cut sep (c ∷ s) v h = elim (Bool-cases (c == sep)) [
  | inl cut ↦
      let found : s ≡ v = cc (rw cut at h) in
      let here : c ≡ sep = ground arith in rw cut (rw (here, found) refl, tt)
  | inr other ↦
      let (shape, free) = split_once_cut sep s v (rw other at h) in
      rw other (ap (◌∷◌ c) shape, (other, free))
]

-- What a slice says of a name is what it defines.
value_in_iff : (k v slice : Bytes) → (value_in k slice ≡ some v) ↔ Defines k v slice
value_in_iff k v slice = (defines, defined)
  where
    named :
        (w : Option Bytes)
        → (split_once b'=' slice).1 ≡ w
        → value_of k (split_once b'=' slice).0 w ≡ some v
        → Defines k v slice
    named none e h = absurd (cc)
    named (some w) e h = elim (Bool-cases (text_eq (split_once b'=' slice).0 k)) [
      | inr other ↦ absurd (cc (rw other at h))
      | inl same ↦
          let equal : w ≡ v = cc (rw same at h) in
          let name : (split_once b'=' slice).0 ≡ k = text_eq_sound _ k same in
          let (shape, free) = split_once_cut b'=' slice w e in
          (rw (name, equal) at shape, rw name at free)
    ]

    defines : value_in k slice ≡ some v → Defines k v slice
    defines h = named (split_once b'=' slice).1 refl h

    defined : Defines k v slice → value_in k slice ≡ some v
    defined (shape, free) =
        rw shape (rw (split_once-append b'=' k v free) (rw (text_eq_refl k) refl))

abbrev or_else : Option Bytes → Option Bytes → Option Bytes
or_else none found = found
or_else (some v) found = some v

abbrev last_in : Bytes → List Bytes → Option Bytes → Option Bytes
last_in k [] found = found
last_in k (slice ∷ slices) found = last_in k slices (or_else (value_in k slice) found)

lookup-insert_split :
    (k name : Bytes) (w : Option Bytes) (m : EnvMap)
    → lookup text_eq k (insert_split name w m) ≡ or_else (value_of k name w) (lookup text_eq k m)
lookup-insert_split k name none m = refl
lookup-insert_split k name (some v) m = elim (Bool-cases (text_eq name k)) [
  | inl same ↦ rw (lookup-insert k name v m) (rw same refl)
  | inr other ↦ rw (lookup-insert k name v m) (rw other refl)
]

lookup-slices :
    (k : Bytes) (slices : List Bytes) (m : EnvMap)
    → lookup text_eq k (insert_slices slices m) ≡ last_in k slices (lookup text_eq k m)
unfolding insert_slices insert_slice
lookup-slices k [] m = refl
lookup-slices k (slice ∷ slices) m =
    lookup-slices k slices _
    ∙ ap (last_in k slices)
        (lookup-insert_split k (split_once b'=' slice).0 (split_once b'=' slice).1 m)

silent : (k slice : Bytes) → value_in k slice ≡ none → (v : Bytes) → Defines k v slice → ⊥
silent k slice h v d = absurd (cc ((value_in_iff k v slice).1 d))

-- A name has this value after some slices: the last slice that defines the name gives it, or none does and
-- it was there before.
abbrev Explains : Bytes → Bytes → List Bytes → Option Bytes → Type 0
Explains k v slices found = LastDefines k v slices ⊎ (NoneDefines k slices × (found ≡ some v))

last_in-Explains :
    (k v : Bytes) (slices : List Bytes) (found : Option Bytes)
    → last_in k slices found ≡ some v
    → Explains k v slices found
last_in-Explains k v [] found h = inr (tt, h)
last_in-Explains k v (slice ∷ slices) found h =
    elim (last_in-Explains k v slices (or_else (value_in k slice) found) h) [
      | inl later ↦ inl (inl later)
      | inr (none_later, here) ↦ elim (Option-cases (value_in k slice)) [
        | inl e ↦ inr ((silent k slice e, none_later), rw e at here)
        | inr (w, e) ↦
            let same : some w ≡ some v = rw e at here in
            inl (inr ((value_in_iff k v slice).0 (e ∙ same), none_later))
      ]
    ]

Explains-last_in :
    (k v : Bytes) (slices : List Bytes) (found : Option Bytes)
    → Explains k v slices found
    → last_in k slices found ≡ some v
Explains-last_in k v [] found (inl h) = absurd h
Explains-last_in k v [] found (inr h) = h.1
Explains-last_in k v (slice ∷ slices) found (inl (inl later)) =
    Explains-last_in k v slices (or_else (value_in k slice) found) (inl later)
Explains-last_in k v (slice ∷ slices) found (inl (inr (d, none_later))) =
    Explains-last_in k v slices (or_else (value_in k slice) found)
      (inr (none_later, rw ((value_in_iff k v slice).1 d) refl))
Explains-last_in k v (slice ∷ slices) found (inr ((nothing, none_later), h)) =
    elim (Option-cases (value_in k slice)) [
      | inl e ↦
          Explains-last_in k v slices (or_else (value_in k slice) found) (inr (none_later, rw e h))
      | inr (w, e) ↦ absurd (nothing w ((value_in_iff k w slice).0 e))
    ]

lookup_iff :
    (slices : List Bytes) (k v : Bytes)
    → (lookup text_eq k (insert_slices slices []) ≡ some v) ↔ LastDefines k v slices
unfolding lookup
lookup_iff slices k v = (found, explained)
  where
    found : lookup text_eq k (insert_slices slices []) ≡ some v → LastDefines k v slices
    found h = elim (last_in-Explains k v slices none (sym (lookup-slices k slices []) ∙ h)) [
      | inl last ↦ last
      | inr (nothing, h) ↦ absurd (cc)
    ]

    explained : LastDefines k v slices → lookup text_eq k (insert_slices slices []) ≡ some v
    explained last = lookup-slices k slices [] ∙ Explains-last_in k v slices none (inl last)

-- Where the environment can be opened and read, whatever bytes it holds, `environ` returns a map, and a
-- name has a value in it exactly if, among the slices between NUL bytes of which the file is made up,
-- the last one that consists of that name without `=`, of `=` and of some value, has this value.
pub environ_iff :
    (E : Env) (p : Process E.File) (n : ℕ) (buf : Bytes) (s : State E.World) (w₁ w₂ : E.World)
    (file : E.File)
    → E.open_at p.fd (codes "environ") (read_options E) s.world ≡ returned file w₁
    → E.read_to_end file w₁ ≡ returned (n, buf) w₂
    → (m : EnvMap) × (environ E p s ≡ returned m (record s { world = w₂ }))
      × (slices : List Bytes) × (buf ≡ join_with 0 slices)
      × All (Free (is_sep 0)) slices
      × ((k v : Bytes) → (lookup text_eq k m ≡ some v) ↔ LastDefines k v slices)
environ_iff E p n buf s w₁ w₂ file opened read =
    let (joined, some_slice, free) = split_cut 0 buf in
    (
      insert_slices (split 0 buf) [],
      unfold parse_environ in (environ_reads E p n buf s w₁ w₂ file opened read),
      split 0 buf,
      sym joined,
      free,
      λ k v. lookup_iff (split 0 buf) k v,
    )
