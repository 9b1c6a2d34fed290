-- ===== src/Std/Strings/Cuts.antt =====
-- What a text is made of, from the parts that it is cut into.
use async_procfs.Prelude.{
  ℕ, ◌≡◌, ◌≢◌, refl, ap, ◌∙◌, Bool, true, false, List, [], ◌∷◌, ◌++◌, arith, Text, All, All-split,
  Bool-cases, inl, inr,
}
use async_procfs.Std.Strings.{split, grow, join_with, before_first}
use async_procfs.Std.Strings.Laws.{Free, is_sep}

module _ (p : ℕ → Bool) where
  -- Nothing, or text that begins with a character that passes.
  abbrev pub Starts : Text → Type 0
  Starts [] = Unit
  Starts (c ∷ s) = p c ≡ true

  -- Before the first character that passes none passes, and behind it is the rest.
  pub before_first_cut :
      (s : Text)
      → (rest : Text) × (s ≡ before_first p s ++ rest) × Starts rest × Free p (before_first p s)
  unfolding before_first
  before_first_cut [] = ([], refl, tt, tt)
  before_first_cut (c ∷ s) = elim (Bool-cases (p c)) [
    | inl cut ↦ rw cut (c ∷ s, refl, cut, tt)
    | inr other ↦
        let (rest, same, starts, free) = before_first_cut s in
        rw other (rest, ap (◌∷◌ c) same, starts, (other, free))
  ]

-- What holds of all characters of a text holds of its parts.
All-part {κ} :
    (P : ℕ → Type κ) (sep : ℕ) (p : Text) (ps : List Text)
    → All P (join_with sep (p ∷ ps))
    → All P p × All (All P) ps
unfolding join_with
All-part P sep p [] h = (h, tt)
All-part P sep p (q ∷ ps) h =
    let (here, later) = All-split P p (sep ∷ join_with sep (q ∷ ps)) h in
    (here, All-part P sep q ps later.1)

pub All-parts {κ} :
    (P : ℕ → Type κ) (sep : ℕ) (ps : List Text) → All P (join_with sep ps) → All (All P) ps
All-parts P sep [] h = tt
All-parts P sep (p ∷ ps) h = All-part P sep p ps h

module _ (sep : ℕ) where
  join_with-nil : (ps : List Text) → ps ≢ [] → join_with sep ([] ∷ ps) ≡ sep ∷ join_with sep ps
  unfolding join_with
  join_with-nil [] h = absurd (h refl)
  join_with-nil (p ∷ ps) h = refl

  join_with-grow :
      (c : ℕ) (ps : List Text) → ps ≢ [] → join_with sep (grow c ps) ≡ c ∷ join_with sep ps
  unfolding join_with
  join_with-grow c [] h = absurd (h refl)
  join_with-grow c (p ∷ []) h = refl
  join_with-grow c (p ∷ q ∷ ps) h = refl

  grow-Free :
      (c : ℕ) (ps : List Text)
      → is_sep sep c ≡ false
      → All (Free (is_sep sep)) ps
      → All (Free (is_sep sep)) (grow c ps)
  grow-Free c [] h k = ((h, tt), tt)
  grow-Free c (p ∷ ps) h (k, ks) = ((h, k), ks)

  grow-ne-nil : (c : ℕ) (ps : List Text) → grow c ps ≢ []
  grow-ne-nil c [] h = cc
  grow-ne-nil c (p ∷ ps) h = cc

  -- The parts, joined again, are the text; there is one at least, and none has a separator.
  pub split_cut :
      (s : Text)
      → (join_with sep (split sep s) ≡ s)
        × (split sep s ≢ [])
        × All (Free (is_sep sep)) (split sep s)
  unfolding split
  split_cut [] = (unfold join_with in refl, λ e. cc, (tt, tt))
  split_cut (c ∷ s) =
      let (joined, some_part, free) = split_cut s in
      elim (Bool-cases (is_sep sep c)) [
        | inl cut ↦
            let same : c ≡ sep = ground arith in
            rw cut
              (join_with-nil (split sep s) some_part ∙ rw (joined, same) refl, λ e. cc, (tt, free))
        | inr other ↦ rw other (
          join_with-grow c (split sep s) some_part ∙ ap (◌∷◌ c) joined,
          grow-ne-nil c (split sep s),
          grow-Free c (split sep s) other free,
        )
      ]
