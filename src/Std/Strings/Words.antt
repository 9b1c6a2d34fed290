-- ===== src/Std/Strings/Words.antt =====
-- The words of a text, with any separators before, between and behind them.
use async_procfs.Prelude.{
  ℕ, ◌≡◌, ◌≢◌, ◌↔◌, ◌∙◌, refl, ap, sym, subst, inl, inr, Bool, true, List, [], ◌∷◌, ◌++◌,
  append-nil, Text, Bool-cases,
}
use async_procfs.Std.Strings.{split_by, nonempty}
use async_procfs.Std.Strings.Laws.{Free, Full, split_by-Free, split_by-append}
use async_procfs.Std.Strings.Cuts.{Starts}

module _ (p : ℕ → Bool) where
  -- The text is the words in their order: none is empty or holds a separator, and what stands between two
  -- of them, before the first and behind the last is separators.
  abbrev pub HasWords : Text → List Text → Type 0
  HasWords s [] = Full p s
  HasWords s (t ∷ ws) =
      (space : Text) × (rest : Text) × (s ≡ space ++ (t ++ rest))
      × Full p space
      × (t ≢ [])
      × Free p t
      × Starts p rest
      × HasWords rest ws

  more_space-HasWords :
      (c : ℕ) (s : Text) (ws : List Text) → p c ≡ true → HasWords s ws → HasWords (c ∷ s) ws
  more_space-HasWords c s [] h k = (h, k)
  more_space-HasWords c s (t ∷ ws) h (space, rest, same, full, k, free, starts, words) =
      (c ∷ space, rest, ap (◌∷◌ c) same, (h, full), k, free, starts, words)

  part-HasWords :
      (q rest : Text) (qs : List Text)
      → Free p q
      → Starts p rest
      → HasWords rest (nonempty qs)
      → HasWords (q ++ rest) (nonempty (q ∷ qs))
  part-HasWords [] rest qs free starts h = h
  part-HasWords (c ∷ q) rest qs free starts h = ([], rest, refl, tt, (λ e. cc), free, starts, h)

  -- The first part of a text that is cut, and the words of the rest.
  abbrev FirstPart : Text → Type 0
  FirstPart s =
      (q : Text) × (qs : List Text) × (rest : Text) × (split_by p s ≡ q ∷ qs)
      × (s ≡ q ++ rest)
      × Free p q
      × Starts p rest
      × HasWords rest (nonempty qs)

  first_part : (s : Text) → FirstPart s
  unfolding split_by
  first_part [] = ([], [], [], refl, refl, tt, tt, tt)
  first_part (c ∷ s) =
      let (q, qs, rest, cut, same, free, starts, words) = first_part s in
      elim (Bool-cases (p c)) [
        | inl sep ↦
            let of_s =
              subst (λ (x : Text). HasWords x (nonempty (q ∷ qs))) (sym same)
                (part-HasWords q rest qs free starts words) in
            (
              [],
              split_by p s,
              c ∷ s,
              rw sep refl,
              refl,
              tt,
              sep,
              rw cut (more_space-HasWords c s (nonempty (q ∷ qs)) sep of_s),
            )
        | inr other ↦
            (c ∷ q, qs, rest, rw (other, cut) refl, ap (◌∷◌ c) same, (other, free), starts, words)
      ]

  nonempty-HasWords : (s : Text) → HasWords s (nonempty (split_by p s))
  nonempty-HasWords s =
      let (q, qs, rest, cut, same, free, starts, words) = first_part s in
      rw cut (
        subst (λ (x : Text). HasWords x (nonempty (q ∷ qs))) (sym same)
          (part-HasWords q rest qs free starts words))

  nonempty-sep :
      (space s : Text) → Full p space → nonempty (split_by p (space ++ s)) ≡ nonempty (split_by p s)
  unfolding split_by
  nonempty-sep [] s h = refl
  nonempty-sep (c ∷ space) s (h, hs) = rw h (nonempty-sep space s hs)

  nonempty-cons : (t : Text) (ps : List Text) → t ≢ [] → nonempty (t ∷ ps) ≡ t ∷ nonempty ps
  nonempty-cons [] ps h = absurd (h refl)
  nonempty-cons (c ∷ t) ps h = refl

  nonempty-nothing : nonempty (split_by p []) ≡ []
  unfolding split_by
  nonempty-nothing = refl

  nonempty-word :
      (t rest : Text)
      → t ≢ []
      → Free p t
      → Starts p rest
      → nonempty (split_by p (t ++ rest)) ≡ t ∷ nonempty (split_by p rest)
  nonempty-word t [] some_char free starts =
      rw (append-nil, split_by-Free p t free, nonempty-nothing) (nonempty-cons t [] some_char)
  nonempty-word t (c ∷ rest) some_char free starts =
      rw (split_by-append p t c rest free starts) (nonempty-cons t (split_by p rest) some_char)
      ∙ ap (◌∷◌ t) (sym (nonempty-sep (c ∷ []) rest (starts, tt)))

  HasWords-nonempty : (ws : List Text) (s : Text) → HasWords s ws → nonempty (split_by p s) ≡ ws
  HasWords-nonempty [] s h = rw append-nil at (nonempty-sep s [] h) ∙ nonempty-nothing
  HasWords-nonempty (t ∷ ws) s (space, rest, same, full, some_char, free, starts, words) = rw same (
      nonempty-sep space (t ++ rest) full
      ∙ nonempty-word t rest some_char free starts
      ∙ ap (◌∷◌ t) (HasWords-nonempty ws rest words))

  -- The parts that are not empty are the words.
  pub nonempty-split_by_iff :
      (s : Text) (ws : List Text) → (nonempty (split_by p s) ≡ ws) ↔ HasWords s ws
  nonempty-split_by_iff s ws =
      (λ e. subst (HasWords s) e (nonempty-HasWords s), HasWords-nonempty ws s)
