-- ===== src/Std/Strings/Trim.antt =====
-- Trimming words that are joined: the white space between them stays.
use async_procfs.Prelude.{
  ℕ, ◌≡◌, ◌≢◌, ◌∙◌, refl, ap, sym, Bool, false, List, [], ◌∷◌, ◌++◌, append_assoc, Text, All,
}
use async_procfs.Std.Chars.{is_whitespace}
use async_procfs.Std.Strings.{trim, trim_start_by, trim_end_by, keep_before, join_with}
use async_procfs.Std.Strings.Laws.{Free, Full, trim_start_by-Free, trim_end_by-Free}

module _ (p : ℕ → Bool) where
  -- What ends in something that is kept is kept in front of it.
  keep_before-append :
      (d : ℕ) (s : Text) (c : ℕ) (v : Text) → keep_before p d (s ++ (c ∷ v)) ≡ d ∷ (s ++ (c ∷ v))
  keep_before-append d [] c v = refl
  keep_before-append d (e ∷ s) c v = refl

  trim_end_by-append :
      (s u : Text) (c : ℕ) (v : Text)
      → trim_end_by p u ≡ c ∷ v
      → trim_end_by p (s ++ u) ≡ s ++ (c ∷ v)
  unfolding trim_end_by
  trim_end_by-append [] u c v h = h
  trim_end_by-append (d ∷ s) u c v h =
      rw (trim_end_by-append s u c v h) (keep_before-append d s c v)

  -- Words joined by a character, with nothing but what is trimmed behind them.
  trim_end_by-joined :
      (sep : ℕ) (q : Text) (qs : List Text) (after : Text)
      → All (Free p) (q ∷ qs)
      → All (λ w. w ≢ []) (q ∷ qs)
      → Full p after
      → (c : ℕ) × (v : Text) × (p c ≡ false)
        × (join_with sep (q ∷ qs) ≡ c ∷ v)
        × (trim_end_by p (join_with sep (q ∷ qs) ++ after) ≡ c ∷ v)
  unfolding join_with
  trim_end_by-joined sep [] [] after h k l = absurd (k.0 refl)
  trim_end_by-joined sep [] (r ∷ qs) after h k l = absurd (k.0 refl)
  trim_end_by-joined sep (c ∷ q) [] after h k l =
      (c, q, h.0.0, refl, trim_end_by-Free p (c ∷ q) after h.0 l)
  trim_end_by-joined sep (c ∷ q) (r ∷ qs) after h k l =
      let (d, v, plain, e, f) = trim_end_by-joined sep r qs after h.1 k.1 l in
      let rest = join_with sep (r ∷ qs) in
      let inner : trim_end_by p (sep ∷ (rest ++ after)) ≡ sep ∷ rest =
        trim_end_by-append (sep ∷ []) (rest ++ after) d v f ∙ ap (λ (t : Text). sep ∷ t) (sym e) in
      (
        c,
        q ++ (sep ∷ rest),
        h.0.0,
        refl,
        ap (trim_end_by p) (append_assoc (c ∷ q) (sep ∷ rest) after)
            ∙ trim_end_by-append (c ∷ q) (sep ∷ (rest ++ after)) sep rest inner,
      )

-- Words with one character between them, none of them empty or with white space in it, and white space
-- behind them: trimming gives the words joined.
pub trim_joined :
    (sep : ℕ) (q : Text) (qs : List Text) (after : Text)
    → All (Free is_whitespace) (q ∷ qs)
    → All (λ w. w ≢ []) (q ∷ qs)
    → Full is_whitespace after
    → trim (join_with sep (q ∷ qs) ++ after) ≡ join_with sep (q ∷ qs)
unfolding trim
trim_joined sep q qs after h k l =
    let (c, v, plain, e, f) = trim_end_by-joined is_whitespace sep q qs after h k l in
    let start : trim_start_by is_whitespace (join_with sep (q ∷ qs) ++ after)
        ≡ join_with sep (q ∷ qs) ++ after =
      rw e (trim_start_by-Free is_whitespace c (v ++ after) plain) in
    rw start (f ∙ sym e)
