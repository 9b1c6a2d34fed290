-- ===== src/Std/Strings/Laws.antt =====
-- Splitting undoes joining, and trimming takes white space off and nothing else.
use async_procfs.Prelude.{
  ℕ, ◌≡◌, ◌≢◌, refl, ◌∙◌, ap, Bool, true, false, none, some, List, [], ◌∷◌, ◌++◌, append-nil, arith,
  Text, ◌==◌, All,
}
use async_procfs.Std.Chars.{is_whitespace}
use async_procfs.Std.Strings.{
  trim, trim_start_by, trim_end_by, keep_before, split_by, split, nonempty, split_once, join_with,
  before_first,
}

-- No character of the text passes the test.
abbrev pub Free : (ℕ → Bool) → Text → Type 0
Free p = All (λ c. p c ≡ false)

abbrev pub Full : (ℕ → Bool) → Text → Type 0
Full p = All (λ c. p c ≡ true)

module _ (p : ℕ → Bool) where
  trim_start_by-Full : (w s : Text) → Full p w → trim_start_by p (w ++ s) ≡ trim_start_by p s
  unfolding trim_start_by
  trim_start_by-Full [] s h = refl
  trim_start_by-Full (c ∷ w) s (h, hs) = rw h (trim_start_by-Full w s hs)

  pub trim_start_by-Free : (c : ℕ) (s : Text) → p c ≡ false → trim_start_by p (c ∷ s) ≡ c ∷ s
  unfolding trim_start_by
  trim_start_by-Free c s h = rw h

  trim_end_by-Full : (w : Text) → Full p w → trim_end_by p w ≡ []
  unfolding trim_end_by
  trim_end_by-Full [] h = refl
  trim_end_by-Full (c ∷ w) (h, hs) = rw (trim_end_by-Full w hs, h)

  pub trim_end_by-Free : (s w : Text) → Free p s → Full p w → trim_end_by p (s ++ w) ≡ s
  unfolding trim_end_by
  trim_end_by-Free [] w h k = trim_end_by-Full w k
  trim_end_by-Free (c ∷ s) w (h, hs) k = rw (trim_end_by-Free s w hs k) (keep_lem c s h)
    where
      keep_lem : (c : ℕ) (s : Text) → p c ≡ false → keep_before p c s ≡ c ∷ s
      keep_lem c [] h = rw h
      keep_lem c (d ∷ s) h = refl

  -- A part with no separator in it, up to the next one or to the end.
  pub split_by-Free : (s : Text) → Free p s → split_by p s ≡ s ∷ []
  unfolding split_by
  split_by-Free [] h = refl
  split_by-Free (c ∷ s) (h, hs) = rw (h, split_by-Free s hs)

  pub split_by-append :
      (s : Text) (c : ℕ) (rest : Text)
      → Free p s
      → p c ≡ true
      → split_by p (s ++ c ∷ rest) ≡ s ∷ split_by p rest
  unfolding split_by
  split_by-append [] c rest h k = rw k
  split_by-append (d ∷ s) c rest (h, hs) k = rw (h, split_by-append s c rest hs k)

  pub before_first-Free : (s : Text) → Free p s → before_first p s ≡ s
  unfolding before_first
  before_first-Free [] h = refl
  before_first-Free (c ∷ s) (h, hs) = rw (h, before_first-Free s hs)

  pub before_first-append :
      (s : Text) (c : ℕ) (rest : Text) → Free p s → p c ≡ true → before_first p (s ++ c ∷ rest) ≡ s
  unfolding before_first
  before_first-append [] c rest h k = rw k
  before_first-append (d ∷ s) c rest (h, hs) k = rw (h, before_first-append s c rest hs k)

-- White space around a word is trimmed, and the word is kept.
pub trim_word :
    (before word after : Text)
    → Full is_whitespace before
    → Free is_whitespace word
    → Full is_whitespace after
    → word ≢ []
    → trim (before ++ (word ++ after)) ≡ word
unfolding trim
trim_word before [] after h k l e = absurd (e refl)
trim_word before (c ∷ word) after h k l e =
    rw (trim_start_by-Full, trim_start_by-Free is_whitespace c (word ++ after) k.0)
      (trim_end_by-Free is_whitespace (c ∷ word) after k l)

-- A word with no white space in it is its own trim.
pub trim-Free : (word : Text) → Free is_whitespace word → word ≢ [] → trim word ≡ word
trim-Free word h e = rw (append-nil) at (trim_word [] word [] tt h tt e)

pub trim-Full : (w : Text) → Full is_whitespace w → trim w ≡ []
unfolding trim
trim-Full w h = rw (← append-nil w) (rw (trim_start_by-Full is_whitespace w [] h))

-- The tests by which `split` cuts.
abbrev pub is_sep : ℕ → ℕ → Bool
is_sep sep c = c == sep

-- Every part behind its own terminator.
abbrev pub terminated : ℕ → List Text → Text
terminated sep [] = []
terminated sep (p ∷ ps) = p ++ (sep ∷ terminated sep ps)

-- The same parts, each ended by any character at which the text is cut.
pub split_by-terminated :
    (p : ℕ → Bool) (sep : ℕ) (ps : List Text)
    → p sep ≡ true
    → All (Free p) ps
    → split_by p (terminated sep ps) ≡ ps ++ [] ∷ []
unfolding split_by
split_by-terminated p sep [] cuts h = refl
split_by-terminated p sep (w ∷ ps) cuts (h, hs) =
    split_by-append p w sep (terminated sep ps) h cuts
    ∙ ap (λ (t : List Text). w ∷ t) (split_by-terminated p sep ps cuts hs)

-- Parts joined by any character at which the text is cut.
pub split_by-join_with :
    (p : ℕ → Bool) (sep : ℕ) (ps : List Text)
    → p sep ≡ true
    → All (Free p) ps
    → ps ≢ []
    → split_by p (join_with sep ps) ≡ ps
unfolding join_with
split_by-join_with p sep [] cuts h e = absurd (e refl)
split_by-join_with p sep (w ∷ []) cuts (h, hs) e = split_by-Free p w h
split_by-join_with p sep (w ∷ v ∷ ps) cuts (h, hs) e =
    split_by-append p w sep (join_with sep (v ∷ ps)) h cuts
    ∙ ap (λ (t : List Text). w ∷ t) (split_by-join_with p sep (v ∷ ps) cuts hs (cc))

module _ (sep : ℕ) where
  sep-is_sep : is_sep sep sep ≡ true
  sep-is_sep = ground arith

  pub split-terminated :
      (ps : List Text) → All (Free (is_sep sep)) ps → split sep (terminated sep ps) ≡ ps ++ [] ∷ []
  unfolding split
  split-terminated ps h = split_by-terminated (is_sep sep) sep ps sep-is_sep h

  pub split-join_with :
      (ps : List Text) → All (Free (is_sep sep)) ps → ps ≢ [] → split sep (join_with sep ps) ≡ ps
  unfolding split
  split-join_with ps h e = split_by-join_with (is_sep sep) sep ps sep-is_sep h e

  pub split_once-append :
      (k v : Text) → Free (is_sep sep) k → split_once sep (k ++ sep ∷ v) ≡ (k, some v)
  unfolding split_once
  split_once-append [] v h = rw sep-is_sep
  split_once-append (c ∷ k) v (h, hs) = rw (h, split_once-append k v hs)

  pub split_once-Free : (k : Text) → Free (is_sep sep) k → split_once sep k ≡ (k, none)
  unfolding split_once
  split_once-Free [] h = refl
  split_once-Free (c ∷ k) (h, hs) = rw (h, split_once-Free k hs)

pub nonempty-append_nil : (ps : List Text) → nonempty (ps ++ [] ∷ []) ≡ nonempty ps
nonempty-append_nil [] = refl
nonempty-append_nil ([] ∷ ps) = nonempty-append_nil ps
nonempty-append_nil ((c ∷ p) ∷ ps) = ap (λ (t : List Text). (c ∷ p) ∷ t) (nonempty-append_nil ps)

pub nonempty-All : (ps : List Text) → All (λ p. p ≢ []) ps → nonempty ps ≡ ps
nonempty-All [] h = refl
nonempty-All ([] ∷ ps) (h, hs) = absurd (h refl)
nonempty-All ((c ∷ p) ∷ ps) (h, hs) = ap (λ (t : List Text). (c ∷ p) ∷ t) (nonempty-All ps hs)

pub nonempty-full : (ps : List Text) → All (λ p. p ≢ []) (nonempty ps)
nonempty-full [] = tt
nonempty-full ([] ∷ ps) = nonempty-full ps
nonempty-full ((c ∷ p) ∷ ps) = ((λ e. cc), nonempty-full ps)
