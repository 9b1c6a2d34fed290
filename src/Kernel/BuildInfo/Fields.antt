-- ===== src/Kernel/BuildInfo/Fields.antt =====
-- The version and the extra text of a `BuildInfo`, and the number in the version.
use async_procfs.Prelude.{
  ℕ, append_assoc, ◌<◌, ◌^◌, ◌≡◌, ◌∙◌, refl, ap, not, true, false, List, [], ◌∷◌, ◌++◌, append-nil,
  arith, Text, codes, All, All-weaken, ◌==◌, ◌↔◌, ok, err, Bool-cases, inl, inr, map_err,
}
use async_procfs.Std.Chars.{is_ascii_digit, IsDigit}
use async_procfs.Std.Strings.{split, grow, all_chars, join_with}
use async_procfs.Std.Strings.Laws.{
  Free, is_sep, split-join_with, before_first-Free, before_first-append,
}
use async_procfs.Std.Ints.{show_uint, parse_uint}
use async_procfs.Std.Ints.RoundTrip.{show_uint-All, parse_uint-show_uint}
use async_procfs.Std.Maps.{add}
use async_procfs.Env.{Env}
use async_procfs.Kernel.BuildInfo.{
  BuildInfo, build_info, is_uppercase, take_flags, with_words, parse_words, build_from_str,
  build_error, version_digits, version_number,
}

-- The set that the words make, one after the other.
abbrev pub add_all : List Text → List Text → List Text
add_all [] s = s
add_all (f ∷ fs) s = add_all fs (add f s)

-- What may stand behind the number of a version: nothing, or text that does not begin with a digit.
abbrev pub Ends : Text → Type 0
Ends [] = Unit
Ends (c ∷ _) = is_ascii_digit c ≡ false

IsDigit-digit : (c : ℕ) → IsDigit c → not (is_ascii_digit c) ≡ false
unfolding is_ascii_digit
IsDigit-digit c h = ground arith

digits-Free : (s : Text) → All IsDigit s → Free (λ c. not (is_ascii_digit c)) s
digits-Free = All-weaken IsDigit _ IsDigit-digit

module _ (E : Env) where
  take_flags-append :
      (fs ws s : List Text) (w : Text)
      → All (λ f. all_chars (is_uppercase E) f ≡ true) fs
      → all_chars (is_uppercase E) w ≡ false
      → take_flags E (fs ++ (w ∷ ws)) s
        ≡ record { flags = add_all fs s; extra = w ++ (b' ' ∷ []); remains = ws }
  unfolding take_flags
  take_flags-append [] ws s w h k = rw k
  take_flags-append (f ∷ fs) ws s w (h, hs) k = rw h (take_flags-append fs ws (add f s) w hs k)

  -- A text of words with single spaces between them, the first of which begins with a hash sign, is
  -- taken apart into the version behind the hash sign, the words in capitals that follow it as a set,
  -- and the rest from the first word not in capitals on, with a space behind that word also where it
  -- is the last.
  pub build_from_str_lem :
      (v w : Text) (fs ws : List Text)
      → All (Free (is_sep b' ')) (((b'#' ∷ v) ∷ fs) ++ (w ∷ ws))
      → All (λ f. all_chars (is_uppercase E) f ≡ true) fs
      → all_chars (is_uppercase E) w ≡ false
      → build_from_str E (join_with b' ' (((b'#' ∷ v) ∷ fs) ++ (w ∷ ws)))
        ≡ ok (build_info v (add_all fs []) (w ++ (b' ' ∷ join_with b' ' ws)))
  build_from_str_lem v w fs ws spaces capitals other =
      build_from_str_split (join_with b' ' (((b'#' ∷ v) ∷ fs) ++ (w ∷ ws)))
      ∙ ap (parse_words E) (split-join_with b' ' (((b'#' ∷ v) ∷ fs) ++ (w ∷ ws)) spaces (cc))
      ∙ parse_words_lem
    where
      build_from_str_split : (s : Text) → build_from_str E s ≡ parse_words E (split b' ' s)
      build_from_str_split s = unfold build_from_str in refl

      parse_words_lem :
          parse_words E (((b'#' ∷ v) ∷ fs) ++ (w ∷ ws))
          ≡ ok (build_info v (add_all fs []) (w ++ (b' ' ∷ join_with b' ' ws)))
      parse_words_lem =
          unfold parse_words with_words in
          rw (take_flags-append fs ws [] w capitals other) (rw append_assoc)

  accepts_words :
      (v : Text) (ws : List Text) → (b : BuildInfo) × (parse_words E ((b'#' ∷ v) ∷ ws) ≡ ok b)
  accepts_words v ws = (with_words E v (take_flags E ws []), unfold parse_words in refl)

  refuses_words :
      (c : ℕ) (v : Text) (ws : List Text)
      → (c == b'#') ≡ false
      → parse_words E ((c ∷ v) ∷ ws) ≡ err (build_error E)
  refuses_words c v ws h = unfold parse_words in rw h

  -- The first word of a text begins with the first character, unless that is a space.
  grow_lem : (c : ℕ) (ps : List Text) → (v : Text) × (ws : List Text) × (grow c ps ≡ (c ∷ v) ∷ ws)
  grow_lem c [] = ([], [], refl)
  grow_lem c (p ∷ ps) = (p, ps, refl)

  pub split-hash :
      (s : Text) → (v : Text) × (ws : List Text) × (split b' ' (b'#' ∷ s) ≡ (b'#' ∷ v) ∷ ws)
  split-hash s = unfold split in grow_lem b'#' (split b' ' s)

  refuses_nil : build_from_str E [] ≡ err (build_error E)
  unfolding build_from_str split
  refuses_nil = refl

  refuses_first :
      (c : ℕ) (s : Text) → (c == b'#') ≡ false → build_from_str E (c ∷ s) ≡ err (build_error E)
  unfolding split
  refuses_first c s h = elim (Bool-cases (c == b' ')) [
    | inl space ↦ unfold build_from_str in rw space refl
    | inr word ↦
        let (v, ws, e) = grow_lem c (split b' ' s) in unfold build_from_str in rw (word, e, h)
  ]

  -- A text is accepted exactly if it begins with a hash sign.
  pub build_from_str_accepts :
      (s : Text) → ((b : BuildInfo) × (build_from_str E s ≡ ok b)) ↔ ((v : Text) × (s ≡ b'#' ∷ v))
  build_from_str_accepts s = (begins s, accepted)
    where
      begins :
          (s : Text) → (b : BuildInfo) × (build_from_str E s ≡ ok b) → (v : Text) × (s ≡ b'#' ∷ v)
      begins [] (b, h) = absurd (ground (arith, refuses_nil))
      begins (c ∷ s) (b, h) = elim (Bool-cases (c == b'#')) [
        | inl hash ↦ (s, ground arith)
        | inr other ↦ absurd (ground (arith, refuses_first c s other))
      ]

      accepted : (v : Text) × (s ≡ b'#' ∷ v) → (b : BuildInfo) × (build_from_str E s ≡ ok b)
      accepted (t, e) =
          let (v, ws, cut) = split-hash t in
          let (b, h) = accepts_words v ws in (b, rw e (unfold build_from_str in rw cut h))

  version_digits-append :
      (s rest : Text) → All IsDigit s → Ends rest → version_digits (s ++ rest) ≡ s
  unfolding version_digits
  version_digits-append s [] digits ends =
      rw append-nil (before_first-Free (λ c. not (is_ascii_digit c)) s (digits-Free s digits))
  version_digits-append s (c ∷ rest) digits ends =
      before_first-append (λ c. not (is_ascii_digit c)) s c rest (digits-Free s digits) (rw ends)

  -- The version number is the `u32` that the version begins with, if no digit follows it.
  pub version_number_lem :
      (n : ℕ) (rest : Text) (fs : List Text) (extra : Text)
      → n < 2 ^ 32
      → Ends rest
      → version_number E (build_info (show_uint n ++ rest) fs extra) ≡ ok n
  version_number_lem n rest fs extra fits ends =
      version_number_unfold (build_info (show_uint n ++ rest) fs extra)
      ∙ rw (
        version_digits-append (show_uint n) rest (show_uint-All n) ends,
        parse_uint-show_uint 32 n fits,
      )
    where
      version_number_unfold :
          (b : BuildInfo)
          → version_number E b
            ≡ map_err
                (λ _. E.from_message (codes "Failed to parse version number"))
                (parse_uint 32 (version_digits b.version))
      version_number_unfold b = unfold version_number in refl
