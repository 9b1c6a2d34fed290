-- ===== src/Kernel/BuildInfo/Flags.antt =====
-- The flags of a `BuildInfo`: the words in capitals in front of the first other word.
use async_procfs.Prelude.{
  ◌≡◌, ◌∙◌, refl, ap, sym, All, true, false, ◌||◌, List, [], ◌∷◌, ◌++◌, arith, Text, codes, text_eq,
  text_eq_sound, if◌then◌else◌, ok, Bool-cases, inl, inr, >>=?-eq-ok, ok_or,
}
use async_procfs.Std.Strings.{split, all_chars, strip_prefix}
use async_procfs.Std.Maps.{add, contains}
use async_procfs.Env.{Env}
use async_procfs.Kernel.BuildInfo.{
  BuildInfo, is_uppercase, take_flags, with_words, parse_words, build_from_str, preemptrt,
  build_error,
}

-- Adding to a set adds that element and keeps the others.
pub contains-add :
    (k j : Text) (s : List Text) → contains k (add j s) ≡ (text_eq j k || contains k s)
unfolding contains add
contains-add k j [] = refl
contains-add k j (i ∷ s) = ground (arith, contains-add k j s, text_eq_sound i j)

abbrev pub rest_of : List Text → List Text
rest_of [] = []
rest_of (p ∷ ps) = ps

module _ (E : Env) where
  -- The words in capitals in front of the first word that is not.
  unfoldable pub uppercase_prefix : List Text → List Text
  uppercase_prefix [] = []
  uppercase_prefix (w ∷ ws) = if all_chars (is_uppercase E) w then w ∷ uppercase_prefix ws else []

  contains-take_flags :
      (k : Text) (ws fs : List Text)
      → contains k (take_flags E ws fs).flags ≡ (contains k fs || contains k (uppercase_prefix ws))
  unfolding take_flags uppercase_prefix contains
  contains-take_flags k [] fs = ground arith
  contains-take_flags k (w ∷ ws) fs = elim (Bool-cases (all_chars (is_uppercase E) w)) [
    | inl capital ↦
        rw capital (ground (arith, contains-take_flags k ws (add w fs), contains-add k w fs))
    | inr other ↦ rw other (ground arith)
  ]

  uppercase_prefix-append :
      (fs ws : List Text)
      → All (λ w. all_chars (is_uppercase E) w ≡ true) fs
      → uppercase_prefix (fs ++ (codes "PREEMPT_RT" ∷ ws)) ≡ fs
  unfolding uppercase_prefix all_chars is_uppercase
  uppercase_prefix-append [] ws h = refl
  uppercase_prefix-append (f ∷ fs) ws (h, hs) = rw (h, uppercase_prefix-append fs ws hs)

  -- A flag is set in what `BuildInfo::from_str` returns exactly if it is among the words in capitals
  -- that stand behind the first word of the text and in front of the first word not in capitals.
  pub build_from_str_flags :
      (s k : Text) (b : BuildInfo)
      → build_from_str E s ≡ ok b
      → contains k b.flags ≡ contains k (uppercase_prefix (rest_of (split b' ' s)))
  unfolding build_from_str
  build_from_str_flags s k b h = parse_words_flags (split b' ' s) h
    where
      parse_words_flags :
          (ws : List Text)
          → parse_words E ws ≡ ok b
          → contains k b.flags ≡ contains k (uppercase_prefix (rest_of ws))
      parse_words_flags [] h = unfold parse_words in cc h
      parse_words_flags (w ∷ ws) h =
          let (v, p, q) =
            >>=?-eq-ok (ok_or (build_error E) (strip_prefix b'#' w)) _ (unfold parse_words in h) in
          let e : with_words E v (take_flags E ws []) ≡ b = cc q in
          ap (λ (x : BuildInfo). contains k x.flags) (sym e)
          ∙ contains-take_flags k ws []
          ∙ unfold contains in refl

  -- Where `PREEMPT_RT` is the first word behind words in capitals none of which is `PREEMPTRT`, the
  -- check for a real-time kernel answers no.
  pub preemptrt_underscore :
      (fs ws : List Text) (s v : Text) (b : BuildInfo)
      → split b' ' s ≡ v ∷ (fs ++ (codes "PREEMPT_RT" ∷ ws))
      → All (λ w. all_chars (is_uppercase E) w ≡ true) fs
      → contains (codes "PREEMPTRT") fs ≡ false
      → build_from_str E s ≡ ok b
      → preemptrt b ≡ false
  unfolding preemptrt
  preemptrt_underscore fs ws s v b words capitals absent h =
      build_from_str_flags s (codes "PREEMPTRT") b h
      ∙ rw (words, uppercase_prefix-append fs ws capitals) absent
