-- ===== src/Std/Strings.antt =====
-- `str` and slice methods: trimming, splitting and joining.
pub mod Laws
pub mod Cuts
pub mod Words
pub mod Trim
use async_procfs.Prelude.{
  ℕ, Bool, true, ◌&&◌, Option, none, some, List, [], ◌∷◌, ◌++◌, Text, ◌==◌, if◌then◌else◌,
}
use async_procfs.Std.Chars.{is_whitespace, is_ascii_whitespace}

-- `trim_start_matches` and `trim_end_matches` for a test on characters.
unfoldable pub trim_start_by : (ℕ → Bool) → Text → Text
trim_start_by p [] = []
trim_start_by p (c ∷ s) = if p c then trim_start_by p s else c ∷ s

-- What is left of `c ∷ s` once `s` has lost its white end.
abbrev pub keep_before : (ℕ → Bool) → ℕ → Text → Text
keep_before p c [] = if p c then [] else c ∷ []
keep_before p c (d ∷ s) = c ∷ d ∷ s

unfoldable pub trim_end_by : (ℕ → Bool) → Text → Text
trim_end_by p [] = []
trim_end_by p (c ∷ s) = keep_before p c (trim_end_by p s)

unfoldable pub trim : Text → Text
unfolding trim_start_by trim_end_by
trim s = trim_end_by is_whitespace (trim_start_by is_whitespace s)

-- The first part grows by a character.
abbrev pub grow : ℕ → List Text → List Text
grow c [] = (c ∷ []) ∷ []
grow c (p ∷ ps) = (c ∷ p) ∷ ps

-- `split` at the characters (or bytes) that pass the test: always at least one part.
unfoldable pub split_by : (ℕ → Bool) → Text → List Text
split_by p [] = [] ∷ []
split_by p (c ∷ s) = if p c then [] ∷ split_by p s else grow c (split_by p s)

unfoldable pub split : ℕ → Text → List Text
unfolding split_by
split sep = split_by (λ c. c == sep)

-- The parts that are not empty.
abbrev pub nonempty : List Text → List Text
nonempty [] = []
nonempty ([] ∷ ps) = nonempty ps
nonempty ((c ∷ p) ∷ ps) = (c ∷ p) ∷ nonempty ps

unfoldable pub split_whitespace : Text → List Text
unfolding split_by
split_whitespace s = nonempty (split_by is_whitespace s)

unfoldable pub split_ascii_whitespace : Text → List Text
unfolding split_by
split_ascii_whitespace s = nonempty (split_by is_ascii_whitespace s)

-- `splitn(2, …)`: the text before the first separator, and what follows it if there is one.
unfoldable pub split_once : ℕ → Text → Text × Option Text
split_once sep [] = ([], none)
split_once sep (c ∷ s) =
    if c == sep then ([], some s) else (c ∷ (split_once sep s).0, (split_once sep s).1)

-- `[&str]::join`.
unfoldable pub join_with : ℕ → List Text → Text
join_with sep [] = []
join_with sep (p ∷ []) = p
join_with sep (p ∷ q ∷ ps) = p ++ (sep ∷ join_with sep (q ∷ ps))

-- `s.split_at(s.find(test))`'s first half, or all of `s` where nothing passes the test.
unfoldable pub before_first : (ℕ → Bool) → Text → Text
before_first p [] = []
before_first p (c ∷ s) = if p c then [] else c ∷ before_first p s

-- `chars().all(test)`.
unfoldable pub all_chars : (ℕ → Bool) → Text → Bool
all_chars p [] = true
all_chars p (c ∷ s) = p c && all_chars p s

-- `strip_prefix` of one character.
abbrev pub strip_prefix : ℕ → Text → Option Text
strip_prefix c [] = none
strip_prefix c (d ∷ s) = if d == c then some s else none
