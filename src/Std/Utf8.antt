-- ===== src/Std/Utf8.antt =====
-- UTF-8 text behind an `OsStr`: `to_str`, which refuses ill-formed bytes, and `to_string_lossy`,
-- which puts U+FFFD in place of each maximal ill-formed part. The decoder reads byte by byte.
use async_procfs.Prelude.{
  All, ap, map, ◌<◌, ◌/◌, ◌%◌, arith, ℕ, ◌+◌, ◌-◌, ◌*◌, ◌≡◌, refl, ◌&&◌, Option, none, some, List,
  [], ◌∷◌, ◌++◌, if◌then◌else◌, leb, ltb, ◌==◌, Text, Bytes,
}

-- Between characters, or inside one: the bytes still missing, the value so far, and the range that
-- the next byte must lie in.
pub data Decoder : Type 0 where
  ready : Decoder
  inside : ℕ → ℕ → ℕ → ℕ → Decoder

-- What a byte completes (`none` for an ill-formed part), and the next state.
abbrev pub Output : Type 0
Output = List (Option ℕ) × Decoder

unfoldable pub first_byte : ℕ → Output
first_byte b =
    if ltb b 0x80
    then (some b ∷ [], ready)
    else if leb 0xc2 b && leb b 0xdf
    then ([], inside 1 (b - 0xc0) 0x80 0xbf)
    else if b == 0xe0
    then ([], inside 2 0 0xa0 0xbf)
    else if b == 0xed
    then ([], inside 2 0xd 0x80 0x9f)
    else if leb 0xe1 b && leb b 0xef
    then ([], inside 2 (b - 0xe0) 0x80 0xbf)
    else if b == 0xf0
    then ([], inside 3 0 0x90 0xbf)
    else if b == 0xf4
    then ([], inside 3 4 0x80 0x8f)
    else if leb 0xf1 b && leb b 0xf3
    then ([], inside 3 (b - 0xf0) 0x80 0xbf)
    else (none ∷ [], ready)

-- A byte out of range ends the ill-formed part and is read as a first byte.
unfoldable pub next_byte : ℕ → ℕ → ℕ → ℕ → ℕ → Output
unfolding first_byte
next_byte missing value lo hi b =
    if leb lo b && leb b hi
    then if missing == 1
      then (some (value * 64 + (b - 0x80)) ∷ [], ready)
      else ([], inside (missing - 1) (value * 64 + (b - 0x80)) 0x80 0xbf)
    else (none ∷ (first_byte b).0, (first_byte b).1)

unfoldable pub step : Decoder → ℕ → Output
unfolding next_byte
step ready b = first_byte b
step (inside missing value lo hi) b = next_byte missing value lo hi b

unfoldable pub decode : Decoder → Bytes → List (Option ℕ)
unfolding step
decode ready [] = []
decode (inside missing value lo hi) [] = none ∷ []
decode d (b ∷ bs) = (step d b).0 ++ decode (step d b).1 bs

abbrev pub replace_ill_formed : List (Option ℕ) → Text
replace_ill_formed [] = []
replace_ill_formed (none ∷ cs) = 0xfffd ∷ replace_ill_formed cs
replace_ill_formed (some c ∷ cs) = c ∷ replace_ill_formed cs

abbrev pub cons_opt : ℕ → Option Text → Option Text
cons_opt c none = none
cons_opt c (some s) = some (c ∷ s)

abbrev pub all_well_formed : List (Option ℕ) → Option Text
all_well_formed [] = some []
all_well_formed (none ∷ cs) = none
all_well_formed (some c ∷ cs) = cons_opt c (all_well_formed cs)

unfoldable pub to_string_lossy : Bytes → Text
unfolding decode
to_string_lossy bs = replace_ill_formed (decode ready bs)

unfoldable pub to_str : Bytes → Option Text
unfolding decode
to_str bs = all_well_formed (decode ready bs)

-- The bytes of one character, and `str::as_bytes`.
unfoldable pub encode_char : ℕ → Bytes
encode_char c =
    if ltb c 0x80
    then c ∷ []
    else if ltb c 0x800
    then (0xc0 + c / 64) ∷ (0x80 + c % 64) ∷ []
    else if ltb c 0x10000
    then (0xe0 + c / 4096) ∷ (0x80 + c / 64 % 64) ∷ (0x80 + c % 64) ∷ []
    else (0xf0 + c / 262144) ∷ (0x80 + c / 4096 % 64) ∷ (0x80 + c / 64 % 64) ∷ (0x80 + c % 64) ∷ []

unfoldable pub as_bytes : Text → Bytes
unfolding encode_char
as_bytes [] = []
as_bytes (c ∷ s) = encode_char c ++ as_bytes s

-- ASCII text is its own bytes, and is decoded to itself.
pub as_bytes_of_ascii : (s : Text) → All (λ c. c < 0x80) s → as_bytes s ≡ s
unfolding as_bytes
as_bytes_of_ascii [] h = refl
as_bytes_of_ascii (c ∷ s) (h, hs) = ground (arith, as_bytes_of_ascii s hs)

decode_of_ascii : (s : Bytes) → All (λ c. c < 0x80) s → decode ready s ≡ map some s
unfolding decode
decode_of_ascii [] h = refl
decode_of_ascii (c ∷ s) (h, hs) = ground (arith, decode_of_ascii s hs)

pub to_string_lossy_of_ascii : (s : Bytes) → All (λ c. c < 0x80) s → to_string_lossy s ≡ s
to_string_lossy_of_ascii s h = unfold to_string_lossy in rw (decode_of_ascii s h) (replace_some s)
  where
    replace_some : (s : Bytes) → replace_ill_formed (map some s) ≡ s
    replace_some [] = refl
    replace_some (c ∷ s) = ap (λ (t : Text). c ∷ t) (replace_some s)

two_bytes : to_str (0x63 ∷ 0xc3 ∷ 0xa9 ∷ []) ≡ some (0x63 ∷ 0xe9 ∷ [])
unfolding to_str
two_bytes = refl

-- A truncated three-byte character is one replacement, and what follows it is kept.
truncated : to_string_lossy (0xe2 ∷ 0x82 ∷ 0x41 ∷ 0xff ∷ []) ≡ 0xfffd ∷ 0x41 ∷ 0xfffd ∷ []
unfolding to_string_lossy
truncated = refl
