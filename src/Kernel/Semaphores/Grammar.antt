-- ===== src/Kernel/Semaphores/Grammar.antt =====
-- The texts that `SemaphoreLimits::from_str` accepts.
use async_procfs.Prelude.{
  ℕ, ◌<◌, ◌^◌, ◌≡◌, ◌↔◌, refl, subst, List, [], ◌∷◌, Text, codes, ok, returned, arith, >>=?-eq-ok,
  map_err-eq-ok,
}
use async_procfs.Std.Chars.{is_ascii_whitespace}
use async_procfs.Std.Strings.{split_ascii_whitespace, trim}
use async_procfs.Std.Strings.Words.{HasWords, nonempty-split_by_iff}
use async_procfs.Std.Ints.{parse_uint}
use async_procfs.Std.Ints.Decimal.{SpellsNumber, parse_uint_iff}
use async_procfs.Env.{Env}
use async_procfs.Machine.{State}
use async_procfs.Procfs.{AsyncProcfs, read_options}
use async_procfs.Helpers.{read_value, read_file}
use async_procfs.Kernel.Semaphores.{
  SemaphoreLimits, parse_fields, parse_words, limits_from_str, current_limits,
}

-- The word spells the number, which is a `u64`.
abbrev pub IsU64 : Text → ℕ → Type 0
IsU64 w n = SpellsNumber w n × (n < 2 ^ 64)

-- The first four words spell the fields in their order. More words may follow.
abbrev pub SpellFields : List Text → SemaphoreLimits → Type 0
SpellFields [] l = ⊥
SpellFields (a ∷ []) l = ⊥
SpellFields (a ∷ b ∷ []) l = ⊥
SpellFields (a ∷ b ∷ c ∷ []) l = ⊥
SpellFields (a ∷ b ∷ c ∷ d ∷ more) l =
    IsU64 a l.semmsl × IsU64 b l.semmns × IsU64 c l.semopm × IsU64 d l.semmni

abbrev pub SpellsLimits : Text → SemaphoreLimits → Type 0
SpellsLimits s l = (ws : List Text) × HasWords is_ascii_whitespace s ws × SpellFields ws l

parse_words-SpellFields :
    (ws : List Text) (l : SemaphoreLimits) → parse_words ws ≡ ok l → SpellFields ws l
unfolding parse_words parse_fields
parse_words-SpellFields [] l h = absurd (cc)
parse_words-SpellFields (a ∷ []) l h = absurd (cc)
parse_words-SpellFields (a ∷ b ∷ []) l h = absurd (cc)
parse_words-SpellFields (a ∷ b ∷ c ∷ []) l h = absurd (cc)
parse_words-SpellFields (a ∷ b ∷ c ∷ d ∷ more) l h =
    let (x, p, h) = >>=?-eq-ok _ _ h in
    let (y, q, h) = >>=?-eq-ok _ _ h in
    let (z, r, h) = >>=?-eq-ok _ _ h in
    let (w, u, h) = >>=?-eq-ok _ _ h in
    let made : record { semmsl = x; semmns = y; semopm = z; semmni = w } ≡ l = cc in
    subst (SpellFields (a ∷ b ∷ c ∷ d ∷ more)) made (
      (parse_uint_iff 64 a x).0 (map_err-eq-ok _ (parse_uint 64 a) p),
      (parse_uint_iff 64 b y).0 (map_err-eq-ok _ (parse_uint 64 b) q),
      (parse_uint_iff 64 c z).0 (map_err-eq-ok _ (parse_uint 64 c) r),
      (parse_uint_iff 64 d w).0 (map_err-eq-ok _ (parse_uint 64 d) u),
    )

SpellFields-parse_words :
    (ws : List Text) (l : SemaphoreLimits) → SpellFields ws l → parse_words ws ≡ ok l
unfolding parse_words parse_fields
SpellFields-parse_words [] l h = absurd h
SpellFields-parse_words (a ∷ []) l h = absurd h
SpellFields-parse_words (a ∷ b ∷ []) l h = absurd h
SpellFields-parse_words (a ∷ b ∷ c ∷ []) l h = absurd h
SpellFields-parse_words (a ∷ b ∷ c ∷ d ∷ more) l (x, y, z, w) =
    rw
      (
        (parse_uint_iff 64 a l.semmsl).1 x,
        (parse_uint_iff 64 b l.semmns).1 y,
        (parse_uint_iff 64 c l.semopm).1 z,
        (parse_uint_iff 64 d l.semmni).1 w,
      )
      refl

limits_from_str_iff :
    (s : Text) (l : SemaphoreLimits) → (limits_from_str s ≡ ok l) ↔ SpellsLimits s l
unfolding limits_from_str split_ascii_whitespace
limits_from_str_iff s l = (spelled, read)
  where
    spelled : limits_from_str s ≡ ok l → SpellsLimits s l
    spelled h = (
      split_ascii_whitespace s,
      (nonempty-split_by_iff is_ascii_whitespace s (split_ascii_whitespace s)).0 refl,
      parse_words-SpellFields (split_ascii_whitespace s) l h,
    )

    read : SpellsLimits s l → limits_from_str s ≡ ok l
    read (ws, words, fields) =
        rw ((nonempty-split_by_iff is_ascii_whitespace s ws).1 words)
          (SpellFields-parse_words ws l fields)

-- Where the file can be opened and read, whatever text it holds, the limits are returned exactly if the text,
-- with the white space at its ends taken off, is made up of words with ASCII white space around them,
-- of which the first four are numerals, with or without a plus sign in front, of `u64` numbers; they are
-- those numbers in their order.
pub current_limits_iff :
    (E : Env) (procfs : AsyncProcfs E.File) (file : E.File) (text : Text) (l : SemaphoreLimits)
    (s : State E.World) (w₁ w₂ : E.World)
    → E.open_at procfs.file (codes "sys/kernel/sem") (read_options E) s.world ≡ returned file w₁
    → E.hybrid_read_to_string file w₁ ≡ returned text w₂
    → (current_limits E procfs s ≡ returned l (record s { world = w₂ }))
      ↔ SpellsLimits (trim text) l
unfolding current_limits read_value read_file
current_limits_iff E procfs file text l s w₁ w₂ opened read = (spelled, made)
  where
    spelled :
        current_limits E procfs s ≡ returned l (record s { world = w₂ })
        → SpellsLimits (trim text) l
    spelled h = (limits_from_str_iff (trim text) l).0 (ground arith)

    made :
        SpellsLimits (trim text) l
        → current_limits E procfs s ≡ returned l (record s { world = w₂ })
    made h = ground (arith, (limits_from_str_iff (trim text) l).1 h)
