-- ===== src/Process/Tasks/Listed.antt =====
-- `Task::children` for files of any text.
use async_procfs.Prelude.{
  ℕ, ◌<◌, ◌^◌, ◌≡◌, ◌↔◌, ◌⊎◌, refl, subst, inl, inr, List, [], ◌∷◌, Text, codes, ok, err, returned,
  failed, >>=?-eq-ok, map_err-eq-ok, Result-cases, arith,
}
use async_procfs.Std.Chars.{is_whitespace}
use async_procfs.Std.Strings.{split_whitespace}
use async_procfs.Std.Strings.Words.{HasWords, nonempty-split_by_iff}
use async_procfs.Std.Ints.{parse_uint}
use async_procfs.Std.Ints.Decimal.{SpellsNumber, parse_uint_iff}
use async_procfs.Env.{Env}
use async_procfs.Machine.{State}
use async_procfs.Procfs.{read_options}
use async_procfs.Process.Tasks.{Task, children, collect_numbers, parse_children, children_error}

-- The words spell the numbers, each of which is a `u32`.
abbrev pub SpellNumbers : List Text → List ℕ → Type 0
SpellNumbers [] [] = Unit
SpellNumbers [] (n ∷ ns) = ⊥
SpellNumbers (w ∷ ws) [] = ⊥
SpellNumbers (w ∷ ws) (n ∷ ns) = (SpellsNumber w n × (n < 2 ^ 32)) × SpellNumbers ws ns

abbrev pub Lists : Text → List ℕ → Type 0
Lists s ns = (ws : List Text) × HasWords is_whitespace s ws × SpellNumbers ws ns

module _ {ℓ} {F : Type ℓ} (failure : F) where
  collect_numbers-SpellNumbers :
      (ws : List Text) (ns : List ℕ) → collect_numbers failure ws ≡ ok ns → SpellNumbers ws ns
  unfolding collect_numbers
  collect_numbers-SpellNumbers [] [] h = tt
  collect_numbers-SpellNumbers [] (n ∷ ns) h = cc
  collect_numbers-SpellNumbers (w ∷ ws) ns h =
      let (n, p, h) = >>=?-eq-ok _ _ h in
      let (more, q, h) = >>=?-eq-ok _ _ h in
      let same : n ∷ more ≡ ns = cc in
      subst (SpellNumbers (w ∷ ws)) same (
        (parse_uint_iff 32 w n).0 (map_err-eq-ok _ (parse_uint 32 w) p),
        collect_numbers-SpellNumbers ws more q,
      )

  SpellNumbers-collect_numbers :
      (ws : List Text) (ns : List ℕ) → SpellNumbers ws ns → collect_numbers failure ws ≡ ok ns
  unfolding collect_numbers
  SpellNumbers-collect_numbers [] [] h = refl
  SpellNumbers-collect_numbers [] (n ∷ ns) h = absurd h
  SpellNumbers-collect_numbers (w ∷ ws) [] h = absurd h
  SpellNumbers-collect_numbers (w ∷ ws) (n ∷ ns) (here, later) =
      rw ((parse_uint_iff 32 w n).1 here, SpellNumbers-collect_numbers ws ns later) refl

  collect_numbers-failure :
      (ws : List Text)
      → ((ns : List ℕ) × (collect_numbers failure ws ≡ ok ns))
        ⊎ (collect_numbers failure ws ≡ err failure)
  unfolding collect_numbers
  collect_numbers-failure [] = inl ([], refl)
  collect_numbers-failure (w ∷ ws) = elim (Result-cases (parse_uint 32 w)) [
    | inr (e, p) ↦ inr (rw p refl)
    | inl (n, p) ↦ elim (collect_numbers-failure ws) [
      | inl (ns, q) ↦ inl (n ∷ ns, rw (p, q) refl)
      | inr q ↦ inr (rw (p, q) refl)
    ]
  ]

module _ (E : Env) where
  parse_children_iff : (s : Text) (ns : List ℕ) → (parse_children E s ≡ ok ns) ↔ Lists s ns
  unfolding parse_children split_whitespace
  parse_children_iff s ns = (listed, read)
    where
      listed : parse_children E s ≡ ok ns → Lists s ns
      listed h = (
        split_whitespace s,
        (nonempty-split_by_iff is_whitespace s (split_whitespace s)).0 refl,
        collect_numbers-SpellNumbers (children_error E) (split_whitespace s) ns h,
      )

      read : Lists s ns → parse_children E s ≡ ok ns
      read (ws, words, spelled) =
          rw ((nonempty-split_by_iff is_whitespace s ws).1 words)
            (SpellNumbers-collect_numbers (children_error E) ws ns spelled)

  parse_children-failure :
      (s : Text)
      → ((ns : List ℕ) × (parse_children E s ≡ ok ns))
        ⊎ (parse_children E s ≡ err (children_error E))
  unfolding parse_children
  parse_children-failure s = collect_numbers-failure (children_error E) (split_whitespace s)

  -- Where the file of the children can be opened and read, whatever text it holds: either its words, with any
  -- white space around them, are numerals, with or without a plus sign in front, of `u32` numbers, and
  -- `children` returns those numbers in the order of the words, or they are not, for any numbers, and it
  -- fails with the error that says so.
  pub children_cases :
      (t : Task E.File) (file : E.File) (text : Text) (s : State E.World) (w₁ w₂ : E.World)
      → E.open_at t.fd (codes "children") (read_options E) s.world ≡ returned file w₁
      → E.read_to_string file w₁ ≡ returned text w₂
      → ((ns : List ℕ) × Lists text ns × (children E t s ≡ returned ns (record s { world = w₂ })))
        ⊎ (((ns : List ℕ) → Lists text ns → ⊥)
            × (children E t s ≡ failed (children_error E) (record s { world = w₂ })))
  unfolding children
  children_cases t file text s w₁ w₂ opened read = elim (parse_children-failure text) [
    | inl (ns, p) ↦ inl (ns, (parse_children_iff text ns).0 p, ground arith)
    | inr p ↦
        inr ((λ ns listed. absurd (cc (p, (parse_children_iff text ns).1 listed))), ground arith)
  ]
