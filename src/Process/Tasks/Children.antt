-- ===== src/Process/Tasks/Children.antt =====
-- `Task::children` on the numbers that the kernel prints, and on other words.
use async_procfs.Prelude.{
  arith, codes, returned, ℕ, map, ◌<◌, ◌^◌, ◌≡◌, ◌≢◌, refl, true, List, [], ◌∷◌, ◌++◌, Text, All,
  ok, err, Result-cases, inl, inr,
}
use async_procfs.Std.Chars.{is_whitespace}
use async_procfs.Std.Strings.{split_whitespace}
use async_procfs.Std.Strings.Laws.{
  Free, terminated, split_by-terminated, nonempty-append_nil, nonempty-All,
}
use async_procfs.Std.Ints.{show_uint, parse_uint, ParseIntError}
use async_procfs.Std.Ints.RoundTrip.{show_uint-ne-nil, parse_uint-show_uint}
use async_procfs.Env.{Env}
use async_procfs.Machine.{State}
use async_procfs.Procfs.{read_options}
use async_procfs.Helpers.RoundTrip.{show_uint-Free}
use async_procfs.Process.Tasks.{Task, children, collect_numbers, parse_children, children_error}

numbers-Free : (ns : List ℕ) → All (Free is_whitespace) (map show_uint ns)
numbers-Free [] = tt
numbers-Free (n ∷ ns) = (show_uint-Free n, numbers-Free ns)

numbers-ne-nil : (ns : List ℕ) → All (λ p. p ≢ []) (map show_uint ns)
numbers-ne-nil [] = tt
numbers-ne-nil (n ∷ ns) = (show_uint-ne-nil n, numbers-ne-nil ns)

collect_numbers-show {ℓ} :
    {F : Type ℓ} (failure : F) (ns : List ℕ)
    → All (λ n. n < 2 ^ 32) ns
    → collect_numbers failure (map show_uint ns) ≡ ok ns
unfolding collect_numbers
collect_numbers-show failure [] h = refl
collect_numbers-show failure (n ∷ ns) (h, hs) =
    rw (parse_uint-show_uint 32 n h, collect_numbers-show failure ns hs)

-- The `u32` numbers that a file holds, each with a white space character behind it, are read in their
-- order.
pub parse_children_lem :
    (E : Env) (sep : ℕ) (ns : List ℕ)
    → is_whitespace sep ≡ true
    → All (λ n. n < 2 ^ 32) ns
    → parse_children E (terminated sep (map show_uint ns)) ≡ ok ns
unfolding parse_children split_whitespace
parse_children_lem E sep ns space fits = rw (
  split_by-terminated is_whitespace sep (map show_uint ns) space (numbers-Free ns),
  nonempty-append_nil (map show_uint ns),
  nonempty-All (map show_uint ns) (numbers-ne-nil ns),
  collect_numbers-show (children_error E) ns fits,
)

-- Where the file of the children can be opened and holds `u32` numbers, each with a white space character
-- behind it, `children` returns them in their order.
pub children_lem :
    (E : Env) (t : Task E.File) (file : E.File) (sep : ℕ) (ns : List ℕ) (s : State E.World)
    (w₁ w₂ : E.World)
    → E.open_at t.fd (codes "children") (read_options E) s.world ≡ returned file w₁
    → E.read_to_string file w₁ ≡ returned (terminated sep (map show_uint ns)) w₂
    → is_whitespace sep ≡ true
    → All (λ n. n < 2 ^ 32) ns
    → children E t s ≡ returned ns (record s { world = w₂ })
unfolding children
children_lem E t file sep ns s w₁ w₂ opened read space fits =
    ground (arith, parse_children_lem E sep ns space fits)

collect_numbers_bad {ℓ} :
    {F : Type ℓ} (failure : F) (ws vs : List Text) (bad : Text) (e : ParseIntError)
    → parse_uint 32 bad ≡ err e
    → collect_numbers failure (ws ++ bad ∷ vs) ≡ err failure
unfolding collect_numbers
collect_numbers_bad failure [] vs bad e h = rw h
collect_numbers_bad failure (w ∷ ws) vs bad e h = elim (Result-cases (parse_uint 32 w)) [
  | inl (n, p) ↦ rw (p, collect_numbers_bad failure ws vs bad e h)
  | inr (f, p) ↦ rw p
]

-- One word that is no `u32` refuses the whole file, whatever words stand before and behind it.
pub parse_children_bad :
    (E : Env) (text : Text) (ws vs : List Text) (bad : Text) (e : ParseIntError)
    → split_whitespace text ≡ ws ++ bad ∷ vs
    → parse_uint 32 bad ≡ err e
    → parse_children E text ≡ err (children_error E)
unfolding parse_children
parse_children_bad E text ws vs bad e words h =
    rw words (collect_numbers_bad (children_error E) ws vs bad e h)
