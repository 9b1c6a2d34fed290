-- ===== src/Std/Maps/Laws.antt =====
-- The law of a map from texts: an insertion changes the value of its key alone.
use async_procfs.Prelude.{
  ◌≡◌, refl, some, List, [], ◌∷◌, arith, if◌then◌else◌, Text, text_eq, text_eq_sound, text_eq_refl,
  ℕ, ◌==◌,
}
use async_procfs.Std.Maps.{lookup, insert}

pub lookup-insert {κ} :
    {V : Type κ} (k j : Text) (v : V) (m : List (Text × V))
    → lookup text_eq k (insert text_eq j v m) ≡ (if text_eq j k then some v else lookup text_eq k m)
unfolding lookup insert
lookup-insert k j v [] = refl
lookup-insert k j v ((i, w) ∷ m) = ground (
  arith,
  lookup-insert k j v m,
  text_eq_sound i j,
  text_eq_sound i k,
  text_eq_sound j k,
  text_eq_refl i,
)

-- The same for a map from numbers.
pub lookup-insert_number {κ} :
    {V : Type κ} (k j : ℕ) (v : V) (m : List (ℕ × V))
    → lookup ◌==◌ k (insert ◌==◌ j v m) ≡ (if j == k then some v else lookup ◌==◌ k m)
unfolding lookup insert
lookup-insert_number k j v [] = refl
lookup-insert_number k j v ((i, w) ∷ m) = ground (arith, lookup-insert_number k j v m)
