-- ===== src/Std/Paths.antt =====
-- `std::path` on Unix: `join`, and the last component of a path.
use async_procfs.Prelude.{
  ℕ, ◌≡◌, refl, Bool, true, false, Option, none, some, List, [], ◌∷◌, ◌++◌, FilePath, codes, ◌==◌,
  if◌then◌else◌, text_eq,
}
use async_procfs.Std.Strings.{split}

abbrev pub slash : ℕ
slash = b'/'

-- A separator is needed behind a path that is not empty and does not end with one.
unfoldable pub needs_separator : FilePath → Bool
needs_separator [] = false
needs_separator (c ∷ []) = if c == slash then false else true
needs_separator (c ∷ d ∷ s) = needs_separator (d ∷ s)

-- `join` for a relative path, and for an absolute one, which replaces the base.
unfoldable pub join_relative : FilePath → FilePath → FilePath
unfolding needs_separator
join_relative base path = if needs_separator base then base ++ (slash ∷ path) else base ++ path

unfoldable pub join : FilePath → FilePath → FilePath
unfolding join_relative
join base [] = join_relative base []
join base (c ∷ path) = if c == slash then c ∷ path else join_relative base (c ∷ path)

-- `std::path::Component`.
pub data Component : Type 0 where
  root_dir cur_dir parent_dir : Component
  normal : FilePath → Component

-- One part between separators; `here` says whether a `.` is kept, as it is in front.
unfoldable pub component_of : Bool → FilePath → Option Component
component_of here [] = none
component_of here (c ∷ s) =
    if text_eq (c ∷ s) (codes ".")
    then (if here then some Component.cur_dir else none)
    else if text_eq (c ∷ s) (codes "..")
    then some Component.parent_dir
    else some (Component.normal (c ∷ s))

abbrev pub or_last : Option Component → Option Component → Option Component
or_last earlier none = earlier
or_last earlier (some c) = some c

unfoldable pub last_of : Bool → Option Component → List FilePath → Option Component
unfolding component_of
last_of here earlier [] = earlier
last_of here earlier (p ∷ ps) = last_of false (or_last earlier (component_of here p)) ps

-- `path.components().next_back()`.
unfoldable pub last_component : FilePath → Option Component
unfolding last_of split
last_component [] = none
last_component (c ∷ s) =
    if c == slash
    then last_of false (some Component.root_dir) (split slash s)
    else last_of true none (split slash (c ∷ s))

join_cases :
    (join (codes "/proc") (codes "self") ≡ codes "/proc/self")
    × (join (codes "/proc/") (codes "self") ≡ codes "/proc/self")
    × (join (codes "/proc") (codes "/etc") ≡ codes "/etc")
    × (join (codes "fd") [] ≡ codes "fd/")
unfolding join
join_cases = (refl, refl, refl, refl)

last_component_cases :
    (last_component (codes "task/12/.") ≡ some (Component.normal (codes "12")))
    × (last_component (codes "./") ≡ some Component.cur_dir)
    × (last_component (codes "//") ≡ some Component.root_dir)
    × (last_component (codes "a/..") ≡ some Component.parent_dir)
unfolding last_component
last_component_cases = (refl, refl, refl, refl)
