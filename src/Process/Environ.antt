-- ===== src/Process/Environ.antt =====
-- src/process/mod.rs: `Process::environ`.
pub mod Slices
use async_procfs.Prelude.{
  ℕ, ◌≡◌, ◌∙◌, refl, ap, false, Option, none, some, List, [], ◌∷◌, ◌++◌, map, Bytes, codes, All,
  All-append, returned, ◌>>=◌, pure, arith, if◌then◌else◌, text_eq,
}
use async_procfs.Std.Strings.{split, split_once}
use async_procfs.Std.Strings.Laws.{Free, is_sep, terminated, split-terminated, split_once-append}
use async_procfs.Std.Maps.{lookup, insert}
use async_procfs.Std.Maps.Laws.{lookup-insert}
use async_procfs.Env.{Env}
use async_procfs.Machine.{M, State, on_world}
use async_procfs.Procfs.{try_io, read_options}
use async_procfs.Process.{Process}
use async_procfs.Process.Reading.{open_file}

-- `HashMap<OsString, OsString>`.
abbrev pub EnvMap : Type 0
EnvMap = List (Bytes × Bytes)

-- The body of the loop: the slice is split at its first `=`, and skipped if it has none.
abbrev pub insert_split : Bytes → Option Bytes → EnvMap → EnvMap
insert_split k none m = m
insert_split k (some v) m = insert text_eq k v m

unfoldable pub insert_slice : Bytes → EnvMap → EnvMap
insert_slice slice m = insert_split (split_once b'=' slice).0 (split_once b'=' slice).1 m

unfoldable pub insert_slices : List Bytes → EnvMap → EnvMap
insert_slices [] m = m
insert_slices (slice ∷ rest) m = insert_slices rest (insert_slice slice m)

unfoldable pub parse_environ : Bytes → EnvMap
parse_environ buf = insert_slices (split 0 buf) []

unfoldable pub environ : (E : Env) → Process E.File → M E EnvMap
environ E p = do
  file ← open_file E p (codes "environ")
  buf ← try_io E (on_world (E.read_to_end file))
  pure (parse_environ buf.1)

-- A variable as the kernel shows it, and one that the loop reads back: a name without `=` and NUL,
-- and a value without NUL.
abbrev pub variable : Bytes × Bytes → Bytes
variable (k, v) = k ++ (b'=' ∷ v)

abbrev pub IsVariable : Bytes × Bytes → Type 0
IsVariable (k, v) = Free (is_sep b'=') k × Free (is_sep 0) k × Free (is_sep 0) v

-- The value of the last variable of this name, or else the given one.
abbrev pub last_value : Bytes → List (Bytes × Bytes) → Option Bytes → Option Bytes
last_value k [] found = found
last_value k ((j, v) ∷ vars) found = last_value k vars (if text_eq j k then some v else found)

insert_slice-variable :
    (k v : Bytes) (m : EnvMap)
    → Free (is_sep b'=') k
    → insert_slice (k ++ (b'=' ∷ v)) m ≡ insert text_eq k v m
unfolding insert_slice
insert_slice-variable k v m h = rw (split_once-append b'=' k v h)

lookup-insert_slices :
    (vars : List (Bytes × Bytes)) (m : EnvMap) (k : Bytes)
    → All IsVariable vars
    → lookup text_eq k (insert_slices (map variable vars ++ ([] ∷ [])) m)
      ≡ last_value k vars (lookup text_eq k m)
unfolding insert_slices
lookup-insert_slices [] m k h = unfold insert_slice split_once in refl
lookup-insert_slices ((j, v) ∷ vars) m k (h, hs) =
    ap (λ (x : EnvMap). lookup text_eq k (insert_slices (map variable vars ++ ([] ∷ [])) x))
      (insert_slice-variable j v m h.0)
    ∙ lookup-insert_slices vars (insert text_eq j v m) k hs
    ∙ ap (last_value k vars) (lookup-insert k j v m)

variables-Free :
    (vars : List (Bytes × Bytes)) → All IsVariable vars → All (Free (is_sep 0)) (map variable vars)
variables-Free [] h = tt
variables-Free ((k, v) ∷ vars) (h, hs) =
    (All-append _ k (b'=' ∷ v) h.1 (equals_free, h.2), variables-Free vars hs)
  where
    equals_free : is_sep 0 b'=' ≡ false
    equals_free = refl

parse_environ-lookup :
    (vars : List (Bytes × Bytes)) (k : Bytes)
    → All IsVariable vars
    → lookup text_eq k (parse_environ (terminated 0 (map variable vars))) ≡ last_value k vars none
unfolding parse_environ lookup
parse_environ-lookup vars k h =
    rw (split-terminated 0 (map variable vars) (variables-Free vars h))
      (lookup-insert_slices vars [] k h)

pub environ_reads :
    (E : Env) (p : Process E.File) (n : ℕ) (buf : Bytes) (s : State E.World) (w₁ w₂ : E.World)
    (file : E.File)
    → E.open_at p.fd (codes "environ") (read_options E) s.world ≡ returned file w₁
    → E.read_to_end file w₁ ≡ returned (n, buf) w₂
    → environ E p s ≡ returned (parse_environ buf) (record s { world = w₂ })
unfolding environ
environ_reads E p n buf s w₁ w₂ file opened read = ground arith

-- Where the environment can be opened and holds any variables, each ended by a NUL byte, whose names
-- hold neither `=` nor NUL and whose values hold no NUL, `environ` returns a map in which every name
-- has the value of its last variable, and a name of no variable is absent.
pub environ_lem :
    (E : Env) (p : Process E.File) (vars : List (Bytes × Bytes)) (k : Bytes) (n : ℕ)
    (s : State E.World) (w₁ w₂ : E.World) (file : E.File)
    → All IsVariable vars
    → E.open_at p.fd (codes "environ") (read_options E) s.world ≡ returned file w₁
    → E.read_to_end file w₁ ≡ returned (n, terminated 0 (map variable vars)) w₂
    → (m : EnvMap) × (environ E p s ≡ returned m (record s { world = w₂ }))
      × (lookup text_eq k m ≡ last_value k vars none)
environ_lem E p vars k n s w₁ w₂ file ok_vars opened read = (
  parse_environ (terminated 0 (map variable vars)),
  environ_reads E p n (terminated 0 (map variable vars)) s w₁ w₂ file opened read,
  parse_environ-lookup vars k ok_vars,
)
