-- ===== src/Process/Identity.antt =====
-- Which process a `Process` is: its pid, its path, and what happens for the link `self`.
pub mod Pids
use async_procfs.Prelude.{
  ℕ, suc, ◌<◌, ◌≡◌, ◌∙◌, refl, subst, ℤ, pos, negsuc, false, none, some, ◌∷◌, Text, FilePath, codes,
  All, All-weaken, ◌==◌, Result, ok_of, returned, failed, attempt, arith,
}
use async_procfs.Std.Chars.{IsDigit, to_digit}
use async_procfs.Std.Strings.Laws.{Free, is_sep, split_by-Free}
use async_procfs.Std.Ints.{parse_int, show_int, show_uint}
use async_procfs.Std.Ints.RoundTrip.{InRange, parse_int-show_int, show_uint_head, show_uint-All}
use async_procfs.Std.Utf8.{to_string_lossy, to_string_lossy_of_ascii}
use async_procfs.Std.Paths.{Component, join, last_component}
use async_procfs.Env.{Env, IoError}
use async_procfs.Machine.{State}
use async_procfs.Procfs.{AsyncProcfs}
use async_procfs.Kernel.Version.{Version, cached}
use async_procfs.Process.{
  Process, parse_id, normal_id, process_options, new_with_path, new_process, myself,
}

-- The characters of a printed integer.
abbrev IsNumeral : ℕ → Type 0
IsNumeral c = (c < 0x80) × (is_sep b'/' c ≡ false) × (is_sep b'.' c ≡ false)

digit-IsNumeral : (c : ℕ) → IsDigit c → IsNumeral c
digit-IsNumeral c h = ground arith

show_int-All : (z : ℤ) → All IsNumeral (show_int z)
unfolding show_int
show_int-All (pos n) = All-weaken IsDigit _ digit-IsNumeral (show_uint n) (show_uint-All n)
show_int-All (negsuc n) = (
  (omega arith, refl, refl),
  All-weaken IsDigit _ digit-IsNumeral (show_uint (suc n)) (show_uint-All (suc n)),
)

show_int_head : (z : ℤ) → (c : ℕ) × (s : Text) × (show_int z ≡ c ∷ s)
unfolding show_int
show_int_head (pos n) = let (c, s, e, d) = show_uint_head n in (c, s, e)
show_int_head (negsuc n) = (b'-', show_uint (suc n), refl)

-- One name with no slash and no leading dot is the whole path's last component.
last_component_of_name :
    (c : ℕ) (s : FilePath)
    → Free (is_sep b'/') (c ∷ s)
    → (c == b'.') ≡ false
    → last_component (c ∷ s) ≡ some (Component.normal (c ∷ s))
unfolding last_component
last_component_of_name c s h dot = rw (h.0, split_by-Free (is_sep b'/') s h.1) (ground arith)

not_slash : (c : ℕ) → IsNumeral c → is_sep b'/' c ≡ false
not_slash c h = h.1

is_ascii : (c : ℕ) → IsNumeral c → c < 0x80
is_ascii c h = h.0

pub parse_id-show_int : (z : ℤ) → InRange 32 z → parse_id (show_int z) ≡ some z
parse_id-show_int z h =
    parse_id_lem (show_int z)
    ∙ rw (
      to_string_lossy_of_ascii (show_int z)
          (All-weaken IsNumeral _ is_ascii (show_int z) (show_int-All z)),
      parse_int-show_int 32 z h,
    )
  where
    parse_id_lem : (t : FilePath) → parse_id t ≡ ok_of (parse_int 32 (to_string_lossy t))
    parse_id_lem t = unfold parse_id in refl

last_component-show_int :
    (z : ℤ) → last_component (show_int z) ≡ some (Component.normal (show_int z))
last_component-show_int z =
    let (c, s, e) = show_int_head z in
    let numeral : All IsNumeral (c ∷ s) = subst (All IsNumeral) e (show_int-All z) in
    rw e (last_component_of_name c s (All-weaken IsNumeral _ not_slash (c ∷ s) numeral) numeral.0.2)

pub normal_id-show_int : (z : ℤ) → InRange 32 z → normal_id (last_component (show_int z)) ≡ some z
normal_id-show_int z h = rw (last_component-show_int z) (parse_id-show_int z h)

-- The name `self` is no number.
self_no_id : normal_id (last_component (codes "self")) ≡ none
unfolding last_component parse_id to_digit
self_no_id = refl

module _ (E : Env) (procfs : AsyncProcfs E.File) where
  new_with_path_id :
      (path : FilePath) (pid : ℤ) (s t : State E.World) (p : Process E.File)
      → normal_id (last_component path) ≡ some pid
      → new_with_path E procfs path s ≡ returned p t
      → (p.pid ≡ pid) × (p.path ≡ join procfs.root path) × (p.procfs ≡ procfs)
  unfolding new_with_path
  new_with_path_id path pid s t p id h = ground arith

  -- Where a process is made for a pid of 32 bits, it has that pid, the path of that number below the
  -- root, and the given instance.
  pub new_process_lem :
      (pid : ℤ) (s t : State E.World) (p : Process E.File)
      → InRange 32 pid
      → new_process E procfs pid s ≡ returned p t
      → (p.pid ≡ pid) × (p.path ≡ join procfs.root (show_int pid)) × (p.procfs ≡ procfs)
  unfolding new_process
  new_process_lem pid s t p fits h =
      new_with_path_id (show_int pid) pid s t p (normal_id-show_int pid fits) h

  module _ (k : Result Version E.ProcError) (s t : State E.World) (w₁ w₂ : E.World)
      (file : E.File) where
    -- Where the directory `self` can be opened with the options for the version, known or not, and its
    -- link spells a pid of 32 bits, `myself` returns the process of that pid below the root.
    pub myself_lem :
        (pid : ℤ)
        → InRange 32 pid
        → attempt {F = E.ProcError} (cached E procfs) s ≡ returned k t
        → E.open_at procfs.file (codes "self") (process_options E k) t.world ≡ returned file w₁
        → E.read_link_at procfs.file (codes "self") w₁ ≡ returned (show_int pid) w₂
        → myself E procfs s
          ≡ returned
              (record {
                fd = file;
                pid = pid;
                path = join procfs.root (codes "self");
                procfs = procfs;
              })
              (record { world = w₂; kernel = t.kernel })
    unfolding myself new_with_path
    myself_lem pid fits looked opened link = ground (arith, self_no_id, parse_id-show_int pid fits)

    -- Where that link cannot be read, `myself` fails with not-found for the path `self`.
    pub myself_unlinked :
        (e : IoError)
        → attempt {F = E.ProcError} (cached E procfs) s ≡ returned k t
        → E.open_at procfs.file (codes "self") (process_options E k) t.world ≡ returned file w₁
        → E.read_link_at procfs.file (codes "self") w₁ ≡ failed e w₂
        → myself E procfs s
          ≡ failed
              (E.not_found_error (some (codes "self")))
              (record { world = w₂; kernel = t.kernel })
    unfolding myself new_with_path
    myself_unlinked e looked opened link = ground (arith, self_no_id)
