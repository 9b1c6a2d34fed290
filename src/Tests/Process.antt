-- ===== src/Tests/Process.antt =====
-- Inputs for src/process/mod.rs and src/process/task.rs.
use async_procfs.Std.Bytes.{to_ne_bytes}
use async_procfs.Prelude.{
  All, ℕ, pos, ◌<◌, ◌≡◌, ◌≢◌, ◌↔◌, refl, some, List, [], ◌∷◌, map, length, Text, Bytes, codes,
  arith, text_eq, ◌==◌, returned, failed, panicked,
}
use async_procfs.Std.Strings.{join_with, nonempty}
use async_procfs.Std.Strings.Laws.{Free, is_sep, terminated}
use async_procfs.Std.Paths.{join}
use async_procfs.Std.Maps.{lookup}
use async_procfs.Env.Memory.{memory, Disk, io_error, open_file, read_bytes, read_text, resolve}
use async_procfs.Machine.{State}
use async_procfs.Procfs.{AsyncProcfs, read_options}
use async_procfs.Process.{Process}
use async_procfs.Process.Cmdline.{parse_cmdline, cmdline, cmdline_parts, parse_cmdline_complete}
use async_procfs.Process.Environ.{EnvMap, environ, variable}
use async_procfs.Process.Environ.Slices.{LastDefines, environ_iff}
use async_procfs.Process.Auxv.{AuxMap, parse_auxv, auxv, end_of_file}
use async_procfs.Process.Auxv.Decode.{IsEntry}
use async_procfs.Process.Auxv.Results.{
  parse_auxv_total, auxv_lem, auxv_truncated, vector_bytes, entry_bytes,
}

abbrev pub procfs : AsyncProcfs Text
procfs = record { file = codes "/proc"; root = codes "/proc" }

abbrev pub shell : Process Text
shell = record { fd = codes "/proc/7"; pid = pos 7; path = codes "/proc/7"; procfs = procfs }

-- The command line `sh`, an empty argument, and `-c`; two variables; an auxiliary vector.
abbrev arguments : List Text
arguments = codes "sh" ∷ [] ∷ codes "-c" ∷ []

abbrev variables : List (Bytes × Bytes)
variables = (codes "A", codes "1=2") ∷ (codes "B", []) ∷ (codes "A", codes "3") ∷ []

abbrev vector : List (ℕ × ℕ)
vector = (6, 4096) ∷ (3, 0) ∷ []

abbrev pub disk : Disk
disk = record {
  files =
      (codes "/proc/7/cmdline", terminated 0 arguments)
      ∷ (codes "/proc/7/environ", terminated 0 (map variable variables))
      ∷ (codes "/proc/7/auxv", vector_bytes memory vector (1 ∷ 2 ∷ []))
      ∷ (codes "/proc/8/auxv", entry_bytes memory vector (1 ∷ 2 ∷ []))
      ∷ [];
  links = (codes "/proc/self", codes "7") ∷ (codes "/proc/7/fd/0", codes "/dev/null") ∷ [];
  dirs =
      (codes "/proc/7", [])
      ∷ (codes "/proc/7/task/7", [])
      ∷ (codes "/proc/7/fd/0", [])
      ∷ (codes "/proc", codes "7" ∷ codes "self" ∷ codes "8" ∷ [])
      ∷ [];
  stats = [];
}

abbrev pub start : State Disk
start = record { world = disk; kernel = 19661062 }

arguments-Free : All (Free (is_sep 0)) arguments
arguments-Free = ((refl, (refl, tt)), (tt, ((refl, (refl, tt)), tt)))

abbrev OpenedAt : Text → Type 0
OpenedAt name =
    memory.open_at (codes "/proc/7") name (read_options memory) disk
    ≡ returned (join (codes "/proc/7") name) disk

cmdline_opened : OpenedAt (codes "cmdline")
unfolding open_file resolve
cmdline_opened = refl

cmdline_text :
    memory.read_to_string (join (codes "/proc/7") (codes "cmdline")) disk
    ≡ returned (terminated 0 arguments) disk
unfolding read_text join
cmdline_text = refl

cmdline_parts_example :
    (parts : List Text) × (terminated 0 arguments ≡ join_with 0 parts)
    × All (Free (is_sep 0)) parts
    × (cmdline memory shell start ≡ returned (nonempty parts) start)
cmdline_parts_example =
    cmdline_parts memory shell (terminated 0 arguments) start disk disk
      (join (codes "/proc/7") (codes "cmdline")) cmdline_opened cmdline_text

parse_cmdline_complete_example :
    (parse_cmdline (terminated 0 arguments) ≡ arguments) ↔ All (λ a. a ≢ []) arguments
parse_cmdline_complete_example = parse_cmdline_complete arguments arguments-Free

environ_opened : OpenedAt (codes "environ")
unfolding open_file resolve
environ_opened = refl

environ_bytes :
    memory.read_to_end (join (codes "/proc/7") (codes "environ")) disk
    ≡ returned (13, terminated 0 (map variable variables)) disk
unfolding read_bytes join
environ_bytes = refl

environ_iff_example :
    (m : EnvMap) × (environ memory shell start ≡ returned m start)
    × (slices : List Bytes) × (terminated 0 (map variable variables) ≡ join_with 0 slices)
    × All (Free (is_sep 0)) slices
    × ((k v : Bytes) → (lookup text_eq k m ≡ some v) ↔ LastDefines k v slices)
environ_iff_example =
    environ_iff memory shell 13 (terminated 0 (map variable variables)) start disk disk
      (join (codes "/proc/7") (codes "environ")) environ_opened environ_bytes

vector_fits : All (IsEntry 8) vector
vector_fits = ((omega arith, omega arith, refl), ((omega arith, omega arith, refl), tt))

auxv_opened : OpenedAt (codes "auxv")
unfolding open_file resolve
auxv_opened = refl

auxv_bytes :
    memory.read_to_end (join (codes "/proc/7") (codes "auxv")) disk
    ≡ returned
        (length (vector_bytes memory vector (1 ∷ 2 ∷ [])), vector_bytes memory vector (1 ∷ 2 ∷ []))
        disk
unfolding read_bytes to_ne_bytes join
auxv_bytes = refl

auxv_lem_example :
    (m : AuxMap) × (auxv memory shell start ≡ returned m start) × (lookup ◌==◌ 6 m ≡ some 4096)
auxv_lem_example =
    auxv_lem memory shell vector start disk disk (join (codes "/proc/7") (codes "auxv"))
      (omega arith) vector_fits (1 ∷ 2 ∷ []) 6 auxv_opened auxv_bytes

abbrev other_shell : Process Text
other_shell = record { fd = codes "/proc/8"; pid = pos 8; path = codes "/proc/8"; procfs = procfs }

broken_opened :
    memory.open_at (codes "/proc/8") (codes "auxv") (read_options memory) disk
    ≡ returned (join (codes "/proc/8") (codes "auxv")) disk
unfolding open_file resolve
broken_opened = refl

broken_bytes :
    memory.read_to_end (join (codes "/proc/8") (codes "auxv")) disk
    ≡ returned
        (length (entry_bytes memory vector (1 ∷ 2 ∷ [])), entry_bytes memory vector (1 ∷ 2 ∷ []))
        disk
unfolding read_bytes to_ne_bytes join
broken_bytes = refl

broken_long : 0 < length (entry_bytes memory vector (1 ∷ 2 ∷ []))
unfolding to_ne_bytes
broken_long = omega arith

auxv_truncated_example : auxv memory other_shell start ≡ failed (io_error end_of_file) start
auxv_truncated_example =
    auxv_truncated memory other_shell vector start disk disk (join (codes "/proc/8") (codes "auxv"))
      (omega arith) vector_fits (1 ∷ 2 ∷ []) (omega arith) broken_long broken_opened broken_bytes

parse_auxv_total_example :
    parse_auxv memory 9 (codes "123456789") start ≢ panicked (codes "out of fuel") start
parse_auxv_total_example =
    parse_auxv_total memory 9 (codes "123456789") start start (codes "out of fuel")
