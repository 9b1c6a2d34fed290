-- ===== src/Tests/Handles.antt =====
-- Inputs for the handles, the errors and the streams of src/process/mod.rs and src/process/task.rs.
use async_procfs.Process.Descriptors.{numbered_entries}
use async_procfs.Prelude.{
  ℕ, true, pos, ◌≡◌, ◌↔◌, refl, List, [], ◌∷◌, Text, Bytes, codes, arith, Result, ok, err, returned,
  failed, attempt,
}
use async_procfs.Std.Chars.{to_digit}
use async_procfs.Std.Ints.{show_int}
use async_procfs.Std.Paths.{join, last_component}
use async_procfs.Env.{Env, ErrorKind, IoError, wrapped, raw, kind}
use async_procfs.Env.Memory.{memory, Disk, MemoryError, io_error, open_file, resolve, link_at}
use async_procfs.Machine.{State}
use async_procfs.Kernel.Version.{version, cached, from_u32}
use async_procfs.Process.{Process, process_options, new_process, myself, new_with_path, parse_id}
use async_procfs.Process.Identity.{myself_lem}
use async_procfs.Process.Reading.{read_with_cursor, is_alive, stat}
use async_procfs.Process.Descriptors.Stream.{ids, first_error}
use async_procfs.Process.Descriptors.Yielded.{Yields}
use async_procfs.Process.Listing.{process_items}
use async_procfs.Process.Renamed.{renamed}
use async_procfs.Process.Renamed.Errors.{HandlesAreAlike, renamed-Alike}
use async_procfs.Process.Yields.{process_items-Yields}
use async_procfs.Process.Identity.Pids.{Opened, new_process_iff, new_process_unopened}
use async_procfs.Process.Reading.Alive.{IsAnswer, is_alive_lem}
use async_procfs.Tests.Process.{procfs, shell, disk, start}

made : new_process memory procfs (pos 7) start ≡ returned shell start
unfolding new_process new_with_path cached open_file resolve show_int last_component parse_id
    to_digit
made = refl

version_known :
    attempt {F = MemoryError} (cached memory procfs) start ≡ returned (ok (version 6 1 300)) start
unfolding cached from_u32
version_known = refl

abbrev self_disk : Disk
self_disk = record disk { dirs = (codes "/proc/self", []) ∷ [] }

abbrev at_self : State Disk
at_self = record { world = self_disk; kernel = 19661062 }

version_at_self :
    attempt {F = MemoryError} (cached memory procfs) at_self
    ≡ returned (ok (version 6 1 300)) at_self
unfolding cached from_u32
version_at_self = refl

self_opened :
    memory.open_at
      (codes "/proc")
      (codes "self")
      (process_options memory {F = MemoryError} (ok (version 6 1 300)))
      self_disk
    ≡ returned (codes "/proc/self") self_disk
unfolding open_file resolve
self_opened = refl

self_link :
    memory.read_link_at (codes "/proc") (codes "self") self_disk
    ≡ returned (show_int (pos 7)) self_disk
unfolding link_at resolve show_int
self_link = refl

myself_lem_example :
    myself memory procfs at_self
    ≡ returned
        (record {
          fd = codes "/proc/self";
          pid = pos 7;
          path = join (codes "/proc") (codes "self");
          procfs = procfs;
        })
        at_self
myself_lem_example =
    myself_lem memory procfs (ok (version 6 1 300)) at_self at_self self_disk self_disk
      (codes "/proc/self") (pos 7) (omega arith) version_at_self self_opened self_link

abbrev missing : IoError
missing = raw ErrorKind.not_found (codes "No such file or directory")

-- A reader that takes the bytes as they are.
abbrev whole : Bytes → Result Bytes MemoryError
whole b = ok b

-- Files that can be opened, and not read.
abbrev unreadable : Env
unreadable = record memory { read_to_end = λ f d. failed missing d }

abbrev names : List (Result Bytes IoError)
names = ok (codes "7") ∷ ok (codes "self") ∷ ok (codes "8") ∷ err missing ∷ ok (codes "9") ∷ []

abbrev processes : List (Result (Process Text) MemoryError)
processes = ok shell ∷ err (io_error missing) ∷ []

processes_listed : process_items memory procfs names start ≡ returned processes start
unfolding process_items numbered_entries parse_id to_digit new_process new_with_path cached
    open_file resolve show_int last_component
processes_listed = refl

process_items-Yields_example :
    Yields memory (new_process memory procfs) (first_error names) (ids names) start processes start
process_items-Yields_example =
    process_items-Yields memory procfs names start start processes processes_listed

made_at_path : new_with_path memory procfs (show_int (pos 7)) start ≡ returned shell start
unfolding new_with_path cached open_file resolve show_int last_component parse_id to_digit
made_at_path = refl

new_process_iff_example :
    (new_process memory procfs (pos 7) start ≡ returned shell start)
    ↔ Opened memory procfs (pos 7) start shell start
new_process_iff_example = new_process_iff memory procfs (pos 7) start start shell (omega arith)

not_there :
    memory.open_at
      (codes "/proc")
      (show_int (pos 9))
      (process_options memory {F = MemoryError} (ok (version 6 1 300)))
      disk
    ≡ failed missing disk
unfolding open_file resolve show_int
not_there = refl

new_process_unopened_example :
    new_process memory procfs (pos 9) start
    ≡ failed (io_error (wrapped (kind missing) (show_int (pos 9)) missing)) start
new_process_unopened_example =
    new_process_unopened memory procfs (pos 9) (ok (version 6 1 300)) start start disk missing
      version_known not_there

-- The state of a process in the first byte of the file.
abbrev first_byte : Bytes → ℕ
first_byte [] = 0
first_byte (b ∷ rest) = b

-- A world in which every file can be opened and holds this letter.
abbrev in_state : ℕ → Env
in_state letter = record memory {
  open_at = λ base p o d. returned p d;
  read_to_end = λ f d. returned (1, letter ∷ []) d;
}

is_alive_lem_example :
    IsAnswer
      (in_state b'S')
      whole
      first_byte
      shell
      start
      (is_alive (in_state b'S') whole first_byte shell start)
is_alive_lem_example = is_alive_lem (in_state b'S') whole first_byte shell start

-- The state `x` of a dead process counts as alive.
dead_is_alive : is_alive (in_state b'x') whole first_byte shell start ≡ returned true start
unfolding is_alive stat read_with_cursor
dead_is_alive = refl

renamed-Alike_example : HandlesAreAlike memory shell (renamed shell (codes "/proc/8") (pos 8))
renamed-Alike_example = renamed-Alike memory shell (codes "/proc/8") (pos 8)
