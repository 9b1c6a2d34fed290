-- ===== src/Tests/Polling.antt =====
-- The streams of a directory with three numbers and an error, polled.
use async_procfs.Prelude.{
  pos, ◌≡◌, refl, some, List, [], ◌∷◌, Text, codes, Result, ok, err, returned,
}
use async_procfs.Std.Chars.{to_digit}
use async_procfs.Std.Ints.{show_int}
use async_procfs.Env.{IoError, raw, ErrorKind}
use async_procfs.Env.Memory.{memory, MemoryError, io_error, open_file, resolve}
use async_procfs.Process.{parse_id}
use async_procfs.Process.Descriptors.Stream.{AllMade}
use async_procfs.Process.Descriptors.Polled.{Entries, poll}
use async_procfs.Process.Descriptors.Reader.{started, polled, Account}
use async_procfs.Process.Tasks.{Task, from_process_at}
use async_procfs.Process.Yields.{BelongsTo}
use async_procfs.Process.Polling.{task_reader}
use async_procfs.Tests.Process.{procfs, shell, start}
use async_procfs.Machine.{State}
use async_procfs.Env.Memory.{Disk}

abbrev missing : IoError
missing = raw ErrorKind.not_found (codes "No such file or directory")

abbrev names : Entries
names = ok (codes "7") ∷ ok (codes "self") ∷ ok (codes "8") ∷ err missing ∷ ok (codes "9") ∷ []

abbrev leader : Task Text
leader = record {
  fd = codes "/proc/7/task/7";
  pid = pos 7;
  tid = pos 7;
  path = codes "/proc/7/task/7";
  procfs = procfs;
}

-- The state that the reader leaves between its two polls: every file is gone.
abbrev bare : State Disk
bare = record { world = record { files = []; links = []; dirs = []; stats = [] }; kernel = 0 }

abbrev behind_leader : Entries
behind_leader = ok (codes "self") ∷ ok (codes "8") ∷ err missing ∷ ok (codes "9") ∷ []

first_poll :
    poll memory (from_process_at memory shell) names start
    ≡ returned (some (ok leader, behind_leader)) start
unfolding poll parse_id to_digit from_process_at open_file resolve show_int
first_poll = refl

second_poll :
    poll memory (from_process_at memory shell) behind_leader bare
    ≡ returned (some (err (io_error missing), [])) bare
unfolding poll parse_id to_digit from_process_at open_file resolve show_int
second_poll = refl

abbrev got : List (Result (Task Text) MemoryError)
got = ok leader ∷ err (io_error missing) ∷ []

task_reader_example :
    Account memory (from_process_at memory shell) names got []
    × AllMade (BelongsTo memory shell) got
task_reader_example =
    task_reader memory shell names got []
      (polled start start first_poll (polled bare bare second_poll started))
