-- ===== src/Tests/Calm.antt =====
-- The files in memory never panic, and reading them changes nothing.
use async_procfs.Prelude.{◌≡◌, true, FilePath, false, pos, [], Text, refl, arith, codes}
use async_procfs.Env.{
  OpenOptions, new_options, with_read, with_write, with_create, with_truncate, with_custom_flags,
  from_flag_and_mode,
}
use async_procfs.Machine.Closed.{Closed, reads}
use async_procfs.Machine.Unchanging.{Unchanging, Closed-Unchanging, Looks, OnlyLooks}
use async_procfs.Process.Unchanging.{ReadsAreUnchanging, reads-Unchanging}
use async_procfs.Env.Memory.{
  truncates, emptied, memory, open_file, read_bytes, read_text, write_bytes, link_at, stats_at,
  list_dir,
}
use async_procfs.Machine.Calm.{Calm, IsCalm, Closed-Calm}
use async_procfs.Tests.Parsers.{parsers, stats_keeps, table_keeps}
use async_procfs.Procfs.{AsyncProcfs}
use async_procfs.Process.{Process}
use async_procfs.Process.Tasks.{Task}
use async_procfs.Process.Calm.{ProcessIsCalm, process-Calm}

memory-IsCalm : IsCalm memory
unfolding open_file read_bytes read_text write_bytes link_at stats_at list_dir
memory-IsCalm = record {
  open_path = λ path o. record { at = λ s t p. ground arith };
  open_at = λ base path o. record { at = λ s t p. ground arith };
  read_to_end = λ f. record { at = λ s t p. ground arith };
  read_to_string = λ f. record { at = λ s t p. ground arith };
  hybrid_read_to_string = λ f. record { at = λ s t p. ground arith };
  write_all = λ f bytes. record { at = λ s t p. ground arith };
  read_link_at = λ base path. record { at = λ s t p. ground arith };
  read_link = λ f. record { at = λ s t p. ground arith };
  hybrid_metadata = λ f. record { at = λ s t p. ground arith };
  hybrid_metadata_at = λ base path flags. record { at = λ s t p. ground arith };
  new_dir = λ std. record { at = λ s t p. ground arith };
  idle = λ f. (f, refl);
}

abbrev procfs : AsyncProcfs Text
procfs = record { file = codes "/proc"; root = codes "/proc" }

abbrev shell : Process Text
shell = record { fd = codes "/proc/7"; pid = pos 7; path = codes "/proc/7"; procfs = procfs }

abbrev thread : Task Text
thread = record {
  fd = codes "/proc/7/task/9";
  pid = pos 7;
  tid = pos 9;
  path = codes "/proc/7/task/9";
  procfs = procfs;
}

memory-Calm : Closed memory (λ A F m. Calm m)
memory-Calm = Closed-Calm memory memory-IsCalm

process-Calm_example : ProcessIsCalm memory parsers procfs shell thread []
process-Calm_example =
    process-Calm memory memory-IsCalm parsers (stats_keeps (λ A F m. Calm m) memory-Calm shell)
      (table_keeps (λ A F m. Calm m) memory-Calm shell) procfs shell thread []

-- Options that only read do not empty a file.
reads-truncates : (o : OpenOptions) → reads o ≡ true → truncates o ≡ false
unfolding truncates
reads-truncates new_options h = refl
reads-truncates (with_read b o) h = reads-truncates o h
reads-truncates (with_write b o) h = cc
reads-truncates (with_create b o) h = cc
reads-truncates (with_truncate b o) h = cc
reads-truncates (with_custom_flags flags o) h = reads-truncates o (ground arith)
reads-truncates (from_flag_and_mode flags mode) h = refl

open_file-Looks : (p : FilePath) (o : OpenOptions) → reads o ≡ true → Looks (open_file p o)
unfolding open_file emptied
open_file-Looks p o h w = ground (arith, reads-truncates o h)

memory-OnlyLooks : OnlyLooks memory
unfolding read_bytes read_text link_at stats_at list_dir
memory-OnlyLooks = record {
  open_at = λ base path o h w. open_file-Looks _ o h w;
  read_to_end = λ f w. refl;
  read_to_string = λ f w. ground arith;
  hybrid_read_to_string = λ f w. ground arith;
  read_link_at = λ base path w. ground arith;
  read_link = λ f w. ground arith;
  hybrid_metadata = λ f w. ground arith;
  hybrid_metadata_at = λ base path flags w. ground arith;
  new_dir = λ std w. ground arith;
}

memory-Unchanging : Closed memory (λ A F m. Unchanging m)
memory-Unchanging = Closed-Unchanging memory memory-OnlyLooks

reads-Unchanging_example : ReadsAreUnchanging memory parsers procfs shell thread []
reads-Unchanging_example =
    reads-Unchanging memory memory-OnlyLooks parsers
      (stats_keeps (λ A F m. Unchanging m) memory-Unchanging shell)
      (table_keeps (λ A F m. Unchanging m) memory-Unchanging shell) procfs shell thread []
