-- ===== src/Tests/Parsers.antt =====
-- Parsers that are handed the system's information: one that does not use it, and one that asks for the
-- boot time, which reads a file.
use async_procfs.Prelude.{ℕ, ℤ, some, ok, Bytes, length, pure}
use async_procfs.Env.Memory.{memory}
use async_procfs.Machine.{M}
use async_procfs.Machine.Closed.{Property, Closed}
use async_procfs.SystemInfo.{AsyncLocalSystemInfo, boot_time_secs}
use async_procfs.Process.{Process}
use async_procfs.Process.Closed.Parsers.{Parsers, Closed-ParserReads}

abbrev measure : Bytes → AsyncLocalSystemInfo memory.File → M memory ℕ
measure b si = pure (length b)

abbrev plain : Parsers memory
plain = record {
  Stats = ℕ;
  Load = ℕ;
  Table = ℕ;
  Date = ℤ;
  btime = λ n. n;
  read_stats = measure;
  read_load = λ b. ok (length b);
  read_table = measure;
  timestamp = λ n. some n;
}

abbrev asking : Bytes → AsyncLocalSystemInfo memory.File → M memory ℕ
asking b si = boot_time_secs memory plain.btime plain.read_stats plain.read_load si.inner

abbrev pub parsers : Parsers memory
parsers = record plain { read_table = asking }

module _ (P : Property memory) (closed : Closed memory P) (p : Process memory.File) where
  pub stats_keeps :
      (b : Bytes) (si : AsyncLocalSystemInfo memory.File) → P _ _ (parsers.read_stats b si)
  stats_keeps b si = closed.pure_keeps (length b)

  pub table_keeps :
      (b : Bytes) (si : AsyncLocalSystemInfo memory.File) → P _ _ (parsers.read_table b si)
  table_keeps b si =
      (Closed-ParserReads closed plain (λ b si. closed.pure_keeps (length b))
        (λ b si. closed.pure_keeps (length b)) si.inner p).2
