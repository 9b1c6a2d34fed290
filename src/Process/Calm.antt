-- ===== src/Process/Calm.antt =====
-- Panics in the functions of src/process/mod.rs and src/process/task.rs: on a directory that must be
-- idle, and for want of fuel in the loop of `auxv`.
use async_procfs.Prelude.{Bytes}
use async_procfs.Env.{Env}
use async_procfs.SystemInfo.{AsyncLocalSystemInfo}
use async_procfs.Machine.Calm.{Calm, IsCalm, Closed-Calm, Calm-Writes}
use async_procfs.Procfs.{AsyncProcfs}
use async_procfs.Kernel.Calm.{cached-Calm}
use async_procfs.Process.{Process}
use async_procfs.Process.Tasks.{Task}
use async_procfs.Process.Closed.{ProcessReads, ProcessStreams, ProcessWrites}
use async_procfs.Process.Closed.Reads.{Closed-ProcessReads, Closed-ProcessWrites}
use async_procfs.Process.Closed.Parsers.{Parsers, ParserReads, Closed-ParserReads}
use async_procfs.Process.Closed.Named.{
  NamedReads, SocketReads, Closed-NamedReads, Closed-SocketReads,
}
use async_procfs.Process.Closed.Streams.{Closed-ProcessStreams}

-- That none of these panics: making a process, the
-- readers of a process and of a task, the statistics of the kernel, its load and its boot time, the
-- three streams run to their ends, the writers of a process, and the opening of a file with given
-- flags.
abbrev pub ProcessIsCalm :
    (E : Env) → Parsers E → AsyncProcfs E.File → Process E.File → Task E.File → E.Dir → Type 1
ProcessIsCalm E parsers procfs p t dir =
    ProcessReads E procfs p t (λ A F m. Calm m)
    × NamedReads E p t (λ A F m. Calm m)
    × ParserReads E parsers procfs p (λ A F m. Calm m)
    × SocketReads E parsers.read_table p (λ A F m. Calm m)
    × ProcessStreams E procfs p dir (λ A F m. Calm m)
    × ProcessWrites E p (λ A F m. Calm m)

-- Where no operation of the files panics, no file has an operation in flight, and the parsers that are
-- handed the system's information do not panic, none of these panics: making a process, the
-- readers of a process and of a task, the statistics of the kernel, its load and its boot time, the
-- three streams run to their ends, the writers of a process, and the opening of a file with given
-- flags.
pub process-Calm :
    (E : Env)
    → IsCalm E
    → (parsers : Parsers E)
    → ((b : Bytes) (si : AsyncLocalSystemInfo E.File) → Calm (parsers.read_stats b si))
    → ((b : Bytes) (si : AsyncLocalSystemInfo E.File) → Calm (parsers.read_table b si))
    → (procfs : AsyncProcfs E.File) (p : Process E.File) (t : Task E.File) (dir : E.Dir)
    → ProcessIsCalm E parsers procfs p t dir
process-Calm E calm parsers stats table procfs p t dir = (
  Closed-ProcessReads (Closed-Calm E calm) (cached-Calm E calm) procfs p t,
  Closed-NamedReads (Closed-Calm E calm) (cached-Calm E calm) p t,
  Closed-ParserReads (Closed-Calm E calm) parsers stats table procfs p,
  Closed-SocketReads (Closed-Calm E calm) parsers.read_table table p,
  Closed-ProcessStreams (Closed-Calm E calm) (cached-Calm E calm) procfs p dir,
  Closed-ProcessWrites (Closed-Calm E calm) (cached-Calm E calm) (Calm-Writes E calm) p,
)
