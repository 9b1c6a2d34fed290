-- ===== src/Process/Unchanging.antt =====
-- What the functions that read do to the world outside.
use async_procfs.Prelude.{Bytes, refl}
use async_procfs.Env.{Env}
use async_procfs.SystemInfo.{AsyncLocalSystemInfo}
use async_procfs.Machine.Unchanging.{Unchanging, OnlyLooks, Closed-Unchanging}
use async_procfs.Procfs.{AsyncProcfs}
use async_procfs.Kernel.Version.{cached}
use async_procfs.Kernel.Closed.{KernelReads, cached_keeps_of, Closed-KernelReads}
use async_procfs.Process.{Process}
use async_procfs.Process.Tasks.{Task}
use async_procfs.Process.Closed.{ProcessReads, ProcessStreams}
use async_procfs.Process.Closed.Reads.{Closed-ProcessReads}
use async_procfs.Process.Closed.Parsers.{Parsers, ParserReads, Closed-ParserReads}
use async_procfs.Process.Closed.Named.{
  NamedReads, SocketReads, Closed-NamedReads, Closed-SocketReads,
}
use async_procfs.Process.Closed.Streams.{Closed-ProcessStreams}

-- That each of the functions that read leaves the world as it is.
abbrev pub ReadsAreUnchanging :
    (E : Env) → Parsers E → AsyncProcfs E.File → Process E.File → Task E.File → E.Dir → Type 1
ReadsAreUnchanging E parsers procfs p t dir =
    KernelReads E procfs (λ A F m. Unchanging m)
    × ProcessReads E procfs p t (λ A F m. Unchanging m)
    × NamedReads E p t (λ A F m. Unchanging m)
    × ParserReads E parsers procfs p (λ A F m. Unchanging m)
    × SocketReads E parsers.read_table p (λ A F m. Unchanging m)
    × ProcessStreams E procfs p dir (λ A F m. Unchanging m)

module _ (E : Env) (looks : OnlyLooks E) where
  cached-Unchanging : (procfs : AsyncProcfs E.File) → Unchanging (cached E procfs)
  cached-Unchanging procfs =
      cached_keeps_of (Closed-Unchanging E looks) (λ kernel. record { at = λ s. refl }) procfs
        (record { at = λ s. refl })

  -- Where opening a file with options that neither write, make nor empty it, reading a file, a link,
  -- metadata or a directory, and the parsers that are handed the system's information leave the world as
  -- it is, so do all functions that read the files of /proc/sys/kernel, make a process or read its
  -- files and those of a task, read the statistics of the kernel, its load and its boot time, and the
  -- three streams run to their ends, however they end: they write nothing.
  pub reads-Unchanging :
      (parsers : Parsers E)
      → ((b : Bytes) (si : AsyncLocalSystemInfo E.File) → Unchanging (parsers.read_stats b si))
      → ((b : Bytes) (si : AsyncLocalSystemInfo E.File) → Unchanging (parsers.read_table b si))
      → (procfs : AsyncProcfs E.File) (p : Process E.File) (t : Task E.File) (dir : E.Dir)
      → ReadsAreUnchanging E parsers procfs p t dir
  reads-Unchanging parsers stats table procfs p t dir = (
    Closed-KernelReads (Closed-Unchanging E looks) procfs (cached-Unchanging procfs),
    Closed-ProcessReads (Closed-Unchanging E looks) cached-Unchanging procfs p t,
    Closed-NamedReads (Closed-Unchanging E looks) cached-Unchanging p t,
    Closed-ParserReads (Closed-Unchanging E looks) parsers stats table procfs p,
    Closed-SocketReads (Closed-Unchanging E looks) parsers.read_table table p,
    Closed-ProcessStreams (Closed-Unchanging E looks) cached-Unchanging procfs p dir,
  )
