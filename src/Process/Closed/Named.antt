-- ===== src/Process/Closed/Named.antt =====
-- The readers of a process and of a task by their names in src/process/mod.rs and src/process/task.rs, each
-- from the private reader that it calls.
use async_procfs.Prelude.{FilePath, Bytes}
use async_procfs.Env.{Env}
use async_procfs.Machine.Closed.{Property, Closed, try_wrapped_keeps}
use async_procfs.Procfs.{AsyncProcfs}
use async_procfs.SystemInfo.{AsyncLocalSystemInfo}
use async_procfs.Kernel.Version.{Version, cached}
use async_procfs.Process.{Process}
use async_procfs.Process.Reading.{
  FromRead, FromReadSi, io, maps, smaps, smaps_rollup, mountstats, mountinfo, status, stat, limits,
  statm, schedstat, syscall, snmp, snmp6, dev_status, unix, arp, route, tcp, tcp6, udp, udp6, cwd,
  root, exe, autogroup, wchan, open_relative, read_process_link,
}
use async_procfs.Process.Tasks
use async_procfs.Process.Tasks.{Task}
use async_procfs.Process.Closed.{open_file_keeps, read_whole_keeps}
use async_procfs.Process.Closed.Reads.{read_with_cursor_keeps, task_read_keeps}
use async_procfs.Process.Closed.Parsers.{read_si_with_cursor_keeps}

-- That each of the functions has the property: those that give what a parser makes of a file, those that take
-- a table out of it, the readers of a task, and the links and texts.
abbrev pub NamedReads : (E : Env) → Process E.File → Task E.File → Property E → Type 1
NamedReads E p t P =
    ((T : Type 0) (from_read : FromRead E T)
      → P _ _ (io E from_read p)
        × P _ _ (maps E from_read p)
        × P _ _ (smaps E from_read p)
        × P _ _ (smaps_rollup E from_read p)
        × P _ _ (mountstats E from_read p)
        × P _ _ (mountinfo E from_read p)
        × P _ _ (status E from_read p)
        × P _ _ (stat E from_read p)
        × P _ _ (limits E from_read p)
        × P _ _ (statm E from_read p)
        × P _ _ (schedstat E from_read p)
        × P _ _ (syscall E from_read p)
        × P _ _ (snmp E from_read p)
        × P _ _ (snmp6 E from_read p))
    × ((T Table : Type 0) (from_read : FromRead E T) (table : T → Table)
        → P _ _ (dev_status E from_read table p)
          × P _ _ (unix E from_read table p)
          × P _ _ (arp E from_read table p)
          × P _ _ (route E from_read table p))
    × ((T : Type 0) (from_read : FromRead E T)
        → P _ _ (Tasks.stat E from_read t)
          × P _ _ (Tasks.status E from_read t)
          × P _ _ (Tasks.io E from_read t)
          × P _ _ (Tasks.schedstat E from_read t)
          × P _ _ (Tasks.syscall E from_read t))
    × P _ _ (cwd E p)
    × P _ _ (root E p)
    × P _ _ (exe E p)
    × P _ _ (autogroup E p)
    × P _ _ (wchan E p)
    × ((path : FilePath) → P _ _ (open_relative E p path))

-- The socket tables, whose parser is handed the system's information.
abbrev pub SocketReads :
    (E : Env) {T : Type 0} → FromReadSi E T → Process E.File → Property E → Type 1
SocketReads E {T} from_read p P =
    (Table : Type 0) (table : T → Table)
    → P _ _ (tcp E from_read table p)
      × P _ _ (tcp6 E from_read table p)
      × P _ _ (udp E from_read table p)
      × P _ _ (udp6 E from_read table p)

module _ {E : Env} {P : Property E} (closed : Closed E P)
    (cached_keeps : (procfs : AsyncProcfs E.File) → P Version E.ProcError (cached E procfs)) where
  pub Closed-NamedReads : (p : Process E.File) (t : Task E.File) → NamedReads E p t P
  unfolding io maps smaps smaps_rollup mountstats mountinfo status stat limits statm schedstat
      syscall snmp snmp6 dev_status unix arp route Tasks.stat Tasks.status Tasks.io Tasks.schedstat
      Tasks.syscall cwd root exe autogroup wchan open_relative read_process_link
  Closed-NamedReads p t = (
    λ T from_read.
        let file = read_with_cursor_keeps closed cached_keeps from_read p in
        (
          file _,
          file _,
          file _,
          file _,
          file _,
          file _,
          file _,
          file _,
          file _,
          file _,
          file _,
          file _,
          file _,
          file _,
        ),
    λ T Table from_read table.
        let entry = λ (path : FilePath).
          closed.bind_keeps _ _ (read_with_cursor_keeps closed cached_keeps from_read p path)
            λ a. closed.pure_keeps (table a) in
        (entry _, entry _, entry _, entry _),
    λ T from_read.
        let file = task_read_keeps closed cached_keeps from_read t in
        (file _, file _, file _, file _, file _),
    try_wrapped_keeps closed _ _ (closed.read_link_at _ _),
    try_wrapped_keeps closed _ _ (closed.read_link_at _ _),
    try_wrapped_keeps closed _ _ (closed.read_link_at _ _),
    read_whole_keeps closed cached_keeps p _,
    read_whole_keeps closed cached_keeps p _,
    λ path. open_file_keeps closed cached_keeps p path,
  )

module _ {E : Env} {P : Property E} (closed : Closed E P) {T : Type 0} (from_read : FromReadSi E T)
    (from_read_keeps : (b : Bytes) (si : AsyncLocalSystemInfo E.File)
      → P T E.ProcError (from_read b si)) where
  pub Closed-SocketReads : (p : Process E.File) → SocketReads E from_read p P
  unfolding tcp tcp6 udp udp6
  Closed-SocketReads p Table table =
      let entry = λ (path : FilePath).
        closed.bind_keeps _ _ (read_si_with_cursor_keeps closed from_read from_read_keeps p path)
          λ a. closed.pure_keeps (table a) in
      (entry _, entry _, entry _, entry _)
