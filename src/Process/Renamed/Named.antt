-- ===== src/Process/Renamed/Named.antt =====
-- The readers of a process by their names, under two names of the process.
use async_procfs.Prelude.{ℤ, FilePath}
use async_procfs.Env.{Env}
use async_procfs.Machine.Alike.{Alike, Alike-map_run, Alike-try_wrapped}
use async_procfs.Process.{Process}
use async_procfs.Process.Reading.{
  FromRead, FromReadSi, io, maps, smaps, smaps_rollup, mountstats, mountinfo, status, stat, limits,
  statm, schedstat, syscall, snmp, snmp6, dev_status, unix, arp, route, tcp, tcp6, udp, udp6, cwd,
  root, exe, autogroup, wchan, open_relative, read_process_link,
}
use async_procfs.Process.Renamed.{renamed}
use async_procfs.Process.Renamed.Readers.{
  open_file-Alike, read_whole-Alike, read_with_cursor-Alike, read_si_with_cursor-Alike,
}

-- That two handles give runs that are alike, from each of the readers.
abbrev pub NamedAreAlike : (E : Env) → Process E.File → Process E.File → Type 1
NamedAreAlike E p q =
    ((T : Type 0) (from_read : FromRead E T)
      → Alike (io E from_read p) (io E from_read q)
        × Alike (maps E from_read p) (maps E from_read q)
        × Alike (smaps E from_read p) (smaps E from_read q)
        × Alike (smaps_rollup E from_read p) (smaps_rollup E from_read q)
        × Alike (mountstats E from_read p) (mountstats E from_read q)
        × Alike (mountinfo E from_read p) (mountinfo E from_read q)
        × Alike (status E from_read p) (status E from_read q)
        × Alike (stat E from_read p) (stat E from_read q)
        × Alike (limits E from_read p) (limits E from_read q)
        × Alike (statm E from_read p) (statm E from_read q)
        × Alike (schedstat E from_read p) (schedstat E from_read q)
        × Alike (syscall E from_read p) (syscall E from_read q)
        × Alike (snmp E from_read p) (snmp E from_read q)
        × Alike (snmp6 E from_read p) (snmp6 E from_read q))
    × ((T Table : Type 0) (from_read : FromRead E T) (table : T → Table)
        → Alike (dev_status E from_read table p) (dev_status E from_read table q)
          × Alike (unix E from_read table p) (unix E from_read table q)
          × Alike (arp E from_read table p) (arp E from_read table q)
          × Alike (route E from_read table p) (route E from_read table q))
    × ((T Table : Type 0) (from_read : FromReadSi E T) (table : T → Table)
        → Alike (tcp E from_read table p) (tcp E from_read table q)
          × Alike (tcp6 E from_read table p) (tcp6 E from_read table q)
          × Alike (udp E from_read table p) (udp E from_read table q)
          × Alike (udp6 E from_read table p) (udp6 E from_read table q))
    × Alike (cwd E p) (cwd E q)
    × Alike (root E p) (root E q)
    × Alike (exe E p) (exe E q)
    × Alike (autogroup E p) (autogroup E q)
    × Alike (wchan E p) (wchan E q)
    × ((path : FilePath) → Alike (open_relative E p path) (open_relative E q path))

pub named-Alike :
    (E : Env) (p : Process E.File) (path : FilePath) (pid : ℤ)
    → NamedAreAlike E p (renamed p path pid)
unfolding io maps smaps smaps_rollup mountstats mountinfo status stat limits statm schedstat syscall
    snmp snmp6 dev_status unix arp route tcp tcp6 udp udp6 cwd root exe autogroup wchan
    open_relative read_process_link
named-Alike E p path pid = (
  λ T from_read.
      let file = read_with_cursor-Alike E p path pid from_read in
      (
        file _,
        file _,
        file _,
        file _,
        file _,
        file _,
        file _,
        file _,
        file _,
        file _,
        file _,
        file _,
        file _,
        file _,
      ),
  λ T Table from_read table.
      let file = read_with_cursor-Alike E p path pid from_read in
      (
        Alike-map_run table _ _ (file _),
        Alike-map_run table _ _ (file _),
        Alike-map_run table _ _ (file _),
        Alike-map_run table _ _ (file _),
      ),
  λ T Table from_read table.
      let file = read_si_with_cursor-Alike E p path pid from_read in
      (
        Alike-map_run table _ _ (file _),
        Alike-map_run table _ _ (file _),
        Alike-map_run table _ _ (file _),
        Alike-map_run table _ _ (file _),
      ),
  Alike-try_wrapped E _ _ _,
  Alike-try_wrapped E _ _ _,
  Alike-try_wrapped E _ _ _,
  read_whole-Alike E p path pid _,
  read_whole-Alike E p path pid _,
  λ relpath. open_file-Alike E p path pid relpath,
)
