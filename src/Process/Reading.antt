-- ===== src/Process/Reading.antt =====
-- src/process/mod.rs: the files of a process that `procfs_core` parses, and the other small readers.
-- Each type that is read gives its `from_read`; one that needs the system's information may ask for
-- it, which may read files.
pub mod Errors
pub mod Alive
use async_procfs.Prelude.{
  ℕ, ℤ, Bool, true, false, not, ◌&&◌, Option, none, some, [], ◌∷◌, List, Text, Bytes, FilePath,
  codes, ◌==◌, if◌then◌else◌, Result, ok, err, Run, ◌>>=◌, pure, attempt, map_run, of_result,
}
use async_procfs.Std.Paths.{join}
use async_procfs.Env.{Env, Flag, OpenOptions, from_flag_and_mode}
use async_procfs.Machine.{M, on_world}
use async_procfs.Procfs.{AsyncProcfs, try_io, try_wrapped, read_options}
use async_procfs.SystemInfo.{AsyncLocalSystemInfo, current_system_info}
use async_procfs.Process.{Process}

module _ (E : Env) where
  open E use {ProcError, File}

  -- What a type needs to be read from a file.
  abbrev pub FromRead : Type 0 → Type 0
  FromRead T = Bytes → Result T ProcError

  abbrev pub FromReadSi : Type 0 → Type 0
  FromReadSi T = Bytes → AsyncLocalSystemInfo File → M E T

  -- `open_at(relpath, read)` with the file's own path in the error.
  abbrev pub open_file : Process File → FilePath → M E File
  open_file p relpath =
      try_wrapped E (join p.path relpath) (E.open_at p.fd relpath (read_options E))

  -- The read names `io` in its error, whatever the file is.
  unfoldable pub read_with_cursor : {T : Type 0} → FromRead T → Process File → FilePath → M E T
  read_with_cursor from_read p relpath = do
    file ← open_file p relpath
    buffer ← try_wrapped E (join p.path (codes "io")) (E.read_to_end file)
    of_result (from_read buffer.1)

  unfoldable pub read_si_with_cursor : {T : Type 0} → FromReadSi T → Process File → FilePath → M E T
  read_si_with_cursor from_read p relpath = do
    file ← open_file p relpath
    buffer ← try_wrapped E (join p.path (codes "io")) (E.read_to_end file)
    from_read buffer.1 (current_system_info p.procfs)

  -- The whole of a file as text, the error of the read without a path.
  unfoldable pub read_whole : Process File → FilePath → M E Text
  read_whole p relpath = do file ← open_file p relpath; try_io E (on_world (E.read_to_string file))

  -- The files that are returned as they are parsed.
  module _ {T : Type 0} (from_read : FromRead T) (p : Process File) where
    unfoldable pub io : M E T
    io = read_with_cursor from_read p (codes "io")

    unfoldable pub maps : M E T
    maps = read_with_cursor from_read p (codes "maps")

    unfoldable pub smaps : M E T
    smaps = read_with_cursor from_read p (codes "smaps")

    unfoldable pub smaps_rollup : M E T
    smaps_rollup = read_with_cursor from_read p (codes "smaps_rollup")

    unfoldable pub mountstats : M E T
    mountstats = read_with_cursor from_read p (codes "mountstats")

    unfoldable pub mountinfo : M E T
    mountinfo = read_with_cursor from_read p (codes "mountinfo")

    unfoldable pub status : M E T
    status = read_with_cursor from_read p (codes "status")

    unfoldable pub stat : M E T
    stat = read_with_cursor from_read p (codes "stat")

    unfoldable pub limits : M E T
    limits = read_with_cursor from_read p (codes "limits")

    unfoldable pub statm : M E T
    statm = read_with_cursor from_read p (codes "statm")

    unfoldable pub schedstat : M E T
    schedstat = read_with_cursor from_read p (codes "schedstat")

    unfoldable pub syscall : M E T
    syscall = read_with_cursor from_read p (codes "syscall")

    unfoldable pub snmp : M E T
    snmp = read_with_cursor from_read p (codes "net/snmp")

    unfoldable pub snmp6 : M E T
    snmp6 = read_with_cursor from_read p (codes "net/snmp6")

  -- The tables of the network, taken out of the type that wraps each of them.
  module _ {T Table : Type 0} (from_read : FromRead T) (table : T → Table) (p : Process File) where
    unfoldable pub dev_status : M E Table
    dev_status = map_run table (read_with_cursor from_read p (codes "net/dev"))

    unfoldable pub unix : M E Table
    unix = map_run table (read_with_cursor from_read p (codes "net/unix"))

    unfoldable pub arp : M E Table
    arp = map_run table (read_with_cursor from_read p (codes "net/arp"))

    unfoldable pub route : M E Table
    route = map_run table (read_with_cursor from_read p (codes "net/route"))

  -- The socket tables, whose parser is handed the system's information.
  module _ {T Table : Type 0} (from_read : FromReadSi T) (table : T → Table)
      (p : Process File) where
    unfoldable pub tcp : M E Table
    tcp = map_run table (read_si_with_cursor from_read p (codes "net/tcp"))

    unfoldable pub tcp6 : M E Table
    tcp6 = map_run table (read_si_with_cursor from_read p (codes "net/tcp6"))

    unfoldable pub udp : M E Table
    udp = map_run table (read_si_with_cursor from_read p (codes "net/udp"))

    unfoldable pub udp6 : M E Table
    udp6 = map_run table (read_si_with_cursor from_read p (codes "net/udp6"))

  -- Alive unless the state is `Z` or `X`, or the file cannot be read.
  abbrev pub alive_state : {T F : Type 0} → (T → ℕ) → Result T F → Bool
  alive_state state (ok stat) = not (state stat == b'Z') && not (state stat == b'X')
  alive_state state (err e) = false

  unfoldable pub is_alive : {T : Type 0} → FromRead T → (T → ℕ) → Process File → M E Bool
  is_alive from_read state p = do
    outcome ← attempt (stat from_read p)
    pure (alive_state state outcome)

  unfoldable pub metadata : Process File → M E E.Metadata
  metadata p = try_io E (on_world (E.hybrid_metadata p.fd))

  unfoldable pub uid : Process File → M E ℕ
  uid p = map_run E.uid (metadata p)

  -- The links of a process.
  unfoldable pub read_process_link : FilePath → Process File → M E FilePath
  read_process_link name p = try_wrapped E (join p.path name) (E.read_link_at p.fd name)

  unfoldable pub cwd : Process File → M E FilePath
  cwd = read_process_link (codes "cwd")

  unfoldable pub root : Process File → M E FilePath
  root = read_process_link (codes "root")

  unfoldable pub exe : Process File → M E FilePath
  exe = read_process_link (codes "exe")

  unfoldable pub autogroup : Process File → M E Text
  autogroup p = read_whole p (codes "autogroup")

  unfoldable pub wchan : Process File → M E Text
  wchan p = read_whole p (codes "wchan")

  unfoldable pub mem : Process File → M E File
  mem p = open_file p (codes "mem")

  unfoldable pub open_relative : Process File → FilePath → M E File
  open_relative p path = open_file p path

  unfoldable pub open_relative_flags : Process File → FilePath → List Flag → M E File
  open_relative_flags p path flags =
      try_wrapped E (join p.path path) (E.open_at p.fd path (from_flag_and_mode flags 0))
