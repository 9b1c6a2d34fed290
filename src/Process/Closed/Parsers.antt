-- ===== src/Process/Closed/Parsers.antt =====
-- The functions whose parser is handed the system's information, and those of src/system_info.rs.
use async_procfs.Prelude.{ℕ, ℤ, refl, Bytes, FilePath, Option}
use async_procfs.Env.{Env}
use async_procfs.Machine.Closed.{Property, Closed, of_result_keeps, try_wrapped_keeps}
use async_procfs.Procfs.{AsyncProcfs, current, current_with_system_info}
use async_procfs.SystemInfo.{
  AsyncLocalSystemInfo, current_si, kernel_stats, load_average, boot_time_secs, boot_time,
}
use async_procfs.Process.{Process}
use async_procfs.Process.Reading.{FromRead, FromReadSi, read_si_with_cursor}

-- What `procfs_core` and chrono give these functions: the parsers of the kernel's statistics, of the load and
-- of one socket table, the boot time in the statistics, and the date of a time stamp.
pub record Parsers (E : Env) : Type 1 where
  pub Stats : Type 0
  pub Load : Type 0
  pub Table : Type 0
  pub Date : Type 0
  pub btime : Stats → ℕ
  pub read_stats : FromReadSi E Stats
  pub read_load : FromRead E Load
  pub read_table : FromReadSi E Table
  pub timestamp : ℤ → Option Date

-- That each of the functions has the property.
abbrev pub ParserReads :
    (E : Env) → Parsers E → AsyncProcfs E.File → Process E.File → Property E → Type 0
ParserReads E parsers procfs p P =
    P _ _ (kernel_stats E parsers.btime parsers.read_stats parsers.read_load procfs)
    × P _ _ (load_average E parsers.btime parsers.read_stats parsers.read_load procfs)
    × P _ _ (boot_time_secs E parsers.btime parsers.read_stats parsers.read_load procfs)
    × P _ _
        (boot_time E parsers.btime parsers.read_stats parsers.read_load parsers.timestamp procfs)
    × ((path : FilePath) → P _ _ (read_si_with_cursor E parsers.read_table p path))

module _ {E : Env} {P : Property E} (closed : Closed E P) {T : Type 0} (from_read : FromReadSi E T)
    (from_read_keeps : (b : Bytes) (si : AsyncLocalSystemInfo E.File)
      → P T E.ProcError (from_read b si)) where
  pub read_si_with_cursor_keeps :
      (p : Process E.File) (path : FilePath) → P _ _ (read_si_with_cursor E from_read p path)
  unfolding read_si_with_cursor
  read_si_with_cursor_keeps p path =
      closed.bind_keeps _ _ (try_wrapped_keeps closed _ _ (closed.open_at _ _ _ refl)) λ file.
        closed.bind_keeps _ _ (try_wrapped_keeps closed _ _ (closed.read_to_end file))
          λ buffer. from_read_keeps _ _

module _ {E : Env} {P : Property E} (closed : Closed E P) (parsers : Parsers E)
    (stats_keeps : (b : Bytes) (si : AsyncLocalSystemInfo E.File)
      → P parsers.Stats E.ProcError (parsers.read_stats b si))
    (table_keeps : (b : Bytes) (si : AsyncLocalSystemInfo E.File)
      → P parsers.Table E.ProcError (parsers.read_table b si)) where
  stats_read_keeps :
      (procfs : AsyncProcfs E.File)
      → P _ _ (kernel_stats E parsers.btime parsers.read_stats parsers.read_load procfs)
  unfolding kernel_stats current_si current_with_system_info
  stats_read_keeps procfs =
      closed.bind_keeps _ _ (try_wrapped_keeps closed _ _ (closed.open_at _ _ _ refl)) λ file.
        closed.bind_keeps _ _ (closed.map_failed_keeps _ _ (closed.read_to_end file))
          λ buffer. stats_keeps _ _

  load_read_keeps :
      (procfs : AsyncProcfs E.File)
      → P _ _ (load_average E parsers.btime parsers.read_stats parsers.read_load procfs)
  unfolding load_average current
  load_read_keeps procfs =
      closed.bind_keeps _ _ (try_wrapped_keeps closed _ _ (closed.open_at _ _ _ refl)) λ file.
        closed.bind_keeps _ _ (closed.map_failed_keeps _ _ (closed.read_to_end file))
          λ buffer. of_result_keeps closed _

  secs_keeps :
      (procfs : AsyncProcfs E.File)
      → P _ _ (boot_time_secs E parsers.btime parsers.read_stats parsers.read_load procfs)
  unfolding boot_time_secs
  secs_keeps procfs =
      closed.bind_keeps _ _ (stats_read_keeps procfs) λ stat. closed.pure_keeps (parsers.btime stat)

  boot_time_keeps :
      (procfs : AsyncProcfs E.File)
      → P _ _
          (boot_time E parsers.btime parsers.read_stats parsers.read_load parsers.timestamp procfs)
  unfolding boot_time
  boot_time_keeps procfs =
      closed.bind_keeps _ _ (secs_keeps procfs) λ secs. of_result_keeps closed _

  pub Closed-ParserReads :
      (procfs : AsyncProcfs E.File) (p : Process E.File) → ParserReads E parsers procfs p P
  Closed-ParserReads procfs p = (
    stats_read_keeps procfs,
    load_read_keeps procfs,
    secs_keeps procfs,
    boot_time_keeps procfs,
    read_si_with_cursor_keeps closed parsers.read_table table_keeps p,
  )
