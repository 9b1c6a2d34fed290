-- ===== src/Helpers/Closed.antt =====
-- Properties of the reads and writes of `AsyncProcfsIo`, from those of the operations of the files.
use async_procfs.Prelude.{FilePath, Text, Result}
use async_procfs.Env.{Env}
use async_procfs.Machine.Closed.{Property, Closed, Writes, of_result_keeps}
use async_procfs.Procfs.{AsyncProcfs}
use async_procfs.Helpers.{read_file, write_file, read_value, write_value, write_value_to}

module _ {E : Env} {P : Property E} (closed : Closed E P) where
  module _ (procfs : AsyncProcfs E.File) (path : FilePath) where
    read_file_keeps : P Text E.ProcError (read_file E procfs path)
    unfolding read_file
    read_file_keeps =
        search
          (closed.bind_keeps, closed.map_failed_keeps, closed.open_at, closed.hybrid_read_to_string)

    pub read_value_keeps :
        {T F : Type 0} (parse : Text → Result T F) (from : F → E.ProcError)
        → P T E.ProcError (read_value E parse from procfs path)
    unfolding read_value
    read_value_keeps parse from =
        closed.bind_keeps _ _ read_file_keeps λ text. of_result_keeps closed _

  module _ (writes : Writes E P) where
    pub write_value_keeps :
        (procfs : AsyncProcfs E.File) (path : FilePath) {T : Type 0} (show : T → Text) (value : T)
        → P _ E.ProcError (write_value E show procfs path value)
    unfolding write_value write_file
    write_value_keeps procfs path show value =
        search (closed.bind_keeps, closed.map_failed_keeps, writes.open_any, writes.write_all)

    pub write_value_to_keeps :
        {T : Type 0} (show : T → Text) (file : E.File) (value : T)
        → P _ E.ProcError (write_value_to E show file value)
    unfolding write_value_to
    write_value_to_keeps show file value = search (closed.map_failed_keeps, writes.write_all)
