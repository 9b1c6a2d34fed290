-- ===== src/Process/Renamed.antt =====
-- A process under another path and another pid, on the same open directory.
pub mod Readers
pub mod Streams
pub mod Tasks
pub mod Named
pub mod Errors
use async_procfs.Prelude.{FilePath, ℤ}
use async_procfs.Machine.Alike.{Alike-refl, Alike-bind, Alike-try_wrapped}
use async_procfs.Process.{Process}

pub ruleset alike = (Alike-bind, Alike-try_wrapped, Alike-refl)

abbrev pub renamed : {File : Type 0} → Process File → FilePath → ℤ → Process File
renamed p path pid = record p { path = path; pid = pid }
