-- ===== src/Lib.antt =====
-- A model of the crate async_procfs, which reads and writes the files of /proc asynchronously.
--
-- The parts. `AsyncProcfs` is an open directory and its path; every other part takes one. A `Process`, a
-- `Task` and a descriptor are opened below it, and the functions of /proc/sys/kernel read and write one
-- file each. Two pieces of state are shared: the world outside, which every file operation may change, and
-- `KERNEL`, the static atomic in which `Version::cached` keeps the kernel's version. A function of the
-- crate is a function from that state to a `Run`: it returns, fails with an error, or panics, each with
-- the state that it leaves. Every `.await` and every `?` of the source is a step of a do block.
--
-- The files.
--   Prelude           names of the libraries, `Result`, `Run` and lists over the native numbers
--   Std               what the source uses of Rust's library: characters, strings, integers and their
--                     parsers, byte orders, UTF-8 decoding, paths, maps and sets
--   Env, Env/Memory   the crates that the source calls, as one record of parameters, and an instance of
--                     it with files in memory
--   Machine           the state, and how file operations act on it. Machine/Closed says what a property of
--                     runs must keep to pass from the operations of the files to what the crate
--                     composes of them, in Helpers/Closed, Kernel/Closed and Process/Closed. Machine/Calm,
--                     Machine/Settled and Machine/Unchanging are three such properties: never to panic,
--                     to leave the cache as it is or fill it where it is empty, and to leave the world
--                     as it is. The files of these names under Kernel and Process apply them; the
--                     functions whose parser is handed the system's information are in
--                     Process/Closed/Parsers, and the readers by their names in the source in
--                     Process/Closed/Named. Machine/Alike compares two runs up to their errors
--   Procfs            src/lib.rs, with the macro of src/helpers.rs
--   Helpers           src/helpers.rs: `AsyncProcfsIo`, and in Helpers/Traits `IntoOption` and `IntoResult`
--   Runtime           src/runtime.rs
--   SystemInfo        src/system_info.rs
--   Sys               src/sys/mod.rs and the methods of `AsyncProcfsSysKernel`
--   Kernel/Version    src/sys/kernel/mod.rs: `Version`, its parser, its order and its cache, which
--                     Version/Race runs from many tasks at once: Race/Invariant has what always holds of
--                     them, Race/Warm is about calls that begin when another has returned. Version/Cell sets
--                     calls one after the other against a cell for one version, Version/Release starts from the text of the
--                     file, and Version/Grammar is about the texts that the parser accepts, as are the
--                     files Grammar under Kernel/SysRq and Kernel/Semaphores
--   Kernel/BuildInfo, Kernel/Semaphores, Kernel/SysRq, Kernel/Limits
--                     the rest of src/sys/kernel/mod.rs; BuildInfo/Date has the date in a build's text,
--                     BuildInfo/Sets the flags as a set with no order
--   Process           src/process/mod.rs and src/process/task.rs: the handle. Process/Cmdline,
--                     Process/Environ and Process/Auxv have the three readers with loops of their own,
--                     Process/Scores the files of one number, Process/Reading the other files,
--                     Process/Descriptors, Process/Tasks and Process/Listing the three streams.
--                     Descriptors/Polled has the streams as a reader polls them, Descriptors/Reader and
--                     Process/Polling what such a reader sees, and Process/Renamed compares two handles on
--                     one directory
--   Tests             concrete inputs at which the theorems' hypotheses hold
--
-- Correspondence. Definitions keep the source's names; where two types have a method of one name, the
-- model's name says which (`build_from_str` is `BuildInfo::from_str`). A text is the list of its code
-- points, a path and a buffer the list of their bytes. A `HashMap` is an association list that keeps one
-- pair for each key, a `HashSet` a list that keeps each element once. An `Arc` is the value that it holds,
-- since none of its fields changes. A stream is modelled twice: as the list of the items that it has
-- yielded when it has ended, made by a run that opens each entry in turn, and as what one poll of it
-- gives and leaves, between which a reader may do other things, or stop.
--
-- Fuel. The loop of `auxv` takes one unit for each round. A round takes two numbers off the buffer, or ends
-- the loop, so that one unit for each byte and one more is enough, also where a number has no bytes. A reader
-- that polls a stream once more than its directory has entries has come to its end.
--
-- Not modelled. The parsers and types of `procfs_core` are parameters, as are the files of
-- `async_hybrid_fs`, what tokio knows of the caller's runtime and how it blocks on a future, the clock and the page size that rustix
-- returns, and chrono's parsing of dates and its local time. The derived implementations of `Debug`, `Clone`
-- and `Eq`, and the tests, are left out.
pub mod Prelude
pub mod Std
pub mod Env
pub mod Machine
pub mod Procfs
pub mod Helpers
pub mod Kernel
pub mod Runtime
pub mod SystemInfo
pub mod Sys
pub mod Process
pub mod Tests
