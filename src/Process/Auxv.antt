-- ===== src/Process/Auxv.antt =====
-- src/process/mod.rs: `Process::auxv`. The loop takes fuel, one unit for each round; a buffer of `n`
-- bytes never needs more than `n + 1` rounds.
pub mod Decode
pub mod Results
use async_procfs.Prelude.{
  ℕ, zero, suc, ◌+◌, ◌≡◌, Bool, true, false, ◌&&◌, Option, none, some, List, [], ◌∷◌, Bytes, codes,
  leb, ◌==◌, if◌then◌else◌, take, drop, length, Result, ok, err, Run, returned, panicked, ◌>>=◌,
  pure, of_result, map_failed,
}
use async_procfs.Std.Bytes.{from_ne_bytes}
use async_procfs.Std.Maps.{insert}
use async_procfs.Env.{Env, IoError, raw, ErrorKind}
use async_procfs.Machine.{M, State, on_world}
use async_procfs.Procfs.{try_io}
use async_procfs.Process.{Process}
use async_procfs.Process.Reading.{open_file}

-- `HashMap<u64, u64>`.
abbrev pub AuxMap : Type 0
AuxMap = List (ℕ × ℕ)

abbrev pub end_of_file : IoError
end_of_file = raw ErrorKind.unexpected_eof (codes "failed to fill whole buffer")

-- `Cursor::read_exact`: the bytes that fill the buffer, and what is left behind them.
unfoldable pub read_exact : ℕ → Bytes → Option (Bytes × Bytes)
read_exact n buf = if leb n (length buf) then some (take n buf, drop n buf) else none

-- One `usize` from the cursor.
abbrev pub number_of : Bool → Option (Bytes × Bytes) → Option (ℕ × Bytes)
number_of little none = none
number_of little (some (b, rest)) = some (from_ne_bytes little b, rest)

unfoldable pub read_usize : Bool → ℕ → Bytes → Option (ℕ × Bytes)
read_usize little size buf = number_of little (read_exact size buf)

abbrev pub with_value : ℕ → Option (ℕ × Bytes) → Option (ℕ × ℕ × Bytes)
with_value key none = none
with_value key (some (value, rest)) = some (key, value, rest)

abbrev pub with_key : Bool → ℕ → Option (ℕ × Bytes) → Option (ℕ × ℕ × Bytes)
with_key little size none = none
with_key little size (some (key, rest)) = with_value key (read_usize little size rest)

-- The key and the value of a round.
unfoldable pub read_pair : Bool → ℕ → Bytes → Option (ℕ × ℕ × Bytes)
read_pair little size buf = with_key little size (read_usize little size buf)

-- `none` means that the fuel ran out.
unfoldable pub auxv_loop : Bool → ℕ → ℕ → Bytes → AuxMap → Option (Result AuxMap IoError)
auxv_loop little size zero buf m = none
auxv_loop little size (suc rounds) buf m = elim (read_pair little size buf) [
  | none ↦ some (err end_of_file)
  | some (key, value, rest) ↦
      let more = auxv_loop little size rounds rest (insert ◌==◌ key value m) in
      if key == 0 && value == 0 then some (ok m) else more
]

module _ (E : Env) where
  abbrev pub finish : Option (Result AuxMap IoError) → M E AuxMap
  finish none s = panicked (codes "out of fuel") s
  finish (some r) s = map_failed E.from_io (of_result r) s

  unfoldable pub parse_auxv : ℕ → Bytes → M E AuxMap
  parse_auxv bytes_read buf =
      if bytes_read == 0
      then pure []
      else finish (
          auxv_loop E.little_endian E.usize_bytes (suc (length (take bytes_read buf)))
            (take bytes_read buf) [])

  unfoldable pub auxv : Process E.File → M E AuxMap
  auxv p = do
    file ← open_file E p (codes "auxv")
    buf ← try_io E (on_world (E.read_to_end file))
    parse_auxv buf.0 buf.1
