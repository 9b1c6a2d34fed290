-- ===== src/Process/Auxv/Results.antt =====
-- What `Process::auxv` returns for the bytes that the kernel writes, and for bytes that break off.
use async_procfs.Prelude.{
  ℕ, suc, ◌+◌, ◌<◌, ◌≡◌, ◌≢◌, ◌∙◌, false, none, some, Option, inl, inr, List, [], All, Bytes, Text,
  codes, length, length-append, take, take-length, ◌++◌, arith, Bool-cases, Result, ok, err,
  returned, failed, panicked, ◌==◌,
}
use native.Mathlib.Nat.{one-le-pow}
use async_procfs.Std.Bytes.{to_ne_bytes, length-to_ne_bytes}
use async_procfs.Std.Maps.{lookup}
use async_procfs.Env.{Env, IoError}
use async_procfs.Machine.{State}
use async_procfs.Procfs.{read_options}
use async_procfs.Process.{Process}
use async_procfs.Process.Auxv.{AuxMap, auxv_loop, parse_auxv, auxv, end_of_file}
use async_procfs.Process.Auxv.Decode.{
  entries, null_entry, IsEntry, insert_all, last_entry, lookup-insert_all, auxv_loop_total,
  auxv_loop_decodes, auxv_loop_truncated, length-entries,
}

module _ (E : Env) where
  -- A read that reported as many bytes as it returned, and not none.
  abbrev full_loop : Bytes → Option (Result AuxMap IoError)
  full_loop buf = auxv_loop E.little_endian E.usize_bytes (suc (length buf)) buf []

  parse_auxv_ok :
      (buf : Bytes) (m : AuxMap) (s : State E.World)
      → (length buf == 0) ≡ false
      → full_loop buf ≡ some (ok m)
      → parse_auxv E (length buf) buf s ≡ returned m s
  unfolding parse_auxv
  parse_auxv_ok buf m s long h = rw (long, take-length, h)

  parse_auxv_err :
      (buf : Bytes) (e : IoError) (s : State E.World)
      → (length buf == 0) ≡ false
      → full_loop buf ≡ some (err e)
      → parse_auxv E (length buf) buf s ≡ failed (E.from_io e) s
  unfolding parse_auxv
  parse_auxv_err buf e s long h = rw (long, take-length, h)

  -- However many bytes the read reported and returned, the loop ends within its fuel and gives a map or
  -- an error, never the panic that stands for the fuel running out.
  pub parse_auxv_total :
      (n : ℕ) (buf : Bytes) (s t : State E.World) (p : Text) → parse_auxv E n buf s ≢ panicked p t
  unfolding parse_auxv
  parse_auxv_total n buf s t p h =
      let total =
        auxv_loop_total E.little_endian E.usize_bytes (suc (length (take n buf))) (take n buf) []
          (omega arith) in
      ground arith

module _ (E : Env) (p : Process E.File) (buf : Bytes) (s : State E.World) (w₁ w₂ : E.World)
    (file : E.File) where
  auxv_reads :
      E.open_at p.fd (codes "auxv") (read_options E) s.world ≡ returned file w₁
      → E.read_to_end file w₁ ≡ returned (length buf, buf) w₂
      → auxv E p s ≡ parse_auxv E (length buf) buf (record s { world = w₂ })
  unfolding auxv
  auxv_reads opened read = ground arith

-- The bytes of the entries `ps`, and of `ps` with the terminator and what stands behind it.
abbrev pub entry_bytes : Env → List (ℕ × ℕ) → Bytes → Bytes
entry_bytes E ps rest = entries E.little_endian E.usize_bytes ps rest

abbrev pub vector_bytes : Env → List (ℕ × ℕ) → Bytes → Bytes
vector_bytes E ps behind = entry_bytes E ps (entry_bytes E null_entry behind)

module _ (E : Env) (p : Process E.File) (ps : List (ℕ × ℕ)) (s : State E.World) (w₁ w₂ : E.World)
    (file : E.File) (sized : 0 < E.usize_bytes) (fits : All (IsEntry E.usize_bytes) ps) where
  vector_not_empty : (behind : Bytes) → (length (vector_bytes E ps behind) == 0) ≡ false
  vector_not_empty behind =
      let long =
        length-entries E.little_endian E.usize_bytes ps (entry_bytes E null_entry behind) fits in
      let tail = entry_bytes E null_entry behind in
      let zero_bytes = to_ne_bytes E.little_endian E.usize_bytes 0 in
      let split = length-append zero_bytes (zero_bytes ++ behind) in
      let size = length-to_ne_bytes E.little_endian E.usize_bytes 0 in
      elim (Bool-cases (length (vector_bytes E ps behind) == 0)) [
        | inl empty ↦ absurd (ground arith)
        | inr some_bytes ↦ some_bytes
      ]

  -- Where the vector can be opened and holds entries that fit `usize` and are not the terminator, then
  -- the terminator and any bytes behind it, `auxv` returns a map in which every key has the value of its
  -- last entry, and a key of no entry is absent.
  pub auxv_lem :
      (behind : Bytes) (k : ℕ)
      → E.open_at p.fd (codes "auxv") (read_options E) s.world ≡ returned file w₁
      → E.read_to_end file w₁
        ≡ returned (length (vector_bytes E ps behind), vector_bytes E ps behind) w₂
      → (m : AuxMap) × (auxv E p s ≡ returned m (record s { world = w₂ }))
        × (lookup ◌==◌ k m ≡ last_entry k ps none)
  unfolding lookup
  auxv_lem behind k opened read = (
    insert_all ps [],
    auxv_reads E p (vector_bytes E ps behind) s w₁ w₂ file opened read
        ∙ parse_auxv_ok E (vector_bytes E ps behind) (insert_all ps []) (record s { world = w₂ })
            (vector_not_empty behind)
            (auxv_loop_decodes E.little_endian E.usize_bytes ps behind [] fits
              (one-le-pow E.usize_bytes 256 (omega arith))),
    lookup-insert_all k ps [],
  )

  -- Where the file can be opened and read and its bytes, which are not none, are entries that fit `usize`
  -- and are not the terminator, and then fewer bytes than a key and a value have, so that they end inside a
  -- key, inside a value, or between either of these and what should follow, `auxv` fails with an unexpected
  -- end of the file.
  pub auxv_truncated :
      (rest : Bytes)
      → length rest < E.usize_bytes + E.usize_bytes
      → 0 < length (entry_bytes E ps rest)
      → E.open_at p.fd (codes "auxv") (read_options E) s.world ≡ returned file w₁
      → E.read_to_end file w₁ ≡ returned (length (entry_bytes E ps rest), entry_bytes E ps rest) w₂
      → auxv E p s ≡ failed (E.from_io end_of_file) (record s { world = w₂ })
  auxv_truncated rest short long opened read =
      auxv_reads E p (entry_bytes E ps rest) s w₁ w₂ file opened read
      ∙ parse_auxv_err E (entry_bytes E ps rest) end_of_file (record s { world = w₂ })
          (ground arith) (auxv_loop_truncated E.little_endian E.usize_bytes ps rest [] fits short)
