-- ===== src/Process/Auxv/Decode.antt =====
-- The loop of `auxv` on the entries that the kernel writes, and its end.
use async_procfs.Prelude.{
  ℕ, zero, suc, ◌+◌, ◌-◌, ◌^◌, ◌<◌, ◌≤◌, ◌≡◌, ◌≢◌, ◌∙◌, refl, ap, sym, Bool-cases, Bool, true,
  false, ◌&&◌, Option, none, some, List, [], ◌∷◌, ◌++◌, Bytes, All, le→leb, subst, ◌==◌,
  if◌then◌else◌, length, length-append, length-drop, take-append, drop-append, Option-cases, inl,
  inr, arith, ok, err,
}
use async_procfs.Std.Bytes.{
  from_ne_bytes, to_ne_bytes, length-to_ne_bytes, from_ne_bytes-to_ne_bytes,
}
use async_procfs.Std.Maps.{insert, lookup}
use async_procfs.Std.Maps.Laws.{lookup-insert_number}
use async_procfs.Process.Auxv.{
  AuxMap, end_of_file, read_exact, read_usize, read_pair, number_of, with_key, with_value,
  auxv_loop,
}

read_exact-append : (x rest : Bytes) → read_exact (length x) (x ++ rest) ≡ some (x, rest)
unfolding read_exact
read_exact-append x rest = rw (
  le→leb (length x) (length (x ++ rest)) (omega (arith, length-append x rest)),
  take-append x rest,
  drop-append x rest,
)

read_usize_short :
    (little : Bool) (size : ℕ) (buf : Bytes) → length buf < size → read_usize little size buf ≡ none
unfolding read_usize read_exact
read_usize_short little size buf h = ground arith

read_usize_zero : (little : Bool) (buf : Bytes) → read_usize little 0 buf ≡ some (0, buf)
unfolding read_usize read_exact from_ne_bytes
read_usize_zero true buf = ground arith
read_usize_zero false buf = ground arith

read_pair_zero : (little : Bool) (buf : Bytes) → read_pair little 0 buf ≡ some (0, 0, buf)
unfolding read_pair
read_pair_zero little buf =
    ap (with_key little 0) (read_usize_zero little buf)
    ∙ ap (with_value 0) (read_usize_zero little buf)

module _ (little : Bool) (size : ℕ) where
  -- A buffer that begins with a number of `usize` gives that number and the rest.
  read_usize-append :
      (n : ℕ) (rest : Bytes)
      → n < 256 ^ size
      → read_usize little size (to_ne_bytes little size n ++ rest) ≡ some (n, rest)
  unfolding read_usize
  read_usize-append n rest fits =
      ap (number_of little) (
        subst
          (λ (z : ℕ).
            read_exact z (to_ne_bytes little size n ++ rest)
            ≡ some (to_ne_bytes little size n, rest))
          (length-to_ne_bytes little size n) (read_exact-append (to_ne_bytes little size n) rest))
      ∙ rw (from_ne_bytes-to_ne_bytes little size n fits)

  pub read_pair-append :
      (k v : ℕ) (rest : Bytes)
      → k < 256 ^ size
      → v < 256 ^ size
      → read_pair little size (to_ne_bytes little size k ++ (to_ne_bytes little size v ++ rest))
        ≡ some (k, v, rest)
  unfolding read_pair
  read_pair-append k v rest p q =
      ap (with_key little size) (read_usize-append k (to_ne_bytes little size v ++ rest) p)
      ∙ ap (with_value k) (read_usize-append v rest q)

  read_usize-length :
      (buf : Bytes) {n : ℕ} {rest : Bytes}
      → read_usize little size buf ≡ some (n, rest)
      → length rest + size ≡ length buf
  unfolding read_usize read_exact
  read_usize-length buf h = ground (arith, length-drop size buf)

  -- What is left after a pair is shorter by twice the size.
  read_pair-length :
      (buf : Bytes) {k v : ℕ} {rest : Bytes}
      → read_pair little size buf ≡ some (k, v, rest)
      → length rest + size + size ≡ length buf
  unfolding read_pair
  read_pair-length buf {k} {v} {rest} h = elim (Option-cases (read_usize little size buf)) [
    | inl short ↦ absurd (ground arith)
    | inr (a, e) ↦
        let first = read_usize-length buf {n = a.0} {rest = a.1} e in
        elim (Option-cases (read_usize little size a.1)) [
          | inl short ↦ absurd (ground arith)
          | inr (b, f) ↦ let second = read_usize-length a.1 {n = b.0} {rest = b.1} f in ground arith
        ]
  ]

  read_pair_at_zero : (buf : Bytes) → size ≡ 0 → read_pair little size buf ≡ some (0, 0, buf)
  read_pair_at_zero buf e =
      subst (λ (z : ℕ). read_pair little z buf ≡ some (0, 0, buf)) (sym e)
        (read_pair_zero little buf)

  -- The loop ends: a buffer takes fewer rounds than it has bytes, and one more.
  pub auxv_loop_total :
      (rounds : ℕ) (buf : Bytes) (m : AuxMap)
      → length buf < rounds
      → auxv_loop little size rounds buf m ≢ none
  unfolding auxv_loop
  auxv_loop_total zero buf m h = absurd (omega arith)
  auxv_loop_total (suc rounds) buf m h = elim (Option-cases (read_pair little size buf)) [
    | inl short ↦ ground arith
    | inr (a, e) ↦ elim (Bool-cases (size == 0)) [
      | inl none_read ↦ ground (arith, read_pair_at_zero buf (ground arith))
      | inr some_read ↦
          let shorter = read_pair-length buf {k = a.0} {v = a.1} {rest = a.2} e in
          ground (arith, auxv_loop_total rounds a.2 (insert ◌==◌ a.0 a.1 m) (ground arith))
    ]
  ]

-- The entries, one number behind the other, each in `size` bytes, and what stands behind them.
abbrev pub entries : Bool → ℕ → List (ℕ × ℕ) → Bytes → Bytes
entries little size [] rest = rest
entries little size ((k, v) ∷ ps) rest =
    to_ne_bytes little size k ++ (to_ne_bytes little size v ++ entries little size ps rest)

-- The terminator.
abbrev pub null_entry : List (ℕ × ℕ)
null_entry = (0, 0) ∷ []

-- An entry whose numbers fit `usize`, and which is not the terminator.
abbrev pub IsEntry : ℕ → ℕ × ℕ → Type 0
IsEntry size (k, v) = (k < 256 ^ size) × (v < 256 ^ size) × ((k == 0 && v == 0) ≡ false)

-- The map that the entries make, one after the other, and the value of the last entry of a key.
abbrev pub insert_all : List (ℕ × ℕ) → AuxMap → AuxMap
insert_all [] m = m
insert_all ((k, v) ∷ ps) m = insert_all ps (insert ◌==◌ k v m)

abbrev pub last_entry : ℕ → List (ℕ × ℕ) → Option ℕ → Option ℕ
last_entry k [] found = found
last_entry k ((j, v) ∷ ps) found = last_entry k ps (if j == k then some v else found)

pub lookup-insert_all :
    (k : ℕ) (ps : List (ℕ × ℕ)) (m : AuxMap)
    → lookup ◌==◌ k (insert_all ps m) ≡ last_entry k ps (lookup ◌==◌ k m)
lookup-insert_all k [] m = refl
lookup-insert_all k ((j, v) ∷ ps) m =
    lookup-insert_all k ps (insert ◌==◌ j v m) ∙ ap (last_entry k ps) (lookup-insert_number k j v m)

module _ (little : Bool) (size : ℕ) where
  auxv_loop_step :
      (n : ℕ) (buf : Bytes) (m : AuxMap) (k v : ℕ) (rest : Bytes)
      → read_pair little size buf ≡ some (k, v, rest)
      → (k == 0 && v == 0) ≡ false
      → auxv_loop little size (suc n) buf m ≡ auxv_loop little size n rest (insert ◌==◌ k v m)
  unfolding auxv_loop
  auxv_loop_step n buf m k v rest e more = ground arith

  auxv_loop_end :
      (n : ℕ) (buf : Bytes) (m : AuxMap) (rest : Bytes)
      → read_pair little size buf ≡ some (0, 0, rest)
      → auxv_loop little size (suc n) buf m ≡ some (ok m)
  unfolding auxv_loop
  auxv_loop_end n buf m rest e = ground arith

  auxv_loop_short :
      (n : ℕ) (buf : Bytes) (m : AuxMap)
      → read_pair little size buf ≡ none
      → auxv_loop little size (suc n) buf m ≡ some (err end_of_file)
  unfolding auxv_loop
  auxv_loop_short n buf m e = ground arith

  -- Entries in front of a buffer are inserted, one round each.
  auxv_loop-entries :
      (ps : List (ℕ × ℕ)) (rest : Bytes) (rounds : ℕ) (m : AuxMap)
      → All (IsEntry size) ps
      → auxv_loop little size (length ps + rounds) (entries little size ps rest) m
        ≡ auxv_loop little size rounds rest (insert_all ps m)
  auxv_loop-entries [] rest rounds m h =
      ap (λ (n : ℕ). auxv_loop little size n rest m) (omega arith)
  auxv_loop-entries ((k, v) ∷ ps) rest rounds m (h, hs) =
      ap (λ (n : ℕ). auxv_loop little size n (entries little size ((k, v) ∷ ps) rest) m)
        (omega arith)
      ∙ auxv_loop_step (length ps + rounds) (entries little size ((k, v) ∷ ps) rest) m k v
          (entries little size ps rest)
          (read_pair-append little size k v (entries little size ps rest) h.0 h.1) h.2
      ∙ auxv_loop-entries ps rest rounds (insert ◌==◌ k v m) hs

  pub length-entries :
      (ps : List (ℕ × ℕ)) (rest : Bytes)
      → All (IsEntry size) ps
      → length ps + length rest ≤ length (entries little size ps rest)
  length-entries [] rest h = omega arith
  length-entries ((k, v) ∷ ps) rest (h, hs) =
      let first =
        read_pair-length little size (entries little size ((k, v) ∷ ps) rest)
          (read_pair-append little size k v (entries little size ps rest) h.0 h.1) in
      let more = length-entries ps rest hs in
      elim (Bool-cases (size == 0)) [
        | inl zero_size ↦ absurd (entry_needs_size k v (ground arith) h)
        | inr sized ↦ ground arith
      ]
    where
      entry_needs_size : (k v : ℕ) → size ≡ 0 → IsEntry size (k, v) → ⊥
      entry_needs_size k v e h =
          let small_k : k < 256 ^ 0 = subst (λ (z : ℕ). k < 256 ^ z) e h.0 in
          let small_v : v < 256 ^ 0 = subst (λ (z : ℕ). v < 256 ^ z) e h.1 in
          let differs = h.2 in ground arith

  -- With a round for each byte and one more, entries that fit `usize` and are not the terminator are
  -- all inserted, in their order, and what stands behind the terminator is not read.
  pub auxv_loop_decodes :
      (ps : List (ℕ × ℕ)) (behind : Bytes) (m : AuxMap)
      → All (IsEntry size) ps
      → 0 < 256 ^ size
      → auxv_loop little size
          (suc (length (entries little size ps (entries little size null_entry behind))))
          (entries little size ps (entries little size null_entry behind))
          m
        ≡ some (ok (insert_all ps m))
  auxv_loop_decodes ps behind m h fits =
      let buf = entries little size ps (entries little size null_entry behind) in
      let spare = length buf - length ps in
      let long = length-entries ps (entries little size null_entry behind) h in
      ap (λ (n : ℕ). auxv_loop little size n buf m) (omega arith)
      ∙ auxv_loop-entries ps (entries little size null_entry behind) (suc spare) m h
      ∙ auxv_loop_end spare (entries little size null_entry behind) (insert_all ps m) behind
          (read_pair-append little size 0 0 behind fits fits)

  -- Less than a key and a value.
  read_pair_short : (buf : Bytes) → length buf < size + size → read_pair little size buf ≡ none
  unfolding read_pair read_usize read_exact
  read_pair_short buf short = ground (arith, length-drop size buf)

  -- Where the bytes end before the terminator, inside an entry, the loop fails with the end of the file.
  pub auxv_loop_truncated :
      (ps : List (ℕ × ℕ)) (rest : Bytes) (m : AuxMap)
      → All (IsEntry size) ps
      → length rest < size + size
      → auxv_loop little size
          (suc (length (entries little size ps rest)))
          (entries little size ps rest)
          m
        ≡ some (err end_of_file)
  auxv_loop_truncated ps rest m h short =
      let buf = entries little size ps rest in
      let spare = length buf - length ps in
      let long = length-entries ps rest h in
      ap (λ (n : ℕ). auxv_loop little size n buf m) (omega arith)
      ∙ auxv_loop-entries ps rest (suc spare) m h
      ∙ auxv_loop_short spare rest (insert_all ps m) (read_pair_short rest short)
