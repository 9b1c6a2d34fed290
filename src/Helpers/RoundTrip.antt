-- ===== src/Helpers/RoundTrip.antt =====
-- Reading values from files, and reading them back after they were written.
use async_procfs.Prelude.{
  All, ℕ, FilePath, Text, Bytes, ◌≡◌, ◌≢◌, ◌++◌, [], Result, ok, returned, arith, Run-cases, inl,
  inr, ◌<◌, ◌^◌, false, All-weaken,
}
use async_procfs.Std.Strings.{trim}
use async_procfs.Std.Strings.Laws.{Full, Free, trim_word}
use async_procfs.Std.Chars.{is_whitespace, IsDigit}
use async_procfs.Std.Utf8.{as_bytes}
use async_procfs.Std.Ints.{show_uint, parse_uint}
use async_procfs.Std.Ints.RoundTrip.{
  show_uint-All, show_uint-ne-nil, show_uint-ascii, parse_uint-show_uint,
}
use async_procfs.Env.{Env}
use async_procfs.Machine.{State}
use async_procfs.Procfs.{AsyncProcfs, read_options}
use async_procfs.Helpers.{read_file, write_file, read_value, write_value, write_options}

-- A file that keeps what is written to it: after a complete write of an ASCII text from the start, opening
-- the file for reading gives that text and the white space `tail` behind it.
pub record Keeps (E : Env) (procfs : AsyncProcfs E.File) (path : FilePath) (tail : Text)
    : Type 0 where
  pub tail_is_space : Full is_whitespace tail
  pub shown :
      (text : Text) (w w₁ w₂ : E.World) (f : E.File)
      → All (λ c. c < 0x80) text
      → E.open_at procfs.file path (write_options E) w ≡ returned f w₁
      → E.write_all f (as_bytes text) w₁ ≡ returned tt w₂
      → (g : E.File) × (w₃ : E.World) × (w₄ : E.World) × (E.open_at procfs.file path
            (read_options E)
            w₂
          ≡ returned g w₃)
        × (E.hybrid_read_to_string g w₃ ≡ returned (text ++ tail) w₄)

module _ (E : Env) (procfs : AsyncProcfs E.File) (path : FilePath) where
  -- A write that returned opened the file and wrote all of the bytes.
  write_file_steps :
      (bytes : Bytes) (s t : State E.World)
      → write_file E procfs path bytes s ≡ returned tt t
      → (f : E.File) × (w₁ : E.World) × (E.open_at procfs.file path (write_options E) s.world
          ≡ returned f w₁)
        × (E.write_all f bytes w₁ ≡ returned tt t.world)
  unfolding write_file
  write_file_steps bytes s t h =
      elim (Run-cases (E.open_at procfs.file path (write_options E) s.world)) [
        | inl (f, w₁, opened) ↦ (f, w₁, opened, ground arith)
        | inr (inl (e, w₁, stopped)) ↦ absurd (ground arith)
        | inr (inr (p, w₁, stopped)) ↦ absurd (ground arith)
      ]

  read_file_steps :
      (g : E.File) (text : Text) (s : State E.World) (w₃ w₄ : E.World)
      → E.open_at procfs.file path (read_options E) s.world ≡ returned g w₃
      → E.hybrid_read_to_string g w₃ ≡ returned text w₄
      → read_file E procfs path s ≡ returned text (record s { world = w₄ })
  unfolding read_file
  read_file_steps g text s w₃ w₄ h k = ground arith

  -- The value of a file whose text, without the white space around it, is parsed to that value.
  pub read_value_trimmed :
      {R F : Type 0} (parse : Text → Result R F) (from : F → E.ProcError) (g : E.File)
      (text word : Text) (r : R) (s : State E.World) (w₁ w₂ : E.World)
      → E.open_at procfs.file path (read_options E) s.world ≡ returned g w₁
      → E.hybrid_read_to_string g w₁ ≡ returned text w₂
      → trim text ≡ word
      → parse word ≡ ok r
      → read_value E parse from procfs path s ≡ returned r (record s { world = w₂ })
  unfolding read_value
  read_value_trimmed parse from g text word r s w₁ w₂ opened read trimmed parsed =
      rw (read_file_steps g text s w₁ w₂ opened read, trimmed, parsed)

  pub read_value_word :
      {R F : Type 0} (parse : Text → Result R F) (from : F → E.ProcError) (g : E.File)
      (before word after : Text) (r : R) (s : State E.World) (w₁ w₂ : E.World)
      → E.open_at procfs.file path (read_options E) s.world ≡ returned g w₁
      → E.hybrid_read_to_string g w₁ ≡ returned (before ++ (word ++ after)) w₂
      → Full is_whitespace before
      → Free is_whitespace word
      → Full is_whitespace after
      → word ≢ []
      → parse word ≡ ok r
      → read_value E parse from procfs path s ≡ returned r (record s { world = w₂ })
  read_value_word parse from g before word after r s w₁ w₂ opened read front free back full parsed =
      read_value_trimmed parse from g (before ++ (word ++ after)) word r s w₁ w₂ opened read
        (trim_word before word after front free back full) parsed

  module _ (tail : Text) (keeps : Keeps E procfs path tail) where
    read_file-write_file :
        (text : Text) (s t : State E.World)
        → All (λ c. c < 0x80) text
        → write_file E procfs path (as_bytes text) s ≡ returned tt t
        → (u : State E.World) × (read_file E procfs path t ≡ returned (text ++ tail) u)
    read_file-write_file text s t ascii h =
        let (f, w₁, opened, written) = write_file_steps (as_bytes text) s t h in
        let (g, w₃, w₄, reopened, shown) =
          keeps.shown text s.world w₁ t.world f ascii opened written in
        (record t { world = w₄ }, read_file_steps g (text ++ tail) t w₃ w₄ reopened shown)

    -- A value whose print is a word is read back after it was written, as what its print is parsed to.
    pub read_value-write_value :
        {T R F : Type 0} (parse : Text → Result R F) (from : F → E.ProcError) (show : T → Text)
        (v : T) (r : R)
        → parse (show v) ≡ ok r
        → Free is_whitespace (show v)
        → show v ≢ []
        → All (λ c. c < 0x80) (show v)
        → (s t : State E.World) → write_value E show procfs path v s ≡ returned tt t
        → (u : State E.World) × (read_value E parse from procfs path t ≡ returned r u)
    unfolding read_value write_value
    read_value-write_value parse from show v r parsed free word ascii s t h =
        let (u, e) = read_file-write_file (show v) s t ascii h in
        (u, rw (e, trim_word [] (show v) tail tt free keeps.tail_is_space word, parsed))

digit_not_white : (c : ℕ) → IsDigit c → is_whitespace c ≡ false
unfolding is_whitespace
digit_not_white c h = ground arith

pub show_uint-Free : (n : ℕ) → Free is_whitespace (show_uint n)
show_uint-Free n = All-weaken IsDigit _ digit_not_white (show_uint n) (show_uint-All n)

-- An unsigned integer of `width` bits that was written to a file which keeps ASCII text is read
-- back by the next read.
pub read_uint-write_uint :
    (E : Env) (procfs : AsyncProcfs E.File) (path : FilePath) (tail : Text)
    → Keeps E procfs path tail
    → (width n : ℕ) (s t : State E.World) → n < 2 ^ width
    → write_value E show_uint procfs path n s ≡ returned tt t
    → (u : State E.World) × (read_value E (parse_uint width) E.from_parse_int procfs path t
        ≡ returned n u)
read_uint-write_uint E procfs path tail keeps width n s t fits h =
    read_value-write_value E procfs path tail keeps (parse_uint width) E.from_parse_int show_uint n
      n (parse_uint-show_uint width n fits) (show_uint-Free n) (show_uint-ne-nil n)
      (show_uint-ascii n) s t h
