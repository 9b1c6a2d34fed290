-- ===== src/Process/Scores/Filter.antt =====
-- `coredump_filter` of a file that holds hexadecimal digits.
use async_procfs.Prelude.{
  ℕ, ◌<◌, ◌^◌, ◌≡◌, refl, Option, none, some, List, [], ◌∷◌, ◌++◌, Text, codes, All, Result, ok,
  err, of_result, ok_or, ◌>>=?◌, ℤ, returned, arith,
}
use async_procfs.Std.Chars.{is_whitespace}
use async_procfs.Std.Strings.Laws.{Full, trim_word}
use async_procfs.Std.Ints.Hex.{show_hex, hex_value, show_hex-Free, parse_radix-show_hex}
use async_procfs.Env.{Env}
use async_procfs.Machine.{State}
use async_procfs.Procfs.{read_options}
use async_procfs.Process.{Process}
use async_procfs.Process.Reading.{read_whole}
use async_procfs.Process.Scores.{parse_filter, coredump_filter}

module _ (E : Env) where
  -- What becomes of the number in the file.
  abbrev pub known_flags : Option E.CoredumpFlags → Result (Option E.CoredumpFlags) E.ProcError
  known_flags (some f) = ok (some f)
  known_flags none = err (E.internal_error (codes "CoredumpFlags::from_bits(flags)"))

  known_flags_lem :
      (o : Option E.CoredumpFlags)
      → (ok_or (E.internal_error (codes "CoredumpFlags::from_bits(flags)")) o >>=? λ f. ok (some f))
        ≡ known_flags o
  known_flags_lem none = refl
  known_flags_lem (some f) = refl

  parse_filter_lem :
      (pid : ℤ) (d : ℕ) (ds : List ℕ) (tail : Text)
      → All (λ d. d < 16) (d ∷ ds)
      → hex_value 0 (d ∷ ds) < 2 ^ 32
      → Full is_whitespace tail
      → parse_filter E pid (show_hex (d ∷ ds) ++ tail)
        ≡ known_flags (E.coredump_flags (hex_value 0 (d ∷ ds)))
  unfolding parse_filter
  parse_filter_lem pid d ds tail small fits white =
      rw
        (
          trim_word [] (show_hex (d ∷ ds)) tail tt (show_hex-Free (d ∷ ds) small) white (λ e. cc),
          parse_radix-show_hex 32 d ds small fits,
        )
        (known_flags_lem (E.coredump_flags (hex_value 0 (d ∷ ds))))

  module _ (p : Process E.File) (s : State E.World) (w₁ w₂ : E.World) (file : E.File)
      (opened : E.open_at p.fd (codes "coredump_filter") (read_options E) s.world
        ≡ returned file w₁) where
    coredump_filter_parses :
        (text : Text)
        → E.read_to_string file w₁ ≡ returned text w₂
        → coredump_filter E p s ≡ of_result (parse_filter E p.pid text) (record s { world = w₂ })
    unfolding coredump_filter read_whole
    coredump_filter_parses text read = ground arith

    -- Where the file can be opened, and holds one or more hexadecimal digits of a number below 2 ^ 32 and then
    -- white space, `coredump_filter` returns the flags of that number, or fails where it has a bit
    -- that is no flag.
    pub coredump_filter_lem :
        (d : ℕ) (ds : List ℕ) (tail : Text)
        → All (λ d. d < 16) (d ∷ ds)
        → hex_value 0 (d ∷ ds) < 2 ^ 32
        → Full is_whitespace tail
        → E.read_to_string file w₁ ≡ returned (show_hex (d ∷ ds) ++ tail) w₂
        → coredump_filter E p s
          ≡ of_result
              (known_flags (E.coredump_flags (hex_value 0 (d ∷ ds))))
              (record s { world = w₂ })
    coredump_filter_lem d ds tail small fits white read =
        rw (coredump_filter_parses _ read, parse_filter_lem p.pid d ds tail small fits white) refl
