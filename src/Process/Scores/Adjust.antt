-- ===== src/Process/Scores/Adjust.antt =====
-- `set_oom_score_adj`, and `oom_score_adj` behind it.
use async_procfs.Prelude.{
  ◌<◌, All, suc, ◌≡◌, ◌≢◌, ◌++◌, refl, ℤ, pos, negsuc, true, [], Text, codes, arith, returned,
  Run-cases, inl, inr, ok,
}
use async_procfs.Std.Chars.{is_whitespace}
use async_procfs.Std.Strings.Laws.{Full, Free, trim_word}
use async_procfs.Std.Ints.{show_int}
use async_procfs.Std.Ints.RoundTrip.{InRange, parse_int-show_int, show_uint-ne-nil, show_int-ascii}
use async_procfs.Std.Utf8.{as_bytes}
use async_procfs.Env.{Env, new_options, with_write}
use async_procfs.Machine.{State}
use async_procfs.Procfs.{read_options}
use async_procfs.Helpers.{write_value_to}
use async_procfs.Helpers.RoundTrip.{show_uint-Free}
use async_procfs.Process.{Process}
use async_procfs.Process.Reading.{read_whole}
use async_procfs.Process.Scores.{set_oom_score_adj, oom_score_adj, parse_score_adj}

-- A file of the process that keeps the ASCII text that is written to it, with the white space `tail` behind it.
pub record KeepsScore (E : Env) (p : Process E.File) (tail : Text) : Type 0 where
  pub tail_is_space : Full is_whitespace tail
  pub shown :
      (text : Text) (w w₁ w₂ : E.World) (f : E.File)
      → All (λ c. c < 0x80) text
      → E.open_at p.fd (codes "oom_score_adj") (with_write true new_options) w ≡ returned f w₁
      → E.write_all f (as_bytes text) w₁ ≡ returned tt w₂
      → (g : E.File) × (w₃ : E.World) × (w₄ : E.World) × (E.open_at p.fd
            (codes "oom_score_adj")
            (read_options E)
            w₂
          ≡ returned g w₃)
        × (E.read_to_string g w₃ ≡ returned (text ++ tail) w₄)

show_int-Free : (z : ℤ) → Free is_whitespace (show_int z)
unfolding show_int is_whitespace
show_int-Free (pos n) = show_uint-Free n
show_int-Free (negsuc n) = (refl, show_uint-Free (suc n))

show_int-ne-nil : (z : ℤ) → show_int z ≢ []
unfolding show_int
show_int-ne-nil (pos n) = show_uint-ne-nil n
show_int-ne-nil (negsuc n) = λ e. cc

parse_score_adj-show_int :
    (E : Env) (z : ℤ) (tail : Text)
    → InRange 16 z
    → Full is_whitespace tail
    → parse_score_adj E (show_int z ++ tail) ≡ ok z
unfolding parse_score_adj
parse_score_adj-show_int E z tail fits white = rw (
  trim_word [] (show_int z) tail tt (show_int-Free z) white (show_int-ne-nil z),
  parse_int-show_int 16 z fits,
)

module _ (E : Env) (p : Process E.File) where
  set_steps :
      (z : ℤ) (s t : State E.World)
      → set_oom_score_adj E p z s ≡ returned tt t
      → (f : E.File) × (w₁ : E.World) × (E.open_at p.fd
            (codes "oom_score_adj")
            (with_write true new_options)
            s.world
          ≡ returned f w₁)
        × (E.write_all f (as_bytes (show_int z)) w₁ ≡ returned tt t.world)
  unfolding set_oom_score_adj write_value_to
  set_steps z s t h =
      elim (Run-cases
        (E.open_at p.fd (codes "oom_score_adj") (with_write true new_options) s.world)) [
          | inl (f, w₁, opened) ↦ (f, w₁, opened, ground arith)
          | inr (inl (e, w₁, stopped)) ↦ absurd (ground arith)
          | inr (inr (m, w₁, stopped)) ↦ absurd (ground arith)
        ]

  get_steps :
      (g : E.File) (text : Text) (z : ℤ) (s : State E.World) (w₃ w₄ : E.World)
      → E.open_at p.fd (codes "oom_score_adj") (read_options E) s.world ≡ returned g w₃
      → E.read_to_string g w₃ ≡ returned text w₄
      → parse_score_adj E text ≡ ok z
      → oom_score_adj E p s ≡ returned z (record s { world = w₄ })
  unfolding oom_score_adj read_whole
  get_steps g text z s w₃ w₄ h k e = ground arith

-- If the file keeps the ASCII text that is written to it, `oom_score_adj` returns the `i16` that `set_oom_score_adj`
-- has set, negative ones too.
pub oom_score_adj-set :
    (E : Env) (p : Process E.File) (tail : Text)
    → KeepsScore E p tail
    → (z : ℤ) (s t : State E.World) → InRange 16 z
    → set_oom_score_adj E p z s ≡ returned tt t
    → (u : State E.World) × (oom_score_adj E p t ≡ returned z u)
oom_score_adj-set E p tail keeps z s t fits h =
    let (f, w₁, opened, written) = set_steps E p z s t h in
    let (g, w₃, w₄, reopened, shown) =
      keeps.shown (show_int z) s.world w₁ t.world f (show_int-ascii z) opened written in
    (
      record t { world = w₄ },
      get_steps E p g (show_int z ++ tail) z t w₃ w₄ reopened shown
          (parse_score_adj-show_int E z tail fits keeps.tail_is_space),
    )
