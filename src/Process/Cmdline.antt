-- ===== src/Process/Cmdline.antt =====
-- src/process/mod.rs: `Process::cmdline`.
use async_procfs.Prelude.{
  ◌≡◌, ◌≢◌, ◌∙◌, ap, sym, subst, ◌↔◌, List, [], Text, codes, All, returned, ◌>>=◌, pure, arith,
}
use async_procfs.Std.Strings.{split, nonempty, join_with}
use async_procfs.Std.Strings.Cuts.{split_cut}
use async_procfs.Std.Strings.Laws.{
  Free, is_sep, terminated, split-terminated, nonempty-append_nil, nonempty-All, nonempty-full,
}
use async_procfs.Std.Paths.{join}
use async_procfs.Env.{Env}
use async_procfs.Machine.{M, State}
use async_procfs.Procfs.{try_wrapped, read_options}
use async_procfs.Process.{Process}
use async_procfs.Process.Reading.{open_file}

-- `split('\0')` and the `filter_map` behind it.
unfoldable pub parse_cmdline : Text → List Text
parse_cmdline buf = nonempty (split 0 buf)

unfoldable pub cmdline : (E : Env) → Process E.File → M E (List Text)
cmdline E p = do
  file ← open_file E p (codes "cmdline")
  buf ← try_wrapped E (join p.path (codes "cmdline")) (E.read_to_string file)
  pure (parse_cmdline buf)

-- The kernel ends each argument by a NUL byte. From such a text the arguments that are not empty are
-- returned, in their order, and an empty argument is left out.
pub parse_cmdline-terminated :
    (args : List Text)
    → All (Free (is_sep 0)) args
    → parse_cmdline (terminated 0 args) ≡ nonempty args
unfolding parse_cmdline
parse_cmdline-terminated args h = rw (split-terminated 0 args h) (nonempty-append_nil args)

cmdline_reads :
    (E : Env) (p : Process E.File) (buf : Text) (s : State E.World) (w₁ w₂ : E.World)
    (file : E.File)
    → E.open_at p.fd (codes "cmdline") (read_options E) s.world ≡ returned file w₁
    → E.read_to_string file w₁ ≡ returned buf w₂
    → cmdline E p s ≡ returned (parse_cmdline buf) (record s { world = w₂ })
unfolding cmdline
cmdline_reads E p buf s w₁ w₂ file opened read = ground arith

-- Where the command line can be opened and holds any arguments without a NUL byte, each ended by one,
-- `cmdline` returns those of them that are not empty, in their order.
pub cmdline_lem :
    (E : Env) (p : Process E.File) (args : List Text) (s : State E.World) (w₁ w₂ : E.World)
    (file : E.File)
    → All (Free (is_sep 0)) args
    → E.open_at p.fd (codes "cmdline") (read_options E) s.world ≡ returned file w₁
    → E.read_to_string file w₁ ≡ returned (terminated 0 args) w₂
    → cmdline E p s ≡ returned (nonempty args) (record s { world = w₂ })
cmdline_lem E p args s w₁ w₂ file free opened read =
    cmdline_reads E p (terminated 0 args) s w₁ w₂ file opened read
    ∙ ap (λ (l : List Text). returned l (record s { world = w₂ }))
        (parse_cmdline-terminated args free)

-- From arguments without a NUL byte, each ended by one, the whole command line is read exactly if no
-- argument is empty.
pub parse_cmdline_complete :
    (args : List Text)
    → All (Free (is_sep 0)) args
    → (parse_cmdline (terminated 0 args) ≡ args) ↔ All (λ a. a ≢ []) args
parse_cmdline_complete args free = (
  (λ e.
      subst (All (λ a. a ≢ [])) (sym (parse_cmdline-terminated args free) ∙ e)
        (nonempty-full args)),
  (λ full. parse_cmdline-terminated args free ∙ nonempty-All args full),
)

-- Where the command line can be opened and read, whatever text it holds, `cmdline` returns in their order those
-- of the parts between NUL bytes, of which the file is made up, that are not empty.
pub cmdline_parts :
    (E : Env) (p : Process E.File) (buf : Text) (s : State E.World) (w₁ w₂ : E.World)
    (file : E.File)
    → E.open_at p.fd (codes "cmdline") (read_options E) s.world ≡ returned file w₁
    → E.read_to_string file w₁ ≡ returned buf w₂
    → (parts : List Text) × (buf ≡ join_with 0 parts)
      × All (Free (is_sep 0)) parts
      × (cmdline E p s ≡ returned (nonempty parts) (record s { world = w₂ }))
cmdline_parts E p buf s w₁ w₂ file opened read =
    let (joined, some_part, free) = split_cut 0 buf in
    (
      split 0 buf,
      sym joined,
      free,
      unfold parse_cmdline in (cmdline_reads E p buf s w₁ w₂ file opened read),
    )
