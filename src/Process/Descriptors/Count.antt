-- ===== src/Process/Descriptors/Count.antt =====
-- What `fd_count` counts, and what holds of all that a stream yields.
use async_procfs.Prelude.{
  ℕ, ◌+◌, ◌≡◌, refl, ℤ, List, [], ◌∷◌, map, codes, length, arith, Result, err, returned, pure,
  subst, run_bind-eq-returned,
}
use async_procfs.Std.Paths.{join}
use async_procfs.Env.{Env, IoError, at_empty_path}
use async_procfs.Machine.{M, State}
use async_procfs.Procfs.{try_wrapped}
use async_procfs.Process.{Process}
use async_procfs.Process.Descriptors.{FdInfo, from_process_at, fds, fd_items, fd_count}
use async_procfs.Process.Descriptors.Stream.{AllMade, ids, keys, first_error}
use async_procfs.Process.Descriptors.Yielded.{Yields, ended, kept, passed, numbered_entries-Yields}

module _ (E : Env) {A : Type 0} (make : ℤ → M E A) (key : A → ℤ) where
  only_errors :
      (errs : List IoError)
      → (length (map {B = Result A E.ProcError} (λ e. err (E.from_io e)) errs) ≡ length errs)
        × (keys key (map (λ e. err (E.from_io e)) errs) ≡ [])
  only_errors [] = (refl, refl)
  only_errors (e ∷ errs) = (omega (arith, (only_errors errs).0), (only_errors errs).1)

  length-Yields :
      (errs : List IoError) {known : List ℤ} {items : List (Result A E.ProcError)}
      {s t : State E.World}
      → Yields E make errs known s items t
      → length items ≡ length (keys key items) + length errs
  length-Yields errs ended =
      let (n, none_made) = only_errors errs in rw none_made (omega (arith, n))
  length-Yields errs (kept h y) = omega (arith, length-Yields errs y)
  length-Yields errs (passed h y) = length-Yields errs y

-- What holds of everything that can be made holds of what a stream yields.
module _ (E : Env) {A : Type 0} (make : ℤ → M E A) (P : A → Type 0)
    (made : (id : ℤ) (s t : State E.World) (a : A) → make id s ≡ returned a t → P a) where
  pub errors-AllMade :
      (errs : List IoError)
      → AllMade P (map {B = Result A E.ProcError} (λ e. err (E.from_io e)) errs)
  errors-AllMade [] = tt
  errors-AllMade (e ∷ errs) = errors-AllMade errs

  pub AllMade-Yields :
      (errs : List IoError) {known : List ℤ} {items : List (Result A E.ProcError)}
      {s t : State E.World}
      → Yields E make errs known s items t
      → AllMade P items
  AllMade-Yields errs ended = errors-AllMade errs
  AllMade-Yields errs (kept h y) = (made _ _ _ _ h, AllMade-Yields errs y)
  AllMade-Yields errs (passed h y) = AllMade-Yields errs y

module _ (E : Env) (p : Process E.File) where
  -- Where the directory of the descriptors is found with size 0 and can be opened, and `fd_count`
  -- returns, it returns the number of the descriptors that could be read, among the names of the directory
  -- that are numbers, in their order and each in the state that the one before left, and one more if
  -- the directory gave an error.
  pub fd_count_counts :
      (meta : E.Metadata) (dir : E.Dir) (s t u v : State E.World) (n : ℕ)
      → try_wrapped E
          (join p.path (codes "fd"))
          (E.hybrid_metadata_at p.fd (codes "fd") (at_empty_path ∷ []))
          s
        ≡ returned meta t
      → E.size meta ≡ 0
      → fds E p t ≡ returned dir u
      → fd_count E p s ≡ returned n v
      → (items : List (Result (FdInfo E.FdTarget) E.ProcError)) × Yields E
          (from_process_at E p)
          (first_error (E.dir_stream dir))
          (ids (E.dir_stream dir))
          u
          items
          v
        × (n ≡ length (keys (λ a. a.raw_fd) items) + length (first_error (E.dir_stream dir)))
  unfolding fd_count fd_items
  fd_count_counts meta dir s t u v n looked zero opened h =
      let counted = rw (looked, zero, opened) at h in
      let (items, w, p₁, q) =
        run_bind-eq-returned (fd_items E p dir u) (λ items. pure (length items)) counted in
      let last : w ≡ v = cc in
      let counted_all : length items ≡ n = cc in
      let yielded =
        numbered_entries-Yields E (from_process_at E p) (E.dir_stream dir) u w items p₁ in
      let known =
        length-Yields E (from_process_at E p) (λ a. a.raw_fd) (first_error (E.dir_stream dir))
          yielded in
      (
        items,
        subst
            (λ (x : State E.World).
              Yields E (from_process_at E p) (first_error (E.dir_stream dir))
                (ids (E.dir_stream dir)) u items x)
            last yielded,
        omega (arith, known, counted_all),
      )
