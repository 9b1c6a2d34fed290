-- ===== src/Machine.antt =====
-- The state that the crate's functions run on, and how an `.await` on a file and the operator `?`
-- act on it. `KERNEL`, the static atomic of `Version::cached`, is the only state that the crate
-- itself keeps between calls.
pub mod Alike
pub mod Calm
pub mod Closed
pub mod Settled
pub mod Unchanging
use async_procfs.Prelude.{ℕ, Run, returned, failed, panicked}
use async_procfs.Env.{Env, IoError}

pub record State (World : Type 0) : Type 0 where
  pub world : World
  pub kernel : ℕ

module _ (E : Env) where
  -- A run whose error is a `ProcError`, and one whose error is an `io::Error`.
  abbrev pub M : Type 0 → Type 0
  M A = State E.World → Run A E.ProcError (State E.World)

  abbrev pub Io : Type 0 → Type 0
  Io A = State E.World → Run A IoError (State E.World)

module _ {World : Type 0} where
  abbrev pub with_kernel : {A : Type 0} → ℕ → Run A IoError World → Run A IoError (State World)
  with_kernel k (returned a w) = returned a (record { world = w; kernel = k })
  with_kernel k (failed e w) = failed e (record { world = w; kernel = k })
  with_kernel k (panicked p w) = panicked p (record { world = w; kernel = k })

  -- An operation of the files leaves `KERNEL` alone.
  abbrev pub on_world :
      {A : Type 0} → (World → Run A IoError World) → State World → Run A IoError (State World)
  on_world op s = with_kernel s.kernel (op s.world)
