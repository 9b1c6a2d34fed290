-- ===== src/Machine/Unchanging.antt =====
-- Runs that leave the world outside as it is.
use async_procfs.Prelude.{
  ◌≡◌, refl, ◌∙◌, true, FilePath, List, Text, Option, none, some, Run, returned, failed, panicked,
  run_bind, run_attempt, run_map_failed, expect_some, state_of,
}
use async_procfs.Env.{Env, IoError, OpenOptions, AtFlag}
use async_procfs.Machine.{State, on_world, with_kernel}
use async_procfs.Machine.Closed.{Closed, reads}

pub record Unchanging {World A F : Type 0} (m : State World → Run A F (State World)) : Type 0 where
  pub at : (s : State World) → (state_of (m s)).world ≡ s.world

-- An operation of the files that leaves the world as it is, however it ends.
abbrev pub Looks : {World A : Type 0} → (World → Run A IoError World) → Type 0
Looks {World} op = (w : World) → state_of (op w) ≡ w

-- Surroundings in which looking changes nothing: opening a file with options that neither write, make
-- nor empty it, reading it, its link and its metadata, and opening a directory's stream.
pub record OnlyLooks (E : Env) : Type 0 where
  pub open_at :
      (base : E.File) (path : FilePath) (o : OpenOptions)
      → reads o ≡ true
      → Looks (E.open_at base path o)
  pub read_to_end : (f : E.File) → Looks (E.read_to_end f)
  pub read_to_string : (f : E.File) → Looks (E.read_to_string f)
  pub hybrid_read_to_string : (f : E.File) → Looks (E.hybrid_read_to_string f)
  pub read_link_at : (base : E.File) (path : FilePath) → Looks (E.read_link_at base path)
  pub read_link : (f : E.File) → Looks (E.read_link f)
  pub hybrid_metadata : (f : E.File) → Looks (E.hybrid_metadata f)
  pub hybrid_metadata_at :
      (base : E.File) (path : FilePath) (flags : List AtFlag)
      → Looks (E.hybrid_metadata_at base path flags)
  pub new_dir : (std : E.StdFile) → Looks (E.new_dir std)

module _ {World A E : Type 0} where
  attempt_world :
      (F : Type 0) (r : Run A E (State World))
      → (state_of (run_attempt {F = F} r)).world ≡ (state_of r).world
  attempt_world F (returned a t) = refl
  attempt_world F (failed e t) = refl
  attempt_world F (panicked p t) = refl

  map_failed_world :
      {F : Type 0} (f : E → F) (r : Run A E (State World))
      → (state_of (run_map_failed f r)).world ≡ (state_of r).world
  map_failed_world f (returned a t) = refl
  map_failed_world f (failed e t) = refl
  map_failed_world f (panicked p t) = refl

  bind_world :
      {B : Type 0} (w : World) (r : Run A E (State World))
      (k : A → State World → Run B E (State World))
      → (state_of r).world ≡ w
      → ((a : A) → Unchanging (k a))
      → (state_of (run_bind r k)).world ≡ w
  bind_world w (returned a t) k h kk = (kk a).at t ∙ h
  bind_world w (failed e t) k h kk = h
  bind_world w (panicked p t) k h kk = h

  expect_some_world :
      (message : Text) (o : Option A) → Unchanging {World = World} {F = E} (expect_some message o)
  expect_some_world message none = record { at = λ s. refl }
  expect_some_world message (some a) = record { at = λ s. refl }

on_world_world :
    {World A : Type 0} (k : _) (r : Run A IoError World)
    → (state_of (with_kernel k r)).world ≡ state_of r
on_world_world k (returned a w) = refl
on_world_world k (failed e w) = refl
on_world_world k (panicked p w) = refl

looking :
    {World A : Type 0} (op : World → Run A IoError World) → Looks op → Unchanging (on_world op)
looking op k = record { at = λ s. on_world_world s.kernel (op s.world) ∙ k s.world }

-- To leave the world as it is is a property that every way to build a run keeps.
pub Closed-Unchanging : (E : Env) → OnlyLooks E → Closed E (λ A F m. Unchanging m)
Closed-Unchanging E looks = record {
  pure_keeps = λ a. record { at = λ s. refl };
  throw_keeps = λ e. record { at = λ s. refl };
  attempt_keeps = λ m k. record { at = λ s. attempt_world _ (m s) ∙ k.at s };
  map_failed_keeps = λ f m k. record { at = λ s. map_failed_world f (m s) ∙ k.at s };
  bind_keeps = λ m k km kk. record { at = λ s. bind_world s.world (m s) k (km.at s) kk };
  open_at = λ base path o r. looking _ (looks.open_at base path o r);
  read_to_end = λ f. looking _ (looks.read_to_end f);
  read_to_string = λ f. looking _ (looks.read_to_string f);
  hybrid_read_to_string = λ f. looking _ (looks.hybrid_read_to_string f);
  read_link_at = λ base path. looking _ (looks.read_link_at base path);
  read_link = λ f. looking _ (looks.read_link f);
  hybrid_metadata = λ f. looking _ (looks.hybrid_metadata f);
  hybrid_metadata_at = λ base path flags. looking _ (looks.hybrid_metadata_at base path flags);
  new_dir = λ std. looking _ (looks.new_dir std);
  idle = λ message f. expect_some_world message _;
}
