-- ===== src/Machine/Calm.antt =====
-- Runs that never panic, one rule for each way to build a run.
use async_procfs.Prelude.{
  FilePath, Bytes, List, ◌≡◌, ◌≢◌, Option, some, Text, Result, Run, returned, failed, panicked,
  run_bind, ◌>>=◌, pure, throw, attempt, map_failed, expect_some, arith,
}
use async_procfs.Env.{Env, IoError, OpenOptions, AtFlag}
use async_procfs.Machine.{on_world}
use async_procfs.Machine.Closed.{Closed, Writes}

-- From no state does `m` panic.
pub record Calm {S A E : Type 0} (m : S → Run A E S) : Type 0 where
  pub at : (s t : S) (p : Text) → m s ≢ panicked p t

module _ {S A E : Type 0} where
  Calm-pure : (a : A) → Calm {S = S} {A = A} {E = E} (pure a)
  Calm-pure a = record { at = λ s t p h. cc }

  Calm-throw : (e : E) → Calm {S = S} {A = A} {E = E} (throw e)
  Calm-throw e = record { at = λ s t p h. cc }

  Calm-expect_some :
      (message : Text) (o : Option A) (a : A)
      → o ≡ some a
      → Calm {S = S} {A = A} {E = E} (expect_some message o)
  Calm-expect_some message o a e = record { at = λ s t p h. ground arith }

  Calm-attempt :
      {F : Type 0} (m : S → Run A E S) → Calm m → Calm {S = S} {A = Result A E} {E = F} (attempt m)
  Calm-attempt m km = record { at = λ s t p h. ground (arith, km.at s t p) }

  Calm-map_failed : {F : Type 0} (f : E → F) (m : S → Run A E S) → Calm m → Calm (map_failed f m)
  Calm-map_failed f m km = record { at = λ s t p h. ground (arith, km.at s t p) }

module _ {S A B E : Type 0} where
  run_bind-Calm :
      (r : Run A E S) (f : A → S → Run B E S) (t : S) (p : Text)
      → r ≢ panicked p t
      → ((a : A) → Calm (f a))
      → run_bind r f ≢ panicked p t
  run_bind-Calm (returned a u) f t p kr kf h = (kf a).at u t p h
  run_bind-Calm (failed e u) f t p kr kf h = cc
  run_bind-Calm (panicked q u) f t p kr kf h = kr (ground arith)

  Calm-bind :
      (m : S → Run A E S) (f : A → S → Run B E S) → Calm m → ((a : A) → Calm (f a)) → Calm (m >>= f)
  Calm-bind m f km kf = record { at = λ s t p. run_bind-Calm (m s) f t p (km.at s t p) kf }

Calm-on_world : {World A : Type 0} (op : World → Run A IoError World) → Calm op → Calm (on_world op)
Calm-on_world op k = record { at = λ s t p h. ground (arith, k.at s.world t.world p) }

-- Surroundings whose operations may fail and never panic, and whose files have no operation in flight
-- when the crate asks for them.
pub record IsCalm (E : Env) : Type 0 where
  pub open_path : (path : FilePath) (o : OpenOptions) → Calm (E.open_path path o)
  pub open_at : (base : E.File) (path : FilePath) (o : OpenOptions) → Calm (E.open_at base path o)
  pub read_to_end : (f : E.File) → Calm (E.read_to_end f)
  pub read_to_string : (f : E.File) → Calm (E.read_to_string f)
  pub hybrid_read_to_string : (f : E.File) → Calm (E.hybrid_read_to_string f)
  pub write_all : (f : E.File) (bytes : Bytes) → Calm (E.write_all f bytes)
  pub read_link_at : (base : E.File) (path : FilePath) → Calm (E.read_link_at base path)
  pub read_link : (f : E.File) → Calm (E.read_link f)
  pub hybrid_metadata : (f : E.File) → Calm (E.hybrid_metadata f)
  pub hybrid_metadata_at :
      (base : E.File) (path : FilePath) (flags : List AtFlag)
      → Calm (E.hybrid_metadata_at base path flags)
  pub new_dir : (std : E.StdFile) → Calm (E.new_dir std)
  pub idle : (f : E.File) → (std : E.StdFile) × (E.try_into_std f ≡ some std)

-- In such surroundings, never to panic is a property that every way to build a run keeps.
pub Closed-Calm : (E : Env) → IsCalm E → Closed E (λ A F m. Calm m)
Closed-Calm E calm = record {
  pure_keeps = λ a. Calm-pure a;
  throw_keeps = λ e. Calm-throw e;
  attempt_keeps = λ m k. Calm-attempt m k;
  map_failed_keeps = λ f m k. Calm-map_failed f m k;
  bind_keeps = λ m k km kk. Calm-bind m k km kk;
  open_at = λ base path o r. Calm-on_world _ (calm.open_at base path o);
  read_to_end = λ f. Calm-on_world _ (calm.read_to_end f);
  read_to_string = λ f. Calm-on_world _ (calm.read_to_string f);
  hybrid_read_to_string = λ f. Calm-on_world _ (calm.hybrid_read_to_string f);
  read_link_at = λ base path. Calm-on_world _ (calm.read_link_at base path);
  read_link = λ f. Calm-on_world _ (calm.read_link f);
  hybrid_metadata = λ f. Calm-on_world _ (calm.hybrid_metadata f);
  hybrid_metadata_at = λ base path flags. Calm-on_world _ (calm.hybrid_metadata_at base path flags);
  new_dir = λ std. Calm-on_world _ (calm.new_dir std);
  idle = λ message f. let (std, e) = calm.idle f in Calm-expect_some message _ std e;
}

pub Calm-Writes : (E : Env) → IsCalm E → Writes E (λ A F m. Calm m)
Calm-Writes E calm = record {
  open_any = λ base path o. Calm-on_world _ (calm.open_at base path o);
  write_all = λ f bytes. Calm-on_world _ (calm.write_all f bytes);
}
