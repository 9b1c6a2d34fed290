-- ===== src/Helpers/Values.antt =====
-- What a value read by `read_value` was parsed from, and what the cache sees of such a read.
use async_procfs.Prelude.{
  FilePath, Text, ◌≡◌, Result, ok, returned, arith, map_err, map_err-eq-ok, of_result,
  run_bind-eq-returned, of_result-eq-returned, state_of,
}
use async_procfs.Std.Strings.{trim}
use async_procfs.Env.{Env}
use async_procfs.Machine.{State}
use async_procfs.Procfs.{AsyncProcfs}
use async_procfs.Helpers.{read_file, read_value}

module _ (E : Env) {T F : Type 0} (parse : Text → Result T F) (from : F → E.ProcError) where
  -- A value that was read is what the parser makes of some text.
  pub read_value_parsed :
      (procfs : AsyncProcfs E.File) (path : FilePath) (s t : State E.World) (v : T)
      → read_value E parse from procfs path s ≡ returned v t
      → (text : Text) × (read_file E procfs path s ≡ returned text t) × (parse (trim text) ≡ ok v)
  unfolding read_value
  read_value_parsed procfs path s t v h =
      let (text, u, p, q) =
        run_bind-eq-returned (read_file E procfs path s)
          (λ x. of_result (map_err from (parse (trim x)))) h in
      let (r, e) = of_result-eq-returned (map_err from (parse (trim text))) u q in
      (text, cc, map_err-eq-ok from (parse (trim text)) r)

-- Reading a file does not touch the cache, however it ends.
module _ (E : Env) (procfs : AsyncProcfs E.File) (path : FilePath) where
  pub read_file_kernel :
      (s : State E.World) → (state_of (read_file E procfs path s)).kernel ≡ s.kernel
  unfolding read_file
  read_file_kernel s = ground arith

module _ (E : Env) {T F : Type 0} (parse : Text → Result T F) (from : F → E.ProcError) where
  pub read_value_kernel :
      (procfs : AsyncProcfs E.File) (path : FilePath) (s : State E.World)
      → (state_of (read_value E parse from procfs path s)).kernel ≡ s.kernel
  unfolding read_value
  read_value_kernel procfs path s = ground (arith, read_file_kernel E procfs path s)
