-- ===== src/Tests/Cells.antt =====
-- A call that fills the static, the loss of all files, and a call by another instance.
use async_procfs.Prelude.{◌≡◌, List, [], ◌∷◌}
use async_procfs.Env.Memory.{memory}
use async_procfs.Kernel.Version.Cell.{Event, call, outside, cell, run, replay, run_refines}
use async_procfs.Tests.Cache.{procfs, elsewhere, empty}

abbrev calls : List (Event memory)
calls =
    call procfs
    ∷ outside (λ d. record { files = []; links = []; dirs = []; stats = [] })
    ∷ call elsewhere
    ∷ []

run_refines_example :
    ((run memory calls empty).0 ≡ (replay memory calls (cell memory empty)).0)
    × (cell memory (run memory calls empty).1 ≡ (replay memory calls (cell memory empty)).1)
run_refines_example = run_refines memory calls empty
