-- ===== src/Tests/Resources.antt =====
-- A resource on a system that has two mappings to give away.
use real_time_library.Base.{ℕ, [], ◌∷◌}
use real_time_library.Tests.Vectors.{take_block}
use real_time_library.Resource.{Mapper, new_resource, uninit_resource}
use real_time_library.Resource.Maps.{Balanced, init, uninit, logged, run, run-Balanced}

-- The state is the number of mappings that are left.
abbrev mapper : Mapper
mapper = record { State = ℕ; mmap = λ n s. take_block s; munmap = λ b n s. s }

run-Balanced_example :
    let (r, t) =
      run mapper
        (init 4096 ∷ init 64 ∷ uninit ∷ init 64 ∷ uninit ∷ init 8 ∷ [])
        new_resource
        (record { state = 2; log = [] }) in
    Balanced (uninit_resource (logged mapper) r t).1.log
run-Balanced_example =
    run-Balanced mapper (init 4096 ∷ init 64 ∷ uninit ∷ init 64 ∷ uninit ∷ init 8 ∷ []) 2
