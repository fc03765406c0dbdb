-- ===== src/Tests/Pointers.antt =====
-- Programs over shared and weak pointers.
use real_time_library.Base.{◌≡◌, refl, none, some, [], ◌∷◌, arith, ◌==◌, if◌then◌else◌}
use real_time_library.ObjectPool.{Class}
use real_time_library.Memory.{
  ControlBlk, observe, inc_weak, Handle, Memory, put, create_from, make_shared, copy_assign,
  weak_assign, reset, weak_reset, lock, share, inc_strong, modify,
}
use real_time_library.Memory.Counts.{count, Right}
use real_time_library.Memory.Handles.{
  declare_weak, watch, Program, declare_shared, make, Reach, begin, later,
}
use real_time_library.Memory.Safety.{Reach-Right, Reach-no_fault}
use real_time_library.Tests.Vectors.{blocks}

abbrev class : Class blocks
class = record { size_of = 24; create = λ q h. h; destroy = λ q h. h }

abbrev first_block : ControlBlk
first_block = record { object = some (2, 1); strong_count = 1; weak_count = 1 }

-- One shared pointer to an object, made in a heap of three blocks.
abbrev one_pointer : Program blocks
one_pointer = record {
  memory =
      put
        (record {
          blocks = λ q.
              if q == 3
              then some (record { object = some (2, 1); strong_count = 0; weak_count = 0 })
              else none;
          heap = 1;
        })
        3 (some first_block);
  shared = some 3 ∷ [];
  weak = [];
}

one_pointer-Reach : Reach class 40 3 one_pointer
unfolding make_shared share inc_strong modify create_from
one_pointer-Reach =
    later (later begin (declare_shared (omega arith)))
      (make 0 1 3 one_pointer.memory refl refl refl refl)

-- Next to it two null pointers and a weak pointer to the object.
abbrev watched : Program blocks
watched = record {
  memory =
      put one_pointer.memory 3
        (some (record { object = some (2, 1); strong_count = 1; weak_count = 2 }));
  shared = none ∷ none ∷ some 3 ∷ [];
  weak = some 3 ∷ [];
}

watched-Reach : Reach class 40 3 watched
unfolding weak_assign weak_reset observe inc_weak modify
watched-Reach =
    later
      (later
        (later (later one_pointer-Reach (declare_shared (omega arith)))
          (declare_shared (omega arith)))
        (declare_weak (omega arith)))
      (watch 0 2 none (some 3) (some 3) watched.memory refl refl refl)

Reach-Right_example :
    Right (watched.memory.blocks 3) (count 3 watched.shared) (count 3 watched.weak)
Reach-Right_example = Reach-Right class 40 3 watched-Reach

Reach-no_fault_example :
    ((m : Memory blocks) × (reset class 40 watched.memory none ≡ some m))
    × ((m : Memory blocks) × (copy_assign class 40 watched.memory none (some 3) ≡ some (some 3, m)))
    × ((m : Memory blocks) × (weak_assign class 40 watched.memory (some 3) (some 3)
          ≡ some (some 3, m)))
    × ((m : Memory blocks) × (weak_reset watched.memory (some 3) ≡ some m))
    × ((r : Handle) × (m : Memory blocks) × (lock watched.memory (some 3) ≡ some (r, m)))
Reach-no_fault_example =
    Reach-no_fault class 40 0 2 1 0 none (some 3) (some 3) watched-Reach (omega arith) refl refl
      refl refl
