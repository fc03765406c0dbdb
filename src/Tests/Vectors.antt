-- ===== src/Tests/Vectors.antt =====
-- Vectors and runs of their operations, with an allocator that has as many blocks as its heap says.
use real_time_library.Base.{
  length, ℕ, zero, suc, ◌+◌, ◌*◌, ◌^◌, ◌<◌, ◌≡◌, refl, ◌↔◌, true, false, Option, none, some, [],
  ◌∷◌, arith, ◌==◌, eqb→eq, eqb_refl,
}
use real_time_library.Alloc.{Alloc, Element, mul_size}
use real_time_library.Vector
use real_time_library.Vector.{
  Vector, reserve, push_back, push_all, remove_stable, remove_fast, copy, equal, new,
}
use real_time_library.Vector.Overflow.{reserve_overflows}
use real_time_library.Vector.Removal.{remove_stable-inside, remove_fast-inside}
use real_time_library.Vector.Copying.{copy_lem}

abbrev pub take_block : ℕ → Option ℕ × ℕ
take_block zero = (none, zero)
take_block (suc left) = (some (suc left), left)

-- The heap is the number of blocks that are left.
abbrev pub blocks : Alloc
blocks = record { Heap = ℕ; allocate = λ n h. take_block h; deallocate = λ p h. h }

abbrev pub number : Element blocks ℕ
number = record { size_of = 8; destroy = λ x h. h + x }

abbrev three : Vector ℕ
three = record { buf = some 9; items = 5 ∷ 6 ∷ 7 ∷ []; capacity = 3 }

abbrev roomy : Vector ℕ
roomy = record { buf = some 9; items = 5 ∷ 6 ∷ 7 ∷ []; capacity = 4 }

pub same_number : (x y : ℕ) → ((x == y) ≡ true) ↔ (x ≡ y)
same_number x y = (eqb→eq x y, λ e. rw e (eqb_refl y))

grown :
    push_back number three 8 2
    ≡ (true, record { buf = some 2; items = 5 ∷ 6 ∷ 7 ∷ 8 ∷ []; capacity = 6 }, 1)
unfolding push_back Vector.grow reserve Vector.relocate
grown = refl

exhausted : push_back number three 8 0 ≡ (false, three, 0)
unfolding push_back Vector.grow reserve Vector.relocate
exhausted = refl

remove_stable-inside_example :
    remove_stable number three 0 1 ≡ (record three { items = 6 ∷ 7 ∷ [] }, 6)
remove_stable-inside_example = remove_stable-inside number three 0 5 1 (omega arith) refl

remove_fast-inside_example : remove_fast number three 0 1 ≡ (record three { items = 7 ∷ 6 ∷ [] }, 6)
remove_fast-inside_example = remove_fast-inside number three 0 5 7 1 (omega arith) refl refl

copy_lem_example :
    let (done, v', _) = copy number new three 1 in
    (done ≡ true) × (done ≡ true → v'.items ≡ three.items) × (done ≡ false → v' ≡ new)
copy_lem_example = copy_lem number new three 1 (omega arith)

-- Elements of 2 ^ 63 bytes: two of them ask for no bytes at all.
abbrev huge : Element blocks ℕ
huge = record { size_of = 2 ^ 63; destroy = λ x h. h }

reserve_overflows_example :
    let (_, v₁, h₁) = reserve huge new 2 1 in
    let (done, v₂, h₂) = push_all huge v₁ (7 ∷ 8 ∷ []) h₁ in
    (done ≡ true)
    × (v₂.buf ≡ some 1)
    × (v₂.items ≡ 7 ∷ 8 ∷ [])
    × (h₂ ≡ 0)
    × (mul_size 2 (2 ^ 63) < length v₂.items * 2 ^ 63)
reserve_overflows_example =
    reserve_overflows huge new (7 ∷ 8 ∷ []) 2 1 1 0 (omega arith) refl (omega arith) refl
