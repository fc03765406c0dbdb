-- ===== src/Tests/Pools.antt =====
-- Pools of objects over an allocator with a number of blocks, and hashes of strings.
use real_time_library.Base.{◌≡◌, refl, arith, true, some, [], ◌∷◌}
use real_time_library.Vector
use real_time_library.Vector.{Vector, push_back}
use real_time_library.Hash.{fnv1a, fnv1a_from, fnv1a_byte}
use real_time_library.ObjectPool
use real_time_library.ObjectPool.{Class, Pool, pointer, add_to_pool, put}
use real_time_library.ObjectPool.Laws.{get-append, get-put, put_leaks}
use real_time_library.Tests.Vectors.{blocks}

abbrev class : Class blocks
class = record { size_of = 24; create = λ q h. h; destroy = λ q h. h }

abbrev two_objects : Pool
two_objects = record {
  vector = record { buf = some 9; items = 100 ∷ 101 ∷ []; capacity = 2 };
  elasticity = 1;
}

abbrev one_object : Pool
one_object = record {
  vector = record { buf = some 9; items = 100 ∷ []; capacity = 2 };
  elasticity = 1;
}

get-append_example : ObjectPool.get class two_objects 0 ≡ (some 101, one_object, 0)
get-append_example = get-append class two_objects (100 ∷ []) 101 0 refl

room : (push_back (pointer class) one_object.vector 102 0).0 ≡ true
unfolding push_back Vector.grow
room = refl

get-put_example :
    let (p', h') = put class one_object (some 102) 0 in
    let (r, p'', h'') = ObjectPool.get class p' h' in
    (r ≡ some 102) × (p''.vector.items ≡ 100 ∷ []) × (h'' ≡ h')
get-put_example = get-put class one_object 102 0 room

put_leaks_example : put class two_objects (some 102) 0 ≡ (two_objects, 0)
put_leaks_example = put_leaks class two_objects 102 0 refl (omega arith) refl

hash_of_byte : fnv1a_byte 97 ≡ fnv1a (97 ∷ [])
unfolding fnv1a_byte fnv1a fnv1a_from
hash_of_byte = refl
