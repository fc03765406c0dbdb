-- ===== src/Tests/Caches.antt =====
-- A cache of two nodes.
use real_time_library.Base.{
  List, ℕ, zero, suc, ◌≡◌, refl, ◌≢◌, ◌⊎◌, true, false, Option, none, some, [], ◌∷◌, arith, ◌==◌,
  if◌then◌else◌, get_elem?,
}
use real_time_library.Vector
use real_time_library.Vector.{Vector, new, push_back}
use real_time_library.Bucket.{Params, Entry, Bucket}
use real_time_library.Bucket
use real_time_library.ObjectPool
use real_time_library.ObjectPool.{Class, Pool, pointer}
use real_time_library.Table
use real_time_library.Table.{Table}
use real_time_library.UnorderedMap.{UnorderedMap, stable}
use real_time_library.UnorderedMap
use real_time_library.UnorderedMap.Methods
use real_time_library.UnorderedMap.Methods.{del}
use real_time_library.Lru.{Lru, get, put, pop_all}
use real_time_library.Lru.Nodes.{Chain}
use real_time_library.Lru.Recency.{hit, run, hits, Holds}
use real_time_library.Lru.Recency.Uses.{run-Holds}
use real_time_library.Lru.Full.{put-evicts}
use real_time_library.Lru.Public.{get-Holds, pop_all-ends, put-Holds}
use real_time_library.Tests.Vectors.{blocks, same_number}

abbrev params : Params blocks ℕ (Option ℕ)
params = record {
  eq = λ x y. x == y;
  eq_iff = same_number;
  hash = λ k. k;
  entry_size = 16;
  bucket_size = 32;
  table_size = 64;
  value = record { size_of = 8; destroy = λ x h. h };
}

abbrev class : Class blocks
class = record { size_of = 32; create = λ q h. h; destroy = λ q h. h }

-- The key 3 stands in the node at 5, the key 4 in the node at 6.
abbrev table : Table ℕ (Option ℕ)
table = record {
  buckets = record {
    buf = some 90;
    items =
        record {
          buf = some 93;
          items = record { key = 4; val = some (94, some 6) } ∷ [];
          capacity = 1;
        }
        ∷ record {
          buf = some 91;
          items = record { key = 3; val = some (92, some 5) } ∷ [];
          capacity = 1;
        }
        ∷ [];
    capacity = 2;
  };
  total_entries = 2;
  num_buckets = 2;
  power_of_2_size = 4;
}

abbrev two_linked : Chain ℕ ℕ
two_linked = record {
  nodes = λ q.
      if q == 5
      then some (record { key = 3; val = 30; prev = none; next = some 6 })
      else (if q == 6
          then some (record { key = 4; val = 40; prev = some 5; next = none })
          else none);
  head = some 5;
  tail = some 6;
  size = 2;
}

abbrev cache : Lru ℕ ℕ
cache = record {
  chain = two_linked;
  map = record {
    main = some (95, table);
    secondary = none;
    state = stable;
    max_load_factor_percent = 500;
    current_bucket_to_transfer = 0;
    locked = true;
  };
  pool = record { vector = record { buf = some 80; items = 7 ∷ []; capacity = 3 }; elasticity = 1 };
  capacity = 3;
}

positions :
    (i p : ℕ) → get_elem? (5 ∷ 6 ∷ []) i ≡ some p → ((i ≡ 0) × (p ≡ 5)) ⊎ ((i ≡ 1) × (p ≡ 6))
positions zero p e = ground arith
positions (suc zero) p e = ground arith
positions (suc (suc i)) p e = cc

cache-Holds : Holds two_linked (5 ∷ 6 ∷ []) (some (3, 30) ∷ some (4, 40) ∷ [])
cache-Holds = record {
  linked = record {
    size = refl;
    small = omega arith;
    head = refl;
    tail = refl;
    there = λ i p e. ground (arith, positions i p e);
    next = λ i p q ep eq. ground (arith, positions i p ep, positions (suc i) q eq);
    prev = λ i p q ep eq. ground (arith, positions i p ep, positions (suc i) q eq);
    apart = λ i j p ei ej. ground (arith, positions i p ei, positions j p ej);
  };
  entries = refl;
}

run-Holds_example :
    (c : Chain ℕ ℕ) × (run (hit 6) two_linked ≡ some c)
    × Holds c (6 ∷ 5 ∷ []) (some (4, 40) ∷ some (3, 30) ∷ [])
run-Holds_example =
    run-Holds two_linked (5 ∷ 6 ∷ []) (6 ∷ 5 ∷ []) (some (3, 30) ∷ some (4, 40) ∷ [])
      (some (4, 40) ∷ some (3, 30) ∷ []) (hit 6) cache-Holds (hits 1 6 (some (4, 40)) refl refl)

get-Holds_example :
    let (found, map, h') = Methods.get params cache.map 4 9 in
    (found ≡ some (some 6)
      → (c : Chain ℕ ℕ) × (get params class cache 4 9
          ≡ some (some 40, record cache { map = map; chain = c }, h'))
        × Holds c (6 ∷ 5 ∷ []) (some (4, 40) ∷ some (3, 30) ∷ []))
    × (found ≡ none → get params class cache 4 9 ≡ some (none, record cache { map = map }, h'))
get-Holds_example =
    get-Holds params class cache 4 9 (5 ∷ 6 ∷ []) (some (3, 30) ∷ some (4, 40) ∷ []) 1 6 4 40
      cache-Holds refl refl

pop_all-ends_example :
    (l' : Lru ℕ ℕ) × (h' : ℕ) × (pop_all params class 3 cache 9 ≡ some (l', h'))
    × Holds l'.chain [] []
    × (l'.map ≡ cache.map)
pop_all-ends_example =
    pop_all-ends params class 3 cache 9 (5 ∷ 6 ∷ []) (some (3, 30) ∷ some (4, 40) ∷ []) cache-Holds
      (omega arith)

finds_four : (Methods.get params cache.map 4 9).0 ≡ some (some 6)
unfolding Methods.get UnorderedMap.after_stable UnorderedMap.should_resize Table.get
    Table.get_bucket_index Bucket.get Bucket.find_index
finds_four = refl

put-Holds_example :
    let (_, map, h') = Methods.get params cache.map 4 9 in
    (c : Chain ℕ ℕ) × (put params class cache 4 41 9
      ≡ some (true, record cache { map = map; chain = c }, h'))
    × Holds c (6 ∷ 5 ∷ []) (some (4, 41) ∷ some (3, 30) ∷ [])
put-Holds_example =
    put-Holds params class cache 4 41 9 (5 ∷ 6 ∷ []) (some (3, 30) ∷ some (4, 40) ∷ []) 1 6
      cache-Holds refl finds_four

abbrev linked_order : List ℕ
linked_order = 5 ∷ 6 ∷ []

seven_elsewhere : (i : ℕ) → get_elem? linked_order i ≢ some 7
seven_elsewhere i e = ground (arith, positions i 7 e)

pool_has_seven : (ObjectPool.get class cache.pool 9).0 ≡ some 7
unfolding ObjectPool.get ObjectPool.take_back Vector.pop_back
pool_has_seven = refl

-- The same cache with room for two nodes.
abbrev full_cache : Lru ℕ ℕ
full_cache = record cache { capacity = 2 }

has_no_eight : (Methods.get params cache.map 8 9).0 ≡ none
unfolding Methods.get UnorderedMap.after_stable UnorderedMap.should_resize Table.get
    Table.get_bucket_index Bucket.get Bucket.find_index
has_no_eight = refl

pool_has_room : (h : ℕ) → (push_back (pointer class) full_cache.pool.vector 6 h).0 ≡ true
unfolding push_back Vector.grow
pool_has_room h = refl

put-evicts_example :
    let (_, map₁, h₁) = Methods.get params full_cache.map 8 9 in
    let (_, map₂, h₂) = del params map₁ 4 h₁ in
    let (pool, h₃) = ObjectPool.put class full_cache.pool (some 6) h₂ in
    let (_, _, h₄) = ObjectPool.get class pool h₃ in
    let taken = (Methods.put params map₂ 8 (some 6) h₄).0 in
    (l' : Lru ℕ ℕ) × (h' : ℕ) × (put params class full_cache 8 80 9 ≡ some (taken, l', h'))
    × (taken ≡ true → Holds l'.chain (6 ∷ 5 ∷ []) (some (8, 80) ∷ some (3, 30) ∷ []))
    × (taken ≡ false → Holds l'.chain (5 ∷ []) (some (3, 30) ∷ []))
put-evicts_example =
    put-evicts params class full_cache 8 80 9 (5 ∷ 6 ∷ []) (some (3, 30) ∷ some (4, 40) ∷ []) 6
      (record { key = 4; val = 40; prev = some 5; next = none }) cache-Holds refl refl refl
      has_no_eight (pool_has_room _)
