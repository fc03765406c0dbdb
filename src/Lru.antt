-- ===== src/Lru.antt =====
-- librtlcpp/include/rtlcpp/lru.hpp: `rtl::lru`.
-- Lru/Nodes is the linked list of nodes; the cache has it beside its map and its pool. A pointer to
-- a node is its address, and what the map has for a key is such a pointer, which may be null.
pub mod Nodes
pub mod Recency
pub mod Public
pub mod Full
use real_time_library.Base.{
  ℕ, zero, suc, ◌+◌, ◌-◌, ◌*◌, ◌/◌, ◌%◌, ◌^◌, ◌≤◌, ◌<◌, min, ◌≡◌, refl, sym, ap, ap₂, ◌∙◌, ◌≢◌, ◌⊎◌,
  inl, inr, ◌↔◌, Bool, true, false, not, ◌&&◌, ◌||◌, Option, none, some, List, [], ◌∷◌, ◌++◌, arith,
  ltb, leb, ◌==◌, if◌then◌else◌, length, get_elem?, get_or, set, take, drop, replicate, drop_last,
  get_last?, list_ext, get_elem?-take, get_elem?-drop, get_elem?-append, length-take, length-drop,
  length-append, le→leb, lt→leb, leb→le, ltb→lt, lt→ltb, le→ltb, ltb→le, eqb→eq, eqb→ne, eqb_refl,
  ne→eqb, lt-cases, eq-cases, Bool-cases, Option-cases, length-set, length-replicate,
  length-drop_last, drop_last-append, get_last?-append, append-drop_last, take-all, get_or-set_self,
  get_or-set_ne, get_elem?-eq-get_or, get_elem?-beyond, get_elem?-set, get_elem?-drop_last,
  set-beyond,
}
use real_time_library.Alloc.{Alloc}
use real_time_library.Bucket.{Params}
use real_time_library.ObjectPool
use real_time_library.ObjectPool.{Class, Pool, new_pool}
use real_time_library.UnorderedMap
use real_time_library.UnorderedMap.{UnorderedMap, new_map, approx_buckets_needed, lock_table_size}
use real_time_library.UnorderedMap.Methods
use real_time_library.UnorderedMap.Methods.{reserve, del, delete_all_keys, contains}
use real_time_library.Lru.Nodes.{
  Node, Chain, nothing_linked, store, assign, unlink_back, push_front, take_node,
}

-- The data members, but for the allocator: `m_head`, `m_tail` and `m_size` are in the chain.
pub record Lru (K T : Type 0) : Type 0 where
  pub chain : Chain K T
  pub map : UnorderedMap K (Option ℕ)
  pub pool : Pool
  pub capacity : ℕ

-- `!pointer`
abbrev pub is_null : Option ℕ → Bool
is_null none = true
is_null (some p) = false

module _ {A : Alloc} {K T : Type 0} (P : Params A K (Option ℕ)) (C : Class A) where
  -- `lru(alloc, capacity)`; the map's buckets are reserved at once
  unfoldable pub new_lru : ℕ → ℕ → ℕ → A.Heap → Option (Lru K T × A.Heap)
  new_lru fuel percent capacity h =
      let (map, h₁) = new_map P percent h in
      let (pool, h₂) = new_pool C capacity 1 h₁ in
      let l : Lru K T = record {
        chain = nothing_linked;
        map = map;
        pool = pool;
        capacity = capacity;
      } in
      elim (approx_buckets_needed map (capacity % 2 ^ 32)) [
        | none ↦ none
        | some buckets ↦ elim (reserve P fuel map buckets h₂) [
          | none ↦ none
          | some (true, map', h₃) ↦ some (record l { map = lock_table_size map' }, h₃)
          | some (false, map', h₃) ↦ some (record l { map = map' }, h₃)
        ]
      ]

  -- `m_pool.put` of a node: its destructor runs, and the node is no more.
  unfoldable pub give_back : Lru K T → Option ℕ → A.Heap → Lru K T × A.Heap
  give_back l none h = (l, h)
  give_back l (some p) h =
      let (pool, h') = ObjectPool.put C l.pool (some p) h in
      (record l { pool = pool; chain = store l.chain p none }, h')

  -- `pop_back`
  unfoldable pub pop_back : Lru K T → A.Heap → Option (Lru K T × A.Heap)
  unfolding give_back unlink_back
  pop_back l h = elim (unlink_back l.chain) [
    | none ↦ none
    | some (node, chain) ↦ some (give_back (record l { chain = chain }) node h)
  ]

  -- `while (m_head) pop_back()`, for as long as there is fuel
  unfoldable pub pop_all : ℕ → Lru K T → A.Heap → Option (Lru K T × A.Heap)
  unfolding pop_back
  pop_all zero l h = none
  pop_all (suc fuel) l h = elim (is_null l.chain.head) [
    | true ↦ some (l, h)
    | false ↦ elim (pop_back l h) [ none ↦ none | some (l', h') ↦ pop_all fuel l' h' ]
  ]

  -- `reset`
  unfoldable pub reset : ℕ → Lru K T → A.Heap → Option (Lru K T × A.Heap)
  unfolding pop_all
  reset fuel l h = elim (pop_all fuel l h) [
    | none ↦ none
    | some (l', h') ↦ elim (delete_all_keys P fuel l'.map h') [
      | none ↦ none
      | some (map, h'') ↦ some (record l' { map = map; chain = record l'.chain { size = 0 } }, h'')
    ]
  ]

  -- `lru(lru&&)`: the new cache, and what is left of the other one
  unfoldable pub move_construct : Lru K T → Lru K T × Lru K T
  move_construct o =
      let (map, map') = UnorderedMap.move_construct P o.map in
      let (pool, pool') = ObjectPool.move_construct o.pool in
      (
        record o { map = map; pool = pool },
        record {
          chain = record o.chain { head = none; tail = none; size = 0 };
          map = map';
          pool = pool';
          capacity = 0;
        },
      )

  -- `operator=(lru&&)` between two caches
  unfoldable pub move_assign : ℕ → Lru K T → Lru K T → A.Heap → Option (Lru K T × Lru K T × A.Heap)
  unfolding pop_all
  move_assign fuel self o h = elim (pop_all fuel self h) [
    | none ↦ none
    | some (self', h₁) ↦
        let (map, map', h₂) = UnorderedMap.move_assign P self'.map o.map h₁ in
        let (pool, pool', h₃) = ObjectPool.move_assign C self'.pool o.pool h₂ in
        some (
          record o { map = map; pool = pool },
          record {
            chain = record o.chain { head = none; tail = none; size = 0 };
            map = map';
            pool = pool';
            capacity = 0;
          },
          h₃,
        )
  ]

  -- `~lru`, with the destructors of the pool and of the map after it
  unfoldable pub destruct_lru : ℕ → Lru K T → A.Heap → Option A.Heap
  unfolding pop_all
  destruct_lru fuel l h = elim (pop_all fuel l h) [
    | none ↦ none
    | some (l', h') ↦
        some (UnorderedMap.destruct_map P l'.map (ObjectPool.destruct_pool C l'.pool h'))
  ]

  -- What `get`, `get_ptr` and `put` do with a node that is in the cache: it becomes the first one.
  unfoldable pub touch : Chain K T → Option ℕ → Option (Chain K T)
  unfolding take_node push_front
  touch c none = none
  touch c (some p) = elim (take_node c p) [ none ↦ none | some c' ↦ push_front c' (some p) ]

  -- `get`, and `get_ptr` with the value that the pointer points to
  unfoldable pub get : Lru K T → K → A.Heap → Option (Option T × Lru K T × A.Heap)
  unfolding touch
  get l k h =
      let (map_node, map, h') = Methods.get P l.map k h in
      let l' = record l { map = map } in
      elim map_node [
        | none ↦ some (none, l', h')
        | some none ↦ none
        | some (some p) ↦ elim (l.chain.nodes p) [
          | none ↦ none
          | some n ↦ elim (touch l.chain (some p)) [
            | none ↦ none
            | some c ↦ some (some n.val, record l' { chain = c }, h')
          ]
        ]
      ]

  -- The part of `put` that makes room: the last node and its key go.
  unfoldable pub evict_oldest : Lru K T → A.Heap → Option (Lru K T × A.Heap)
  unfolding pop_back
  evict_oldest l h = elim l.chain.tail [
    | none ↦ none
    | some p ↦ elim (l.chain.nodes p) [
      | none ↦ none
      | some n ↦ let (_, map, h') = del P l.map n.key h in pop_back (record l { map = map }) h'
    ]
  ]

  -- The chain with a node that `m_pool.get` has constructed, if there is memory
  abbrev pub construct : Chain K T → Option ℕ → K → T → Chain K T
  construct c none k x = c
  construct c (some p) k x =
      store c p (some (record { key = k; val = x; prev = none; next = none }))

  -- The end of `put` with the new node
  unfoldable pub place : Lru K T → Option ℕ → K → T → A.Heap → Option (Bool × Lru K T × A.Heap)
  unfolding push_front give_back
  place l new_node k x h =
      let chain = construct l.chain new_node k x in
      let (put_successful, map, h') = Methods.put P l.map k new_node h in
      let l' = record l { chain = chain; map = map } in
      if put_successful
      then elim (push_front chain new_node) [
        | none ↦ none
        | some c ↦ some (true, record l' { chain = c }, h')
      ]
      else (let (l'', h'') = give_back l' new_node h' in some (false, l'', h''))

  -- The end of `put`, for a key that is not in the cache
  unfoldable pub insert : Lru K T → K → T → A.Heap → Option (Bool × Lru K T × A.Heap)
  unfolding place
  insert l k x h =
      let (new_node, pool, h') = ObjectPool.get C l.pool h in
      place (record l { pool = pool }) new_node k x h'

  -- `put`
  unfoldable pub put : Lru K T → K → T → A.Heap → Option (Bool × Lru K T × A.Heap)
  unfolding assign touch evict_oldest insert
  put l k x h =
      let (map_node, map, h') = Methods.get P l.map k h in
      let l' = record l { map = map } in
      elim map_node [
        | some none ↦ none
        | some (some p) ↦ elim (take_node l.chain p) [
          | none ↦ none
          | some taken ↦ elim (assign taken p k x) [
            | none ↦ none
            | some assigned ↦ elim (push_front assigned (some p)) [
              | none ↦ none
              | some c ↦ some (true, record l' { chain = c }, h')
            ]
          ]
        ]
        | none ↦
            if l.chain.size == l.capacity
            then elim (evict_oldest l' h') [ none ↦ none | some (l'', h'') ↦ insert l'' k x h'' ]
            else insert l' k x h'
      ]
