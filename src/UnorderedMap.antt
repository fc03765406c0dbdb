-- ===== src/UnorderedMap.antt =====
-- librtlcpp/include/rtlcpp/map.hpp: `rtl::unordered_map`, two tables of which the first is moved
-- into the second a few keys at a time.
pub mod Methods
pub mod Store
pub mod Put
pub mod Transfer
pub mod Pair
pub mod Sweep
pub mod Keep
pub mod Finish
pub mod Public
pub mod Secondary
pub mod Delete
pub mod Shrink
pub mod Begin
pub mod Holds
pub mod Calls
pub mod PutCall
pub mod DelCall
pub mod Memory
pub mod Start
pub mod Reserve
pub mod Clearing
pub mod Reach
use real_time_library.Base.{
  ℕ, zero, suc, ◌+◌, ◌-◌, ◌*◌, ◌/◌, ◌%◌, ◌^◌, ◌≤◌, ◌<◌, min, ◌≡◌, refl, sym, ap, ap₂, ◌∙◌, ◌≢◌, ◌⊎◌,
  inl, inr, ◌↔◌, Bool, true, false, not, ◌&&◌, ◌||◌, Option, none, some, List, [], ◌∷◌, ◌++◌, arith,
  ltb, leb, ◌==◌, if◌then◌else◌, length, get_elem?, get_or, set, take, drop, replicate, drop_last,
  get_last?, list_ext, get_elem?-take, get_elem?-drop, get_elem?-append, length-take, length-drop,
  length-append, le→leb, lt→leb, leb→le, ltb→lt, lt→ltb, le→ltb, ltb→le, eqb→eq, eqb→ne, eqb_refl,
  ne→eqb, lt-cases, eq-cases, Bool-cases, Option-cases, length-set, length-replicate,
  length-drop_last, drop_last-append, get_last?-append, append-drop_last, take-all, get_or-set_self,
  get_or-set_ne, get_elem?-eq-get_or, get_elem?-beyond, get_elem?-set, get_elem?-drop_last,
  set-beyond,
}
use real_time_library.Alloc.{Alloc, Element, size_mod, mul_size}
use real_time_library.Primes.{get_prime_power_of_2}
use real_time_library.Vector.{Vector, new, pop_back}
use real_time_library.Bucket.{
  Params, Entry, Bucket, entry_element, construct, bucket_remove, pointee,
}
use real_time_library.Table
use real_time_library.Table.{
  Table, bucket_at, set_bucket, set_entry, get_next_power_of_2, decrement, new_table,
  destruct_table, table_get_entry, table_get_or_create_entry, table_deconstruct_all_entries,
  table_delete_all_entries,
}

-- `MapState`
pub data MapState : Type 0 where
  error stable transfer : MapState

-- `main` and `secondary` are null pointers or a table with its address.
pub record UnorderedMap (K V : Type 0) : Type 0 where
  pub main : Option (ℕ × Table K V)
  pub secondary : Option (ℕ × Table K V)
  pub state : MapState
  pub max_load_factor_percent : ℕ
  pub current_bucket_to_transfer : ℕ
  pub locked : Bool

module _ {K V : Type 0} where
  -- The table behind a pointer. A null pointer is not followed in any state that the operations
  -- reach; it reads as a table with no buckets.
  abbrev pub table_of : Option (ℕ × Table K V) → Table K V
  table_of none = record { buckets = new; total_entries = 0; num_buckets = 0; power_of_2_size = 0 }
  table_of (some (_, t)) = t

  abbrev pub put_table : Option (ℕ × Table K V) → Table K V → Option (ℕ × Table K V)
  put_table none t = none
  put_table (some (p, _)) t = some (p, t)

  abbrev pub address : Option (ℕ × Table K V) → Option ℕ
  address none = none
  address (some (p, _)) = some p

  -- The entry behind a reference.
  abbrev pub entry_at : Table K V → ℕ → ℕ → Option (Entry K V)
  entry_at t i j = get_elem? (bucket_at t i).items j

  -- The map after a change to either table.
  abbrev pub set_main : UnorderedMap K V → Table K V → UnorderedMap K V
  set_main m t = record m { main = put_table m.main t }

  abbrev pub set_secondary : UnorderedMap K V → Table K V → UnorderedMap K V
  set_secondary m t = record m { secondary = put_table m.secondary t }

  abbrev pub in_error : UnorderedMap K V → UnorderedMap K V
  in_error m = record m { state = error }

  -- `is_transfer_complete`
  unfoldable pub is_transfer_complete : UnorderedMap K V → Bool
  is_transfer_complete m = (table_of m.main).total_entries == 0

  -- `should_resize`
  unfoldable pub should_resize : UnorderedMap K V → Bool
  should_resize m =
      let t = table_of m.main in
      let max_key_count = mul_size m.max_load_factor_percent t.num_buckets / 100 in
      if m.locked then false else leb max_key_count t.total_entries

  -- `compute_state`
  unfoldable pub compute_state : UnorderedMap K V → UnorderedMap K V
  compute_state m = elim m.main [
    | none ↦ record m { state = error }
    | some _ ↦ elim m.secondary [
      | none ↦ record m { state = stable }
      | some _ ↦ record m { state = transfer }
    ]
  ]

  -- `lock_table_size` and `unlock_table_size`
  unfoldable pub lock_table_size : UnorderedMap K V → UnorderedMap K V
  lock_table_size m = record m { locked = true }

  unfoldable pub unlock_table_size : UnorderedMap K V → UnorderedMap K V
  unlock_table_size m = record m { locked = false }

  -- `get_num_buckets`
  unfoldable pub get_num_buckets : UnorderedMap K V → ℕ
  get_num_buckets m = elim m.state [
    | error ↦ 0
    | stable ↦ (table_of m.main).num_buckets
    | transfer ↦ (table_of m.secondary).num_buckets
  ]

  -- `approx_buckets_needed`; a load factor of 0 divides by zero
  unfoldable pub approx_buckets_needed : UnorderedMap K V → ℕ → Option ℕ
  approx_buckets_needed m expected =
      let percent = m.max_load_factor_percent % 2 ^ 32 in
      if percent == 0 then none else some (((expected * 100) % 2 ^ 32 / percent + 1) % 2 ^ 32)

-- How far one bucket was moved: all of it with some keys to go, not all of it, or up to an entry
-- that could not be made.
pub data Progress (K V H : Type 0) : Type 0 where
  emptied : ℕ → Table K V → Table K V → H → Progress K V H
  paused : Table K V → Table K V → H → Progress K V H
  failed : Table K V → Table K V → H → Progress K V H

-- The search for a power in `reserve`: `left` powers from `i` on.
unfoldable pub find_power : ℕ → ℕ → ℕ → Option ℕ
find_power zero i number = none
find_power (suc left) i number =
    let rest = find_power left (i + 1) number in
    if leb number (get_prime_power_of_2 i) then some i else rest

module _ {A : Alloc} {K V : Type 0} (P : Params A K V) where
  -- `*res.entry = std::move(e)`, for an entry that was created
  unfoldable pub move_entry : Table K V → Option (ℕ × ℕ × Bool) → Entry K V → Table K V
  move_entry sec none e = sec
  move_entry sec (some (i, j, true)) e = set_entry sec i j e
  move_entry sec (some (i, j, false)) e = sec

  -- The end of a round of the inner loop: the last entry of the bucket goes.
  unfoldable pub drop_entry : Table K V → ℕ → A.Heap → Table K V × A.Heap
  drop_entry main i h =
      let (b, h') = pop_back (entry_element P) (bucket_at main i) h in
      (record (set_bucket main i b) { total_entries = decrement main.total_entries }, h')

  -- The inner loop of `perform_partial_transfer`, over bucket `i`, with `budget` keys to go
  unfoldable pub transfer_bucket : ℕ → ℕ → Table K V → Table K V → A.Heap → Progress K V A.Heap
  transfer_bucket zero i main sec h = elim (get_last? (bucket_at main i).items) [
    | none ↦ emptied zero main sec h
    | some e ↦ paused main sec h
  ]
  transfer_bucket (suc budget) i main sec h = elim (get_last? (bucket_at main i).items) [
    | none ↦ emptied (suc budget) main sec h
    | some e ↦
        let (res, sec', h') = table_get_or_create_entry P sec e.key h in
        let (main', h'') = drop_entry main i h' in
        elim res [
          | none ↦ failed main sec' h'
          | some r ↦ transfer_bucket budget i main' (move_entry sec' (some r) e) h''
        ]
  ]

  -- The outer loop, with `left` buckets from bucket `i` on: the result, the next bucket, the tables
  unfoldable pub transfer_from :
      ℕ → ℕ → ℕ → Table K V → Table K V → A.Heap → Bool × ℕ × Table K V × Table K V × A.Heap
  transfer_from zero budget i main sec h = (true, i, main, sec, h)
  transfer_from (suc left) budget i main sec h = elim (transfer_bucket budget i main sec h) [
    | emptied budget' main' sec' h' ↦ transfer_from left budget' (i + 1) main' sec' h'
    | paused main' sec' h' ↦ (true, i, main', sec', h')
    | failed main' sec' h' ↦ (false, i, main', sec', h')
  ]

  -- `number_of_keys_to_transfer`
  abbrev pub keys_per_step : ℕ
  keys_per_step = 512

  -- `perform_partial_transfer`
  unfoldable pub perform_partial_transfer :
      UnorderedMap K V → A.Heap → Bool × UnorderedMap K V × A.Heap
  perform_partial_transfer m h =
      let t = table_of m.main in
      let i = m.current_bucket_to_transfer in
      let (done, i', main, sec, h') =
        transfer_from (t.num_buckets - i) keys_per_step i t (table_of m.secondary) h in
      (
        done,
        record m {
          main = put_table m.main main;
          secondary = put_table m.secondary sec;
          current_bucket_to_transfer = i';
        },
        h',
      )

  -- `begin_resize`
  unfoldable pub begin_resize : UnorderedMap K V → ℕ → A.Heap → Bool × UnorderedMap K V × A.Heap
  begin_resize m new_power_of_2 h =
      let (p, h₁) = A.allocate P.table_size h in
      let (t, h₂) = new_table P (new_power_of_2 % 2 ^ 8) h₁ in
      elim p [
        | none ↦ (false, record m { secondary = none }, h₁)
        | some a ↦
            if get_prime_power_of_2 new_power_of_2 == t.num_buckets
            then (
              true,
              record m {
                secondary = some (a, t);
                state = transfer;
                current_bucket_to_transfer = 0;
              },
              h₂,
            )
            else (
              false,
              record m { secondary = none },
              A.deallocate (some a) (destruct_table P t h₂),
            )
      ]

  -- `end_resize`
  unfoldable pub end_resize : UnorderedMap K V → A.Heap → UnorderedMap K V × A.Heap
  end_resize m h = (
    record m {
      main = m.secondary;
      secondary = none;
      state = stable;
      current_bucket_to_transfer = 0;
    },
    A.deallocate (address m.main) (destruct_table P (table_of m.main) h),
  )

  -- `unordered_map(alloc, max_load_factor)`, with the load factor in percent
  unfoldable pub new_map : ℕ → A.Heap → UnorderedMap K V × A.Heap
  new_map percent h =
      let (p, h₁) = A.allocate P.table_size h in
      let (t, h₂) = new_table P 4 h₁ in
      let empty : UnorderedMap K V = record {
        main = none;
        secondary = none;
        state = error;
        max_load_factor_percent = percent;
        current_bucket_to_transfer = 0;
        locked = false;
      } in
      elim p [
        | none ↦ (compute_state empty, h₁)
        | some a ↦ (compute_state (record empty { main = some (a, t) }), h₂)
      ]

  -- The destructor's work on one of the tables
  unfoldable pub destroy_table : Option (ℕ × Table K V) → A.Heap → A.Heap
  destroy_table none h = h
  destroy_table (some (p, t)) h =
      let (t', h') = table_deconstruct_all_entries P t h in
      A.deallocate (some p) (destruct_table P t' h')

  -- `~unordered_map`
  unfoldable pub destruct_map : UnorderedMap K V → A.Heap → A.Heap
  destruct_map m h = destroy_table m.secondary (destroy_table m.main h)

  -- `unordered_map(unordered_map&&)`: the new map, and the one moved from
  unfoldable pub move_construct : UnorderedMap K V → UnorderedMap K V × UnorderedMap K V
  move_construct o =
      (o, record o { main = none; secondary = none; state = error; current_bucket_to_transfer = 0 })

  -- `operator=(unordered_map&&)` between two maps
  unfoldable pub move_assign :
      UnorderedMap K V → UnorderedMap K V → A.Heap → UnorderedMap K V × UnorderedMap K V × A.Heap
  move_assign self o h = let (self', o') = move_construct o in (self', o', destruct_map self h)

  -- What `get`, `put` and `del` do in the stable state after their own work: the last argument is
  -- their result, the one before it what they return if the resize cannot begin.
  unfoldable pub after_stable :
      {R : Type 0} → UnorderedMap K V → A.Heap → R → R → R × UnorderedMap K V × A.Heap
  after_stable m h failure result =
      let (begun, m', h') = begin_resize m (get_next_power_of_2 (table_of m.main)) h in
      if should_resize m
      then (if begun then (result, m', h') else (failure, in_error m', h'))
      else (result, m, h)

  -- The same for the state of transfer
  unfoldable pub after_transfer :
      {R : Type 0} → UnorderedMap K V → A.Heap → R → R → R × UnorderedMap K V × A.Heap
  after_transfer m h failure result =
      let (moved, m', h') = perform_partial_transfer m h in
      let (m'', h'') = end_resize m' h' in
      if moved
      then (if is_transfer_complete m' then (result, m'', h'') else (result, m', h'))
      else (failure, in_error m', h')
