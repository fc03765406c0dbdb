-- ===== src/Tests/Maps.antt =====
-- A `put` and a `del` in transfer; a run of calls on a new map.
use real_time_library.Base.{sym, ◌∙◌, ℕ, ◌≡◌, refl, Bool, true, false, none, some, arith}
use real_time_library.Alloc.{size_mod, OutOfMemory}
use real_time_library.Tests.Vectors.{blocks}
use real_time_library.Primes.{get_prime_power_of_2}
use real_time_library.Vector
use real_time_library.Bucket
use real_time_library.Table
use real_time_library.UnorderedMap.{
  UnorderedMap, stable, transfer, table_of, new_map, after_stable, should_resize, begin_resize,
  compute_state,
}
use real_time_library.UnorderedMap.Methods
use real_time_library.UnorderedMap.Methods.{
  delete_all_keys, contains, get_either, finalize, put, put_main, put_secondary, take_over,
  construct_at, del_either,
}
use real_time_library.UnorderedMap.Keep.{InTransfer}
use real_time_library.UnorderedMap.Secondary.{PutBoth, put_secondary-PutBoth}
use real_time_library.UnorderedMap.Delete.{Deleted, del_either-Deleted}
use real_time_library.UnorderedMap.Holds.{updated, Settled}
use real_time_library.UnorderedMap.Calls.{Small}
use real_time_library.UnorderedMap.Start.{first_buckets}
use real_time_library.UnorderedMap.Reach.{
  Reached, created, stored, Reached-refines, Reached-finalize, Reached-reserve,
  Reached-delete_all_keys,
}
use real_time_library.Tests.Tables.{params, with_three, empty_table, moving, moving-InTransfer}

-- A new value for the key 3, whose entry is still in the main table.
put_secondary-PutBoth_example :
    PutBoth params with_three empty_table 3 31 (put_secondary params empty_table with_three 3 31 5)
put_secondary-PutBoth_example =
    put_secondary-PutBoth params moving-InTransfer.pair (omega arith) 3 31 5

put_works : (put_secondary params empty_table with_three 3 31 5).0 ≡ true
unfolding put_secondary take_over construct_at Table.table_get_or_create_entry Table.table_get_entry
    Table.get_bucket_index Bucket.bucket_get_or_create_entry Bucket.find_index Bucket.construct
    Bucket.bucket_remove Bucket.deconstruct Vector.push_back Vector.grow Vector.reserve
    Vector.relocate Vector.remove_fast Vector.pop_back Vector.swap
put_works = refl

-- The map after that `put`: main has an entry for the key 3 without a value.
abbrev stale : UnorderedMap ℕ ℕ
stale =
    let (_, sec, main, _) = put_secondary params empty_table with_three 3 31 5 in
    record moving { main = some (95, main); secondary = some (96, sec) }

stale-InTransfer : InTransfer params stale
stale-InTransfer = record {
  main_there = λ e. cc;
  secondary_there = λ e. cc;
  pair = (put_secondary-PutBoth params moving-InTransfer.pair (omega arith) 3 31 5).pair put_works;
}

del_either-Deleted_example :
    let (removed, m', _) = del_either params stale 3 0 in Deleted params stale 3 removed m'
del_either-Deleted_example = del_either-Deleted params stale-InTransfer 3 0

-- The `del` of the key 3 is lost: the value is still there.
still_there :
    ((del_either params stale 3 0).0 ≡ true)
    × (get_either params (del_either params stale 3 0).1 3 ≡ some 31)
unfolding put_secondary take_over construct_at Table.table_get_or_create_entry Table.table_get_entry
    Table.get_bucket_index Bucket.bucket_get_or_create_entry Bucket.find_index Bucket.construct
    Bucket.bucket_remove Bucket.deconstruct Vector.push_back Vector.grow Vector.reserve
    Vector.relocate Vector.remove_fast Vector.pop_back Vector.swap del_either get_either Table.del
    Table.get Bucket.get
still_there = (refl, refl)

-- A new map with a heap of ten blocks, and a load factor so small that the first `put` begins a
-- resize.
abbrev fresh : UnorderedMap ℕ ℕ
fresh = (new_map params 5 10).0

fresh-wide : first_buckets params 5 10 ≡ 17
unfolding new_map compute_state Table.new_table Table.expand Table.push_buckets Table.clamp_power
    get_prime_power_of_2 Vector.push_back Vector.grow Vector.reserve Vector.relocate
fresh-wide = refl

fresh-Small : Small params fresh
unfolding new_map compute_state Table.new_table Table.expand Table.push_buckets Table.clamp_power
    get_prime_power_of_2 Vector.push_back Vector.grow Vector.reserve Vector.relocate
fresh-Small = record { count = omega arith; power = omega arith }

-- The map with a value for the key 3.
abbrev filled : Bool × UnorderedMap ℕ ℕ × ℕ
filled = put params fresh 3 30 (new_map params 5 10).1

filled-done : filled.0 ≡ true
unfolding new_map compute_state Table.new_table Table.expand Table.push_buckets Table.clamp_power
    get_prime_power_of_2 Vector.push_back Vector.grow Vector.reserve Vector.relocate put put_main
    construct_at Table.table_get_or_create_entry Table.get_bucket_index
    Bucket.bucket_get_or_create_entry Bucket.find_index Bucket.construct after_stable should_resize
    begin_resize
filled-done = refl

filled-Small : Small params filled.1
unfolding new_map compute_state Table.new_table Table.expand Table.push_buckets Table.clamp_power
    get_prime_power_of_2 Vector.push_back Vector.grow Vector.reserve Vector.relocate put put_main
    construct_at Table.table_get_or_create_entry Table.get_bucket_index
    Bucket.bucket_get_or_create_entry Bucket.find_index Bucket.construct after_stable should_resize
    begin_resize
filled-Small = record { count = omega arith; power = omega arith }

filled-state : filled.1.state ≡ transfer
unfolding new_map compute_state Table.new_table Table.expand Table.push_buckets Table.clamp_power
    get_prime_power_of_2 Vector.push_back Vector.grow Vector.reserve Vector.relocate put put_main
    construct_at Table.table_get_or_create_entry Table.get_bucket_index
    Bucket.bucket_get_or_create_entry Bucket.find_index Bucket.construct after_stable should_resize
    begin_resize
filled-state = refl

filled-Reached : Reached params filled.1 filled.2 (updated params (λ _. none) 3 (some 30))
filled-Reached = stored 3 30 (created 5 10 (omega (arith, fresh-wide))) fresh-Small filled-done

Reached-refines_example :
    (contains params filled.1 3 ≡ true)
    × Settled params
        (updated params (λ _. none) 3 (some 30))
        none
        (some 30)
        (Methods.get params filled.1 3 filled.2)
Reached-refines_example =
    Reached-refines params filled-Reached filled-Small (λ e. cc (sym filled-state ∙ e)) 3

filled-entries : (table_of filled.1.main).total_entries ≡ 1
unfolding new_map compute_state Table.new_table Table.expand Table.push_buckets Table.clamp_power
    get_prime_power_of_2 Vector.push_back Vector.grow Vector.reserve Vector.relocate put put_main
    construct_at Table.table_get_or_create_entry Table.get_bucket_index
    Bucket.bucket_get_or_create_entry Bucket.find_index Bucket.construct after_stable should_resize
    begin_resize
filled-entries = refl

Reached-finalize_example :
    (r : Bool × UnorderedMap ℕ ℕ × ℕ) × (finalize params 2 filled.1 filled.2 ≡ some r)
    × (r.0 ≡ true
        → (r.1.state ≡ stable)
          × ((q : ℕ)
              → Table.get params (table_of r.1.main) q ≡ updated params (λ _. none) 3 (some 30) q))
    × (r.0 ≡ false
        → OutOfMemory blocks filled.2
          × ((q : ℕ) → get_either params r.1 q ≡ updated params (λ _. none) 3 (some 30) q))
Reached-finalize_example =
    Reached-finalize params filled-Reached filled-state 2 (omega (arith, filled-entries))

Reached-reserve_example :
    (r : Bool × UnorderedMap ℕ ℕ × ℕ) × (Methods.reserve params size_mod filled.1 100 filled.2
      ≡ some r)
    × (r.0 ≡ true
        → (r.1.state ≡ stable)
          × ((q : ℕ)
              → Table.get params (table_of r.1.main) q ≡ updated params (λ _. none) 3 (some 30) q))
Reached-reserve_example = Reached-reserve params filled-Reached size_mod 100 (omega arith)

Reached-delete_all_keys_example :
    (r : UnorderedMap ℕ ℕ × ℕ) × (delete_all_keys params 1 filled.1 filled.2 ≡ some r)
    × (r.0.state ≡ stable)
    × ((q : ℕ) → contains params r.0 q ≡ false)
Reached-delete_all_keys_example =
    Reached-delete_all_keys params filled-Reached (λ e. cc (sym filled-state ∙ e)) 0
