-- ===== src/Tests/Tables.antt =====
-- A table of two buckets, with an entry for the key 3 in the second one.
use real_time_library.Base.{
  ℕ, zero, suc, ◌+◌, ◌≤◌, ◌≡◌, refl, sym, ◌∙◌, ◌≢◌, true, false, ◌&&◌, none, some, [], ◌∷◌, arith,
  ◌==◌, if◌then◌else◌, eqb→eq,
}
use real_time_library.Vector
use real_time_library.Vector.{Vector, new}
use real_time_library.Bucket
use real_time_library.Bucket.{Params, Entry, Bucket}
use real_time_library.Bucket.Search.{count, find}
use real_time_library.Table
use real_time_library.Table.{Table, del, bucket_at, table_get_or_create_entry, get_bucket_index}
use real_time_library.Table.View.{IsValid, entries, view}
use real_time_library.Table.Lookup.{get-del, get-table_get_or_create_entry}
use real_time_library.UnorderedMap.{
  UnorderedMap, stable, transfer, table_of, perform_partial_transfer,
}
use real_time_library.UnorderedMap.Keep.{InTransfer, get_either-perform_partial_transfer}
use real_time_library.UnorderedMap.Methods.{get_either, put_main, construct_at}
use real_time_library.UnorderedMap.Put.{get-put_main, put_main_overcounts}
use real_time_library.Tests.Vectors.{blocks, number, same_number}

abbrev pub params : Params blocks ℕ ℕ
params = record {
  eq = λ x y. x == y;
  eq_iff = same_number;
  hash = λ k. k;
  entry_size = 16;
  bucket_size = 32;
  table_size = 64;
  value = number;
}

abbrev pub with_three : Table ℕ ℕ
with_three = record {
  buckets = record {
    buf = some 90;
    items =
        new
        ∷ record {
          buf = some 91;
          items = record { key = 3; val = some (92, 30) } ∷ [];
          capacity = 1;
        }
        ∷ [];
    capacity = 2;
  };
  total_entries = 1;
  num_buckets = 2;
  power_of_2_size = 4;
}

with_three-placed :
    (q i : ℕ)
    → (count params q (bucket_at with_three i).items ≤ 1)
      × (get_bucket_index params with_three q ≢ i
          → count params q (bucket_at with_three i).items ≡ 0)
unfolding get_bucket_index
with_three-placed q zero = (omega arith, λ _. refl)
with_three-placed q (suc zero) = ground (arith, eqb→eq 3 q)
with_three-placed q (suc (suc i)) = (omega arith, λ _. refl)

with_three-IsValid : IsValid params with_three
with_three-IsValid = record {
  width = refl;
  nonempty = omega arith;
  counted = refl;
  placed = with_three-placed;
}

get-del_example :
    let (removed, t', h') = del params with_three 3 0 in
    IsValid params t'
    × ((q : ℕ) → Table.get params t' q ≡ (if 3 == q then none else Table.get params with_three q))
    × (removed ≡ true → t'.total_entries + 1 ≡ 1)
    × (removed ≡ false → (t' ≡ with_three) × (h' ≡ 0))
get-del_example = get-del params 3 0 with_three-IsValid (omega arith)

get-table_get_or_create_entry_example :
    let (res, t', _) = table_get_or_create_entry params with_three 4 1 in
    IsValid params t'
    × ((q : ℕ) → Table.get params t' q ≡ Table.get params with_three q)
    × (t'.total_entries ≡ elim res [ none ↦ 1 | some (_, _, created) ↦ if created then 2 else 1 ])
    × (res ≡ none → t' ≡ with_three)
get-table_get_or_create_entry_example =
    get-table_get_or_create_entry params 4 1 with_three-IsValid (omega arith)

get-put_main_example :
    let (done, t', _) = put_main params with_three 4 40 2 in
    (done ≡ true → IsValid params t')
    × ((q : ℕ)
        → Table.get params t' q
          ≡ (if done && (4 == q) then some 40 else Table.get params with_three q))
get-put_main_example = get-put_main params with_three-IsValid (omega arith) 4 40 2

made : (table_get_or_create_entry params with_three 4 1).0 ≡ some (0, 0, true)
unfolding table_get_or_create_entry get_bucket_index Bucket.bucket_get_or_create_entry
    Bucket.find_index Vector.push_back Vector.grow Vector.reserve Vector.relocate
made = refl

failed : (put_main params with_three 4 40 1).0 ≡ false
unfolding table_get_or_create_entry get_bucket_index Bucket.bucket_get_or_create_entry
    Bucket.find_index Vector.push_back Vector.grow Vector.reserve Vector.relocate put_main
    construct_at Bucket.construct Bucket.bucket_remove Bucket.deconstruct Vector.remove_fast
    Vector.pop_back Vector.swap
failed = refl

put_main_overcounts_example :
    let (_, t', _) = put_main params with_three 4 40 1 in
    (t'.total_entries ≡ 2) × (entries t'.buckets.items ≡ 1)
put_main_overcounts_example =
    put_main_overcounts params with_three-IsValid (omega arith) 4 40 1 0 0 made failed

abbrev pub empty_table : Table ℕ ℕ
empty_table = record {
  buckets = record { buf = some 94; items = new ∷ new ∷ new ∷ []; capacity = 3 };
  total_entries = 0;
  num_buckets = 3;
  power_of_2_size = 4;
}

empty_table-bucket : (i : ℕ) → bucket_at empty_table i ≡ new
empty_table-bucket zero = refl
empty_table-bucket (suc zero) = refl
empty_table-bucket (suc (suc zero)) = refl
empty_table-bucket (suc (suc (suc i))) = refl

empty_table-IsValid : IsValid params empty_table
empty_table-IsValid = record {
  width = refl;
  nonempty = omega arith;
  counted = refl;
  placed = λ q i. rw (empty_table-bucket i) (omega arith, λ _. refl);
}

-- A map that is about to move the entry for the key 3.
abbrev pub moving : UnorderedMap ℕ ℕ
moving = record {
  main = some (95, with_three);
  secondary = some (96, empty_table);
  state = transfer;
  max_load_factor_percent = 500;
  current_bucket_to_transfer = 0;
  locked = false;
}

has_value : (q i : ℕ) → find params q (bucket_at with_three i).items ≢ some none
has_value q zero e = cc
has_value q (suc zero) e = ground (arith, e)
has_value q (suc (suc i)) e = cc

nothing_there : (q : ℕ) → view params empty_table q ≡ none
nothing_there q = rw (empty_table-bucket (get_bucket_index params empty_table q))

pub moving-InTransfer : InTransfer params moving
moving-InTransfer = record {
  main_there = λ e. cc;
  secondary_there = λ e. cc;
  pair = record {
    main_valid = with_three-IsValid;
    sec_valid = empty_table-IsValid;
    valued = λ q e. cc (sym (nothing_there q) ∙ e);
    covered = λ q e. absurd (has_value q (get_bucket_index params with_three q) e);
    apart = λ q there. absurd (there (nothing_there q));
    room = omega arith;
  };
}

get_either-perform_partial_transfer_example :
    let (_, m', _) = perform_partial_transfer params moving 2 in
    InTransfer params m'
    × ((q : ℕ) → get_either params m' q ≡ get_either params moving q)
    × ((table_of m'.main).total_entries ≤ 1)
get_either-perform_partial_transfer_example =
    get_either-perform_partial_transfer params moving 2 moving-InTransfer

-- The same table in a map that is not in transfer.
abbrev resting : UnorderedMap ℕ ℕ
resting = record moving { secondary = none; state = stable }
