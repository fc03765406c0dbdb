-- ===== src/UnorderedMap/Methods.antt =====
-- librtlcpp/include/rtlcpp/map.hpp: the public operations of `rtl::unordered_map`.
use real_time_library.Base.{
  ℕ, zero, suc, Bool, true, false, Option, none, some, leb, ◌==◌, if◌then◌else◌,
}
use real_time_library.Alloc.{Alloc}
use real_time_library.Bucket.{Params, construct, bucket_remove}
use real_time_library.Table
use real_time_library.Table.{
  Table, bucket_at, set_bucket, set_entry, table_get_entry, table_get_or_create_entry,
  table_delete_all_entries,
}
use real_time_library.UnorderedMap.{
  UnorderedMap, error, stable, transfer, table_of, entry_at, set_main, set_secondary, in_error,
  is_transfer_complete, find_power, perform_partial_transfer, begin_resize, end_resize,
  after_stable, after_transfer,
}

module _ {A : Alloc} {K V : Type 0} (P : Params A K V) where
  -- `contains`; `Table::get` yields the value where the code yields a pointer to it
  unfoldable pub contains : UnorderedMap K V → K → Bool
  contains m k =
      let in_main : Bool = elim (Table.get P (table_of m.main) k) [
        | none ↦ false
        | some _ ↦ true
      ] in
      elim m.state [
        | error ↦ false
        | stable ↦ in_main
        | transfer ↦ elim (Table.get P (table_of m.secondary) k) [ none ↦ in_main | some _ ↦ true ]
      ]

  -- The lookup in both tables
  unfoldable pub get_either : UnorderedMap K V → K → Option V
  get_either m k = elim (Table.get P (table_of m.secondary) k) [
    | none ↦ Table.get P (table_of m.main) k
    | some x ↦ some x
  ]

  -- `get`
  unfoldable pub get : UnorderedMap K V → K → A.Heap → Option V × UnorderedMap K V × A.Heap
  get m k h = elim m.state [
    | error ↦ (none, m, h)
    | stable ↦ after_stable P m h none (Table.get P (table_of m.main) k)
    | transfer ↦ after_transfer P m h none (get_either m k)
  ]

  -- `res.entry->construct(...)` on the entry `(i, j)` of a table, and the roll-back of an entry that
  -- was created for nothing; `bucket_remove` takes the key of the entry. Only the state of transfer
  -- sets the value to null first, but an entry that `construct` fails on has none.
  unfoldable pub construct_at : Table K V → ℕ × ℕ × Bool → V → A.Heap → Bool × Table K V × A.Heap
  construct_at t (i, j, created) x h = elim (entry_at t i j) [
    | none ↦ (false, t, h)
    | some e ↦
        let (constructed, e', h') = construct P e x h in
        let cleared = set_entry t i j (record e { val = none }) in
        let (_, b, h'') = bucket_remove P (bucket_at cleared i) e.key h' in
        if constructed
        then (true, set_entry t i j e', h')
        else (if created then (false, set_bucket cleared i b, h'') else (false, t, h'))
  ]

  -- The `do` block of `put` in the stable state
  unfoldable pub put_main : Table K V → K → V → A.Heap → Bool × Table K V × A.Heap
  put_main t k x h =
      let (res, t', h') = table_get_or_create_entry P t k h in
      elim res [ none ↦ (false, t', h') | some r ↦ construct_at t' r x h' ]

  -- `*res.entry = std::move(*main_entry)` for a created entry, where main has one under the key: the
  -- secondary and the main table
  unfoldable pub take_over : Table K V → Table K V → ℕ × ℕ × Bool → K → Table K V × Table K V
  take_over sec main (i, j, false) k = (sec, main)
  take_over sec main (i, j, true) k = elim (table_get_entry P main k) [
    | none ↦ (sec, main)
    | some (mi, mj) ↦ elim (entry_at main mi mj) [
      | none ↦ (sec, main)
      | some e ↦ (set_entry sec i j e, set_entry main mi mj (record e { val = none }))
    ]
  ]

  -- The `do` block of `put` in the state of transfer
  unfoldable pub put_secondary :
      Table K V → Table K V → K → V → A.Heap → Bool × Table K V × Table K V × A.Heap
  put_secondary sec main k x h =
      let (res, sec', h') = table_get_or_create_entry P sec k h in
      elim res [
        | none ↦ (false, sec', main, h')
        | some r ↦
            let (seeded, main') = take_over sec' main r k in
            let (done, sec'', h'') = construct_at seeded r x h' in (done, sec'', main', h'')
      ]

  -- `put`
  unfoldable pub put : UnorderedMap K V → K → V → A.Heap → Bool × UnorderedMap K V × A.Heap
  put m k x h = elim m.state [
    | error ↦ (false, m, h)
    | stable ↦
        let (done, t, h') = put_main (table_of m.main) k x h in
        after_stable P (set_main m t) h' false done
    | transfer ↦
        let (done, sec, main, h') = put_secondary (table_of m.secondary) (table_of m.main) k x h in
        after_transfer P (set_main (set_secondary m sec) main) h' false done
  ]

  -- The deletion of `del` in the state of transfer: in main, or else in the secondary table
  unfoldable pub del_either : UnorderedMap K V → K → A.Heap → Bool × UnorderedMap K V × A.Heap
  del_either m k h =
      let (removed, main, h') = Table.del P (table_of m.main) k h in
      let (removed', sec, h'') = Table.del P (table_of m.secondary) k h' in
      if removed
      then (true, set_main m main, h')
      else (removed', set_secondary (set_main m main) sec, h'')

  -- `del`
  unfoldable pub del : UnorderedMap K V → K → A.Heap → Bool × UnorderedMap K V × A.Heap
  del m k h = elim m.state [
    | error ↦ (false, m, h)
    | stable ↦
        let (removed, t, h') = Table.del P (table_of m.main) k h in
        after_stable P (set_main m t) h' false removed
    | transfer ↦ let (removed, m', h') = del_either m k h in after_transfer P m' h' false removed
  ]

  -- The loop of `finalize` and `reserve` up to a complete transfer; `none` when the fuel is used up
  unfoldable pub transfer_all :
      ℕ → UnorderedMap K V → A.Heap → Option (Bool × UnorderedMap K V × A.Heap)
  transfer_all zero m h = none
  transfer_all (suc fuel) m h = elim (is_transfer_complete m) [
    | true ↦ some (true, m, h)
    | false ↦
        let (moved, m', h') = perform_partial_transfer P m h in
        elim moved [ true ↦ transfer_all fuel m' h' | false ↦ some (false, m', h') ]
  ]

  -- A complete transfer, then `end_resize`
  unfoldable pub complete :
      ℕ → UnorderedMap K V → A.Heap → Option (Bool × UnorderedMap K V × A.Heap)
  complete fuel m h = elim (transfer_all fuel m h) [
    | none ↦ none
    | some (moved, m', h') ↦
        let (m'', h'') = end_resize P m' h' in
        if moved then some (true, m'', h'') else some (false, m', h')
  ]

  -- `finalize`
  unfoldable pub finalize :
      ℕ → UnorderedMap K V → A.Heap → Option (Bool × UnorderedMap K V × A.Heap)
  finalize fuel m h = elim m.state [
    | error ↦ some (false, m, h)
    | stable ↦ some (true, m, h)
    | transfer ↦ complete fuel m h
  ]

  -- `delete_all_keys`
  unfoldable pub delete_all_keys :
      ℕ → UnorderedMap K V → A.Heap → Option (UnorderedMap K V × A.Heap)
  delete_all_keys fuel m h = elim m.state [
    | error ↦ some (m, h)
    | stable ↦
        let (t, h') = table_delete_all_entries P (table_of m.main) h in some (set_main m t, h')
    | transfer ↦
        let (t, h') = table_delete_all_entries P (table_of m.main) h in
        let (s, h'') = table_delete_all_entries P (table_of m.secondary) h' in
        elim (finalize fuel (set_secondary (set_main m t) s) h'') [
          | none ↦ none
          | some (_, m', h‴) ↦ some (m', h‴)
        ]
  ]

  -- The end of `reserve`, in the stable state: a resize to `power`, all at once
  unfoldable pub resize_to :
      ℕ → ℕ → UnorderedMap K V → A.Heap → Option (Bool × UnorderedMap K V × A.Heap)
  resize_to fuel power m h =
      let (begun, m', h') = begin_resize P m power h in
      if leb power (table_of m.main).power_of_2_size
      then some (true, m, h)
      else (if begun then complete fuel m' h' else some (false, in_error m', h'))

  -- `reserve`
  unfoldable pub reserve :
      ℕ → UnorderedMap K V → ℕ → A.Heap → Option (Bool × UnorderedMap K V × A.Heap)
  reserve fuel m number_of_buckets h =
      if number_of_buckets == 0
      then some (false, m, h)
      else elim (find_power 32 0 number_of_buckets) [
        | none ↦ some (false, m, h)
        | some power ↦ elim m.state [
          | error ↦ some (false, m, h)
          | stable ↦ resize_to fuel power m h
          | transfer ↦ elim (complete fuel m h) [
            | none ↦ none
            | some (true, m', h') ↦ resize_to fuel power m' h'
            | some (false, m', h') ↦ some (false, m', h')
          ]
        ]
      ]
