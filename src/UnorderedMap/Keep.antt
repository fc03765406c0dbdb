-- ===== src/UnorderedMap/Keep.antt =====
-- A partial transfer keeps every lookup.
use real_time_library.Base.{
  ℕ, ◌-◌, ◌≤◌, ◌≡◌, refl, sym, ◌∙◌, ◌≢◌, inl, inr, Option, none, some, Option-cases,
}
use real_time_library.Alloc.{Alloc}
use real_time_library.Bucket.{Params}
use real_time_library.Table
use real_time_library.Table.{
  Table, bucket_at, set_entry, TableGetOrCreateResult, table_get_or_create_entry,
}
use real_time_library.UnorderedMap.Methods.{get_either}
use real_time_library.UnorderedMap.{
  UnorderedMap, table_of, put_table, address, keys_per_step, perform_partial_transfer,
  transfer_from,
}
use real_time_library.UnorderedMap.Pair.{lookup, Pair}
use real_time_library.UnorderedMap.Sweep.{transfer_from-Swept}

module _ {A : Alloc} {K V : Type 0} (P : Params A K V) where
  pub get_either-lookup :
      (m : UnorderedMap K V) (q : K)
      → get_either P m q ≡ lookup P (table_of m.main) (table_of m.secondary) q
  unfolding get_either
  get_either-lookup m q = elim (Option-cases (Table.get P (table_of m.secondary) q)) [
    | inl e ↦ rw (e, get_either)
    | inr (x, e) ↦ rw (e, get_either)
  ]

  -- A map in transfer, with its two tables.
  pub record InTransfer (m : UnorderedMap K V) : Type 0 where
    pub main_there : address m.main ≢ none
    pub secondary_there : address m.secondary ≢ none
    pub pair : Pair P (table_of m.main) (table_of m.secondary)

  pub there-put_table :
      (o : Option (ℕ × Table K V)) (t : Table K V) → address o ≢ none → table_of (put_table o t) ≡ t
  there-put_table none t ne = absurd (ne refl)
  there-put_table (some (p, u)) t ne = refl

  pub address-put_table :
      (o : Option (ℕ × Table K V)) (t : Table K V) → address (put_table o t) ≡ address o
  address-put_table none t = refl
  address-put_table (some (p, u)) t = refl

  -- A partial transfer, whether it succeeds or runs out of memory, keeps the invariant of a map in
  -- transfer and the result of every lookup, and does not add entries to the main table.
  pub get_either-perform_partial_transfer :
      (m : UnorderedMap K V) (h : A.Heap)
      → InTransfer m
      → let (_, m', _) = perform_partial_transfer P m h in
        InTransfer m'
        × ((q : K) → get_either P m' q ≡ get_either P m q)
        × ((table_of m'.main).total_entries ≤ (table_of m.main).total_entries)
  unfolding perform_partial_transfer
  get_either-perform_partial_transfer m h inv =
      let left = (table_of m.main).num_buckets - m.current_bucket_to_transfer in
      let i = m.current_bucket_to_transfer in
      let kept = (transfer_from-Swept P left (keys_per_step P) i h inv.pair).kept in
      let (_, _, main', sec', _) =
        transfer_from P left (keys_per_step P) i (table_of m.main) (table_of m.secondary) h in
      let is_main = there-put_table m.main main' inv.main_there in
      let is_sec = there-put_table m.secondary sec' inv.secondary_there in
      (
        record {
          main_there = λ e. inv.main_there (sym (address-put_table m.main main') ∙ e);
          secondary_there = λ e. inv.secondary_there (sym (address-put_table m.secondary sec') ∙ e);
          pair = rw (is_main, is_sec) kept.pair;
        },
        λ q.
            get_either-lookup _ q
            ∙ (rw (is_main, is_sec) (kept.reads q) ∙ sym (get_either-lookup m q)),
        rw is_main kept.fewer,
      )
