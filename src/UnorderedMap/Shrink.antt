-- ===== src/UnorderedMap/Shrink.antt =====
-- `put` and `del` in transfer bring no entry into the buckets that are transferred already.
use real_time_library.Base.{
  ℕ, zero, suc, ◌≤◌, ◌<◌, ◌≡◌, inl, inr, Bool, true, false, none, List, [], ◌∷◌, arith, ◌==◌,
  length, get_or, set, Bool-cases, Option-cases, length-set,
}
use real_time_library.Alloc.{Alloc}
use real_time_library.Vector.{new}
use real_time_library.Bucket.{Params, Entry, Bucket, bucket_remove}
use real_time_library.Bucket.Search.{count}
use real_time_library.Bucket.Removal.{bucket_remove-cases}
use real_time_library.Table
use real_time_library.Table.{
  Table, bucket_at, set_entry, get_bucket_index, table_get_entry, table_get_or_create_entry,
}
use real_time_library.Table.View.{IsValid}
use real_time_library.UnorderedMap.{UnorderedMap, table_of, put_table, entry_at}
use real_time_library.UnorderedMap.Methods.{put_secondary, take_over, del_either}
use real_time_library.UnorderedMap.Keep.{InTransfer, there-put_table}
use real_time_library.UnorderedMap.Finish.{Ready}

set-shorter :
    {K V : Type 0} (bs : List (Bucket K V)) (i : ℕ) (b : Bucket K V)
    → length b.items ≤ length (get_or bs i new).items
    → (j : ℕ) → length (get_or (set bs i b) j new).items ≤ length (get_or bs j new).items
set-shorter [] i b h j = omega arith
set-shorter (c ∷ bs) zero b h zero = h
set-shorter (c ∷ bs) zero b h (suc j) = omega arith
set-shorter (c ∷ bs) (suc i) b h zero = omega arith
set-shorter (c ∷ bs) (suc i) b h (suc j) = set-shorter bs i b h j

module _ {A : Alloc} {K V : Type 0} (P : Params A K V) where
  -- No bucket has more entries than before.
  abbrev pub Shorter : Table K V → Table K V → Type 0
  Shorter t t' = (j : ℕ) → length (bucket_at t' j).items ≤ length (bucket_at t j).items

  Shorter-refl : (t : Table K V) → Shorter t t
  Shorter-refl t j = omega arith

  bucket_remove-shorter :
      (b : Bucket K V) (k : K) (h : A.Heap)
      → ((q : K) → count P q b.items ≤ 1)
      → length (bucket_remove P b k h).1.items ≤ length b.items
  bucket_remove-shorter b k h once = elim (bucket_remove-cases P b k h once) [
    | inl (missing, run) ↦ rw run (omega arith)
    | inr (b', h', run, gone) ↦ rw run (omega (arith, gone.shorter))
  ]

  pub del-Shorter :
      {t : Table K V} (k : K) (h : A.Heap) → IsValid P t → Shorter t (Table.del P t k h).1
  unfolding Table.del
  del-Shorter {t} k h valid j =
      let i = get_bucket_index P t k in
      let shorter = bucket_remove-shorter (bucket_at t i) k h (λ q. (valid.placed q i).0) in
      let kept = set-shorter t.buckets.items i (bucket_remove P (bucket_at t i) k h).1 shorter j in
      elim (Bool-cases (t.num_buckets == 0)) [
        | inl e ↦ rw (e, Table.del) (omega arith)
        | inr e ↦ elim (Bool-cases (bucket_remove P (bucket_at t i) k h).0) [
          | inl f ↦ rw (e, f, Table.del) kept
          | inr f ↦ rw (e, f, Table.del) kept
        ]
      ]

  set_entry-Shorter : (t : Table K V) (i j : ℕ) (e : Entry K V) → Shorter t (set_entry t i j e)
  set_entry-Shorter t i j e =
      set-shorter t.buckets.items i _ (omega (arith, length-set (bucket_at t i).items j e))

  take_over-Shorter :
      (sec main : Table K V) (r : ℕ × ℕ × Bool) (k : K) → Shorter main (take_over P sec main r k).1
  unfolding take_over
  take_over-Shorter sec main (i, j, false) k = Shorter-refl main
  take_over-Shorter sec main (i, j, true) k = elim (Option-cases (table_get_entry P main k)) [
    | inl e ↦ rw (e, take_over) (Shorter-refl main)
    | inr ((mi, mj), e) ↦ elim (Option-cases (entry_at main mi mj)) [
      | inl f ↦ rw (e, f, take_over) (Shorter-refl main)
      | inr (x, f) ↦
          rw (e, f, take_over) (set_entry-Shorter main mi mj (record { key = x.key; val = none }))
    ]
  ]

  pub put_secondary-Shorter :
      (sec main : Table K V) (k : K) (x : V) (h : A.Heap)
      → Shorter main (put_secondary P sec main k x h).2
  unfolding put_secondary
  put_secondary-Shorter sec main k x h =
      elim (Option-cases (table_get_or_create_entry P sec k h).0) [
        | inl e ↦ rw (e, put_secondary) (Shorter-refl main)
        | inr (r, e) ↦
            rw (e, put_secondary)
              (take_over-Shorter (table_get_or_create_entry P sec k h).1 main r k)
      ]

  -- Main gets no new entries in front of the bucket to transfer next.
  pub set_main-Below :
      (m : UnorderedMap K V) (t : Table K V)
      → Ready P m
      → Shorter (table_of m.main) t
      → (j : ℕ) → j < m.current_bucket_to_transfer
      → length (bucket_at (table_of (put_table m.main t)) j).items ≡ 0
  set_main-Below m t ready shorter j below =
      rw (there-put_table P m.main t ready.in_transfer.main_there)
        (omega (arith, shorter j, ready.empty_below j below))

  pub del_either-Ready :
      {m : UnorderedMap K V} (k : K) (h : A.Heap)
      → Ready P m
      → InTransfer P (del_either P m k h).1
      → Ready P (del_either P m k h).1
  unfolding del_either
  del_either-Ready {m} k h ready inv' =
      let t = table_of m.main in
      let below =
        set_main-Below m (Table.del P t k h).1 ready
          (del-Shorter k h ready.in_transfer.pair.main_valid) in
      elim (Bool-cases (Table.del P t k h).0) [
        | inl e ↦ record { in_transfer = inv'; empty_below = rw (e, del_either) below }
        | inr e ↦ record { in_transfer = inv'; empty_below = rw (e, del_either) below }
      ]
