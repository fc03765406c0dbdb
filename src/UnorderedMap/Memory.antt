-- ===== src/UnorderedMap/Memory.antt =====
-- A transfer that fails has run out of memory.
use real_time_library.Base.{
  ℕ, zero, suc, ◌+◌, ◌-◌, ◌<◌, ◌≡◌, refl, sym, ◌∙◌, ◌≢◌, inl, inr, Bool, true, false, Option, none,
  some, arith, ◌==◌, get_last?, ne→eqb, Bool-cases, Option-cases,
}
use real_time_library.Alloc.{Alloc, Later, now, Later-trans, OutOfMemory, OutOfMemory-trans}
use real_time_library.Vector.{push_back, pop_back}
use real_time_library.Vector.Push.{push_back-Later, push_back-OutOfMemory}
use real_time_library.Bucket.{
  Params, Entry, Bucket, BucketGetOrCreateResult, found, created, failed, find_index, new_entry,
  entry_element, bucket_get_or_create_entry,
}
use real_time_library.Table.{Table, bucket_at, get_bucket_index, table_get_or_create_entry}
use real_time_library.UnorderedMap
use real_time_library.UnorderedMap.{
  UnorderedMap, transfer, Progress, emptied, paused, table_of, put_table, address, drop_entry,
  move_entry, transfer_bucket, transfer_from, keys_per_step, perform_partial_transfer, end_resize,
  is_transfer_complete,
}
use mathlib.Core.Path.{subst}
use real_time_library.UnorderedMap.Finish.{finish, complete-finish, finalize-transfer}
use real_time_library.UnorderedMap.Keep.{InTransfer, there-put_table, address-put_table}
use real_time_library.UnorderedMap.Methods.{transfer_all, finalize}

module _ {A : Alloc} {K V : Type 0} (P : Params A K V) where
  bucket_created-Later :
      (b : Bucket K V) (k : K) (h : A.Heap)
      → let (res, _, h') = bucket_get_or_create_entry P b k h in
        Later A h h' × (res ≡ failed → OutOfMemory A h)
  unfolding bucket_get_or_create_entry
  bucket_created-Later b k h = elim (Option-cases (find_index P b.items k)) [
    | inr (i, e) ↦ rw (e, bucket_get_or_create_entry) (now, λ f. absurd (found-failed f))
    | inl e ↦
        let later = push_back-Later (entry_element P) b (new_entry k) h in
        elim (Bool-cases (push_back (entry_element P) b (new_entry k) h).0) [
          | inl pushed ↦
              rw (e, pushed, bucket_get_or_create_entry) (later, λ f. absurd (created-failed f))
          | inr refused ↦
              rw (e, refused, bucket_get_or_create_entry)
                (later, λ _. push_back-OutOfMemory (entry_element P) b (new_entry k) h refused)
        ]
  ]
    where
      found-failed : {i : ℕ} → found i ≢ failed
      found-failed f = cc

      created-failed : {i : ℕ} → created i ≢ failed
      created-failed f = cc

  -- What a call on the table, or a number of them, has left of the heap and of the buckets.
  table_created-Later :
      (t : Table K V) (k : K) (h : A.Heap)
      → 0 < t.num_buckets
      → let (res, t', h') = table_get_or_create_entry P t k h in
        Later A h h' × (t'.num_buckets ≡ t.num_buckets) × (res ≡ none → OutOfMemory A h)
  unfolding table_get_or_create_entry
  table_created-Later t k h some_buckets =
      let b = bucket_at t (get_bucket_index P t k) in
      let (later, oom) = bucket_created-Later b k h in
      let test : (t.num_buckets == 0) ≡ false = ne→eqb t.num_buckets 0 (omega arith) in
      by_result (bucket_get_or_create_entry P b k h).0 refl later oom test
    where
      b : Bucket K V
      b = bucket_at t (get_bucket_index P t k)

      by_result :
          (res : BucketGetOrCreateResult)
          → (bucket_get_or_create_entry P b k h).0 ≡ res
          → Later A h (bucket_get_or_create_entry P b k h).2
          → ((bucket_get_or_create_entry P b k h).0 ≡ failed → OutOfMemory A h)
          → (t.num_buckets == 0) ≡ false
          → let (res, t', h') = table_get_or_create_entry P t k h in
            Later A h h' × (t'.num_buckets ≡ t.num_buckets) × (res ≡ none → OutOfMemory A h)
      by_result (found j) e later oom test =
          simp (test, e, table_get_or_create_entry) (later, refl, λ f. cc)
      by_result (created j) e later oom test =
          simp (test, e, table_get_or_create_entry) (later, refl, λ f. cc)
      by_result failed e later oom test =
          simp (test, e, table_get_or_create_entry) (later, refl, λ _. oom e)

  drop_entry-heap : (main : Table K V) (i : ℕ) (h : A.Heap) → (drop_entry P main i h).1 ≡ h
  unfolding drop_entry pop_back
  drop_entry-heap main i h = elim (Option-cases (get_last? (bucket_at main i).items)) [
    | inl e ↦ rw (e, drop_entry, pop_back)
    | inr (x, e) ↦ rw (e, drop_entry, pop_back)
  ]

  move_entry-width :
      (sec : Table K V) (o : Option (ℕ × ℕ × Bool)) (e : Entry K V)
      → (move_entry P sec o e).num_buckets ≡ sec.num_buckets
  unfolding move_entry
  move_entry-width sec none e = refl
  move_entry-width sec (some (i, j, true)) e = refl
  move_entry-width sec (some (i, j, false)) e = refl

  -- How far a bucket was moved, by the heap: a failure is a refused request.
  Tracked : A.Heap → ℕ → Progress K V A.Heap → Type 0
  Tracked h width (emptied budget main sec h') = Later A h h' × (sec.num_buckets ≡ width)
  Tracked h width (paused main sec h') = Later A h h' × (sec.num_buckets ≡ width)
  Tracked h width (UnorderedMap.failed main sec h') =
      Later A h h' × (sec.num_buckets ≡ width) × OutOfMemory A h

  Tracked-trans :
      {h g : A.Heap} {width width' : ℕ} (r : Progress K V A.Heap)
      → Later A h g
      → width' ≡ width
      → Tracked g width' r
      → Tracked h width r
  unfolding Tracked
  Tracked-trans (emptied budget main sec h') later e (more, same) =
      (Later-trans later more, same ∙ e)
  Tracked-trans (paused main sec h') later e (more, same) = (Later-trans later more, same ∙ e)
  Tracked-trans (UnorderedMap.failed main sec h') later e (more, same, oom) =
      (Later-trans later more, same ∙ e, OutOfMemory-trans later oom)

  transfer_bucket-Tracked :
      (budget i : ℕ) (main sec : Table K V) (h : A.Heap)
      → 0 < sec.num_buckets
      → Tracked h sec.num_buckets (transfer_bucket P budget i main sec h)
  unfolding transfer_bucket Tracked
  transfer_bucket-Tracked zero i main sec h wide =
      elim (Option-cases (get_last? (bucket_at main i).items)) [
        | inl e ↦ rw (e, transfer_bucket) (now, refl)
        | inr (x, e) ↦ rw (e, transfer_bucket) (now, refl)
      ]
  transfer_bucket-Tracked (suc budget) i main sec h wide =
      elim (Option-cases (get_last? (bucket_at main i).items)) [
        | inl e ↦ rw (e, transfer_bucket) (now, refl)
        | inr (x, e) ↦
            let (res, sec', h') = table_get_or_create_entry P sec x.key h in
            let (main', h'') = drop_entry P main i h' in
            let (later, width, oom) = table_created-Later sec x.key h wide in
            elim (Option-cases (table_get_or_create_entry P sec x.key h).0) [
              | inl f ↦ rw (e, f, transfer_bucket) (later, width, oom f)
              | inr (r, f) ↦
                  let moved = move_entry-width sec' (some r) x in
                  rw (e, f, transfer_bucket)
                    (Tracked-trans
                      (transfer_bucket P budget i main' (move_entry P sec' (some r) x) h'')
                      (rw (drop_entry-heap main i h') later) (moved ∙ width)
                      (transfer_bucket-Tracked budget i main' (move_entry P sec' (some r) x) h''
                        (omega (arith, moved, width))))
            ]
      ]

  -- The same for the result of a loop that says whether it has failed.
  abbrev Traced : A.Heap → ℕ → Bool → Table K V → A.Heap → Type 0
  Traced h width done sec h' =
      Later A h h' × (sec.num_buckets ≡ width) × (done ≡ false → OutOfMemory A h)

  transfer_from-Traced :
      (left budget i : ℕ) (main sec : Table K V) (h : A.Heap)
      → 0 < sec.num_buckets
      → let (done, _, _, sec', h') = transfer_from P left budget i main sec h in
        Traced h sec.num_buckets done sec' h'
  unfolding transfer_from Tracked
  transfer_from-Traced zero budget i main sec h wide = (now, refl, λ f. cc)
  transfer_from-Traced (suc left) budget i main sec h wide =
      go (transfer_bucket P budget i main sec h) (transfer_bucket-Tracked budget i main sec h wide)
        (λ budget' main' sec' h' wide'.
          transfer_from-Traced left budget' (i + 1) main' sec' h' wide')
    where
      next : Progress K V A.Heap → Bool × ℕ × Table K V × Table K V × A.Heap
      next (emptied budget' main' sec' h') = transfer_from P left budget' (i + 1) main' sec' h'
      next (paused main' sec' h') = (true, i, main', sec', h')
      next (UnorderedMap.failed main' sec' h') = (false, i, main', sec', h')

      go :
          (r : Progress K V A.Heap)
          → Tracked h sec.num_buckets r
          → ((budget' : ℕ) (main' sec' : Table K V) (h' : A.Heap)
              → 0 < sec'.num_buckets
              → let (done, _, _, sec'', h'') = transfer_from P left budget' (i + 1) main' sec' h' in
                Traced h' sec'.num_buckets done sec'' h'')
          → let (done, _, _, sec', h') = next r in Traced h sec.num_buckets done sec' h'
      go (emptied budget' main' sec' h') (later, width) rest =
          let (more, width', oom) = rest budget' main' sec' h' (omega (arith, width, wide)) in
          (Later-trans later more, width' ∙ width, λ f. OutOfMemory-trans later (oom f))
      go (paused main' sec' h') (later, width) rest = (later, width, λ f. cc)
      go (UnorderedMap.failed main' sec' h') (later, width, oom) rest = (later, width, λ _. oom)

  perform_partial_transfer-Traced :
      (m : UnorderedMap K V) (h : A.Heap)
      → address m.secondary ≢ none
      → 0 < (table_of m.secondary).num_buckets
      → let (done, m', h') = perform_partial_transfer P m h in
        Traced h (table_of m.secondary).num_buckets done (table_of m'.secondary) h'
        × (address m'.secondary ≢ none)
  unfolding perform_partial_transfer
  perform_partial_transfer-Traced m h there wide =
      let i = m.current_bucket_to_transfer in
      let t = table_of m.main in
      let (done, _, _, sec, h') =
        transfer_from P (t.num_buckets - i) (keys_per_step P) i t (table_of m.secondary) h in
      let traced =
        transfer_from-Traced (t.num_buckets - i) (keys_per_step P) i t (table_of m.secondary) h
          wide in
      (
        rw (there-put_table P m.secondary sec there) traced,
        λ e. there (sym (address-put_table P m.secondary sec) ∙ e),
      )

  -- A loop over partial transfers, and `finalize`, return false only where a request is refused.
  Refused : A.Heap → Option (Bool × UnorderedMap K V × A.Heap) → Type 0
  Refused h none = Later A h h
  Refused h (some (done, m, h')) = done ≡ false → OutOfMemory A h

  Refused-trans :
      {h g : A.Heap} (o : Option (Bool × UnorderedMap K V × A.Heap))
      → Later A h g
      → Refused g o
      → Refused h o
  unfolding Refused
  Refused-trans none later r = now
  Refused-trans (some (done, m, h')) later r = λ f. OutOfMemory-trans later (r f)

  transfer_all-Refused :
      (fuel : ℕ) (m : UnorderedMap K V) (h : A.Heap)
      → address m.secondary ≢ none
      → 0 < (table_of m.secondary).num_buckets
      → Refused h (transfer_all P fuel m h)
  unfolding transfer_all Refused
  transfer_all-Refused zero m h there wide = now
  transfer_all-Refused (suc fuel) m h there wide = elim (Bool-cases (is_transfer_complete m)) [
    | inl e ↦ rw (e, transfer_all) (λ f. cc)
    | inr e ↦
        let (_, m', h') = perform_partial_transfer P m h in
        let ((later, width, oom), there') = perform_partial_transfer-Traced m h there wide in
        elim (Bool-cases (perform_partial_transfer P m h).0) [
          | inr f ↦ rw (e, f, transfer_all) (λ _. oom f)
          | inl f ↦
              let rest = transfer_all-Refused fuel m' h' there' (omega (arith, width, wide)) in
              rw (e, f, transfer_all) (Refused-trans (transfer_all P fuel m' h') later rest)
        ]
  ]

  finish-Refused :
      (h : A.Heap) (o : Option (Bool × UnorderedMap K V × A.Heap))
      → Refused h o
      → Refused h (finish P o)
  unfolding Refused finish
  finish-Refused h none r = r
  finish-Refused h (some (true, m, h')) r = λ f. cc
  finish-Refused h (some (false, m, h')) r = r

  -- `finalize` in transfer returns false only where a request to the allocator, made after some calls
  -- of the allocator from the given heap on, has been refused.
  pub finalize-OutOfMemory :
      (fuel : ℕ) (m : UnorderedMap K V) (h : A.Heap) (r : Bool × UnorderedMap K V × A.Heap)
      → m.state ≡ transfer
      → InTransfer P m
      → finalize P fuel m h ≡ some r
      → r.0 ≡ false
      → OutOfMemory A h
  unfolding Refused
  finalize-OutOfMemory fuel m h r moves inv run is_false =
      let all : Refused h (transfer_all P fuel m h) =
        transfer_all-Refused fuel m h inv.secondary_there inv.pair.sec_valid.nonempty in
      let same : finish P (transfer_all P fuel m h) ≡ some r =
        sym (finalize-transfer P fuel m h moves ∙ complete-finish P fuel m h) ∙ run in
      let refused : Refused h (some r) =
        subst (λ o. Refused h o) same (finish-Refused h (transfer_all P fuel m h) all) in
      refused is_false
