-- ===== src/UnorderedMap/Reach.antt =====
-- The maps that calls of the class make, and the function from keys to values that they stand for.
use real_time_library.Base.{
  same_result, suc, Bool, true, false, ℕ, ◌<◌, ◌≡◌, refl, sym, ap, ◌∙◌, ◌≤◌, ◌≢◌, ◌⊎◌, inl, inr,
  true, Option, none, some,
}
use real_time_library.Alloc.{Alloc, size_mod, OutOfMemory}
use real_time_library.Bucket.{Params}
use real_time_library.Table
use real_time_library.Table.{new_table}
use real_time_library.UnorderedMap.{
  UnorderedMap, MapState, error, stable, transfer, table_of, new_map, lock_table_size,
  unlock_table_size,
}
use real_time_library.UnorderedMap.Methods
use real_time_library.UnorderedMap.Methods.{
  delete_all_keys, finalize, contains, get_either, put, del,
}
use real_time_library.UnorderedMap.Finish.{finalize-ends}
use real_time_library.UnorderedMap.Public.{is_some, find_by_state, contains-find}
use real_time_library.UnorderedMap.Delete.{Stale}
use real_time_library.UnorderedMap.Holds.{
  Holds, resting, moving, broken, updated, Settled, Settled-Holds,
}
use real_time_library.UnorderedMap.Calls.{Small, get-Settled, get-error}
use real_time_library.UnorderedMap.PutCall.{put-Holds}
use real_time_library.UnorderedMap.DelCall.{Deletable, del-Settled, del-lost, del-error}
use mathlib.Core.Path.{subst}
use real_time_library.UnorderedMap.Memory.{finalize-OutOfMemory}
use real_time_library.UnorderedMap.Clearing.{delete_all_keys-Holds}
use real_time_library.UnorderedMap.Start.{
  first_buckets, new_map-Holds, lock_table_size-Holds, unlock_table_size-Holds,
}
use real_time_library.UnorderedMap.Reserve.{reserve-Completed, finalize-Completed, Completed-Holds}

error-cases : (s : MapState) → (s ≡ error) ⊎ (s ≢ error)
error-cases error = inl refl
error-cases stable = inr (λ e. cc)
error-cases transfer = inr (λ e. cc)

module _ {A : Alloc} {K V : Type 0} (P : Params A K V) where
  -- The maps that a client can make with calls of the constructor where it gets at least one bucket, `get`, `put` where it returns
  -- true, `del`, the lock of the table size, `delete_all_keys`, and `finalize` and
  -- `reserve` where they return true, with the function of the keys that the calls spell
  -- out: a `del` that finds only the entry left of a moved value takes no key away.
  pub data Reached : UnorderedMap K V → A.Heap → (K → Option V) → Type 0 where
    created :
        (percent : ℕ) (h : A.Heap)
        → 0 < first_buckets P percent h
        → Reached (new_map P percent h).0 (new_map P percent h).1 (λ _. none)
    got :
        {m : UnorderedMap K V} {h : A.Heap} {f : K → Option V} (k : K)
        → Reached m h f
        → Small P m
        → Reached (Methods.get P m k h).1 (Methods.get P m k h).2 f
    stored :
        {m : UnorderedMap K V} {h : A.Heap} {f : K → Option V} (k : K) (x : V)
        → Reached m h f
        → Small P m
        → (put P m k x h).0 ≡ true
        → Reached (put P m k x h).1 (put P m k x h).2 (updated P f k (some x))
    deleted :
        {m : UnorderedMap K V} {h : A.Heap} {f : K → Option V} (k : K)
        → Reached m h f
        → Small P m
        → Deletable P m k
        → Reached (del P m k h).1 (del P m k h).2 (updated P f k none)
    lost :
        {m : UnorderedMap K V} {h : A.Heap} {f : K → Option V} (k : K)
        → Reached m h f
        → Small P m
        → m.state ≡ transfer
        → Stale P m k
        → Reached (del P m k h).1 (del P m k h).2 f
    locked :
        {m : UnorderedMap K V} {h : A.Heap} {f : K → Option V}
        → Reached m h f
        → Reached (lock_table_size m) h f
    unlocked :
        {m : UnorderedMap K V} {h : A.Heap} {f : K → Option V}
        → Reached m h f
        → Reached (unlock_table_size m) h f
    finalized :
        {m m' : UnorderedMap K V} {h h' : A.Heap} {f : K → Option V} (fuel : ℕ)
        → Reached m h f
        → (table_of m.main).total_entries < fuel
        → finalize P fuel m h ≡ some (true, m', h')
        → Reached m' h' f
    reserved :
        {m m' : UnorderedMap K V} {h h' : A.Heap} {f : K → Option V} (fuel number : ℕ)
        → Reached m h f
        → size_mod ≤ fuel
        → Methods.reserve P fuel m number h ≡ some (true, m', h')
        → Reached m' h' f
    emptied :
        {m m' : UnorderedMap K V} {h h' : A.Heap} {f : K → Option V} (n : ℕ)
        → Reached m h f
        → m.state ≢ error
        → delete_all_keys P (suc n) m h ≡ some (m', h')
        → Reached m' h' (λ _. none)

  unless_error :
      {R : Type 0} {f : K → Option V} {failure result : R} (m : UnorderedMap K V)
      (r : R × UnorderedMap K V × A.Heap)
      → (m.state ≡ error → r.1 ≡ m)
      → (m.state ≢ error → Settled P f failure result r)
      → Holds P r.1 f
  unless_error m r same fine = elim (error-cases m.state) [
    | inl e ↦ broken (ap (λ (u : UnorderedMap K V). u.state) (same e) ∙ e)
    | inr ne ↦ Settled-Holds P (fine ne)
  ]

  Reached-Holds :
      {m : UnorderedMap K V} {h : A.Heap} {f : K → Option V} → Reached m h f → Holds P m f
  unfolding Methods.get
  Reached-Holds (created percent h wide) = new_map-Holds P percent h wide
  Reached-Holds (got {m} {h} {f} k before small) =
      unless_error m (Methods.get P m k h) (get-error P m k h)
        (get-Settled P m f k h (Reached-Holds before) small)
  Reached-Holds (stored {m} {h} {f} k x before small done) =
      put-Holds P m f k x h (Reached-Holds before) small done
  Reached-Holds (deleted {m} {h} {f} k before small current) =
      unless_error m (del P m k h) (del-error P m k h)
        (λ fine. del-Settled P m f k h (Reached-Holds before) small fine current)
  Reached-Holds (lost {m} {h} {f} k before small moves stale) =
      Settled-Holds P (del-lost P m f k h (Reached-Holds before) small moves stale)
  Reached-Holds (locked before) = lock_table_size-Holds P (Reached-Holds before)
  Reached-Holds (unlocked before) = unlock_table_size-Holds P (Reached-Holds before)
  Reached-Holds (finalized {m} {m'} {h} {h'} {f} fuel before enough run) =
      Completed-Holds P f (finalize P fuel m h) m' h'
        (finalize-Completed P fuel m f h (Reached-Holds before) enough) run
  Reached-Holds (reserved {m} {m'} {h} {h'} {f} fuel number before enough run) =
      Completed-Holds P f (Methods.reserve P fuel m number h) m' h'
        (reserve-Completed P fuel number m f h (Reached-Holds before) enough) run
  Reached-Holds (emptied {m} {m'} {h} {h'} {f} n before fine run) =
      let ((u, g), ran, _, holds) = delete_all_keys-Holds P n m f h (Reached-Holds before) fine in
      subst (λ v. Holds P v (λ _. none)) (ap (λ r. r.0) (same_result ran run)) holds

  find_by_state-Holds :
      {m : UnorderedMap K V} {f : K → Option V}
      → Holds P m f
      → m.state ≢ error
      → (k : K) → find_by_state P m.state m k ≡ f k
  find_by_state-Holds {m} (resting e rests reads) fine k =
      ap (λ s. find_by_state P s m k) e ∙ reads k
  find_by_state-Holds {m} (moving e inv reads) fine k = ap (λ s. find_by_state P s m k) e ∙ reads k
  find_by_state-Holds (broken e) fine k = absurd (fine e)

  -- The map refines a function from keys to values. Take a map from a constructor that got at least
  -- one bucket, and any calls on it that `Reached` lists, below 2 ^ 64 - 2 entries and 2 ^ 31 buckets.
  -- If it is not in its error state, `contains` says whether the function of the calls has the key;
  -- `get` returns the value of that function and leaves a map that stands for it, or it returns
  -- nothing and the map is in its error state.
  pub Reached-refines :
      {m : UnorderedMap K V} {h : A.Heap} {f : K → Option V}
      → Reached m h f
      → Small P m
      → m.state ≢ error
      → (k : K) → (contains P m k ≡ is_some P (f k)) × Settled P f none (f k) (Methods.get P m k h)
  Reached-refines {m} {h} {f} reached small fine k = (
    contains-find P m k ∙ ap (is_some P) (find_by_state-Holds (Reached-Holds reached) fine k),
    get-Settled P m f k h (Reached-Holds reached) small fine,
  )

  -- From every map in transfer that the calls listed by `Reached` make out of a new map with at least
  -- one bucket, `finalize` returns for every fuel above the number of entries that the main table has left. Where it returns true, the map is
  -- stable and its table has the values of the function of the calls; where it returns false, a
  -- request to the allocator, made after some calls of the allocator from the heap of the call on, was
  -- refused, and every lookup in both tables finds the value of that function.
  pub Reached-finalize :
      {m : UnorderedMap K V} {h : A.Heap} {f : K → Option V}
      → Reached m h f
      → m.state ≡ transfer
      → (fuel : ℕ) → (table_of m.main).total_entries < fuel
      → (r : Bool × UnorderedMap K V × A.Heap) × (finalize P fuel m h ≡ some r)
        × (r.0 ≡ true → (r.1.state ≡ stable) × ((q : K) → Table.get P (table_of r.1.main) q ≡ f q))
        × (r.0 ≡ false → OutOfMemory A h × ((q : K) → get_either P r.1 q ≡ f q))
  Reached-finalize {m} {h} {f} reached moves fuel enough = go (Reached-Holds reached)
    where
      go :
          Holds P m f
          → (r : Bool × UnorderedMap K V × A.Heap) × (finalize P fuel m h ≡ some r)
            × (r.0 ≡ true
                → (r.1.state ≡ stable) × ((q : K) → Table.get P (table_of r.1.main) q ≡ f q))
            × (r.0 ≡ false → OutOfMemory A h × ((q : K) → get_either P r.1 q ≡ f q))
      go (resting e rests reads) = cc (sym e ∙ moves)
      go (broken e) = cc (sym e ∙ moves)
      go (moving e ready reads) =
          let (r, run, ended, stuck) = finalize-ends P fuel m h moves ready enough in
          (
            r,
            run,
            λ done. ((ended done).0, λ q. (ended done).1 q ∙ reads q),
            λ refused. (
              finalize-OutOfMemory P fuel m h r moves ready.in_transfer run refused,
              λ q. stuck refused q ∙ reads q,
            ),
          )

  -- On every map that the calls listed by `Reached` make out of a new map with at least one bucket,
  -- `reserve` returns for every fuel of at least
  -- 2 ^ 64: it says true or false, and where it says true, the map is stable and its table has the
  -- values of the function of the calls.
  pub Reached-reserve :
      {m : UnorderedMap K V} {h : A.Heap} {f : K → Option V}
      → Reached m h f
      → (fuel number : ℕ) → size_mod ≤ fuel
      → (r : Bool × UnorderedMap K V × A.Heap) × (Methods.reserve P fuel m number h ≡ some r)
        × (r.0 ≡ true → (r.1.state ≡ stable) × ((q : K) → Table.get P (table_of r.1.main) q ≡ f q))
  Reached-reserve {m} {h} {f} reached fuel number enough =
      let completed = reserve-Completed P fuel number m f h (Reached-Holds reached) enough in
      (
        completed.result,
        completed.returns,
        λ done. ((completed.at_rest done).0, completed.values done),
      )

  -- On every map that the calls listed by `Reached` make out of a new map with at least one bucket, and
  -- that is not in its error state,
  -- `delete_all_keys` returns for every fuel but 0, and the map is stable then and finds no key.
  pub Reached-delete_all_keys :
      {m : UnorderedMap K V} {h : A.Heap} {f : K → Option V}
      → Reached m h f
      → m.state ≢ error
      → (n : ℕ)
      → (r : UnorderedMap K V × A.Heap) × (delete_all_keys P (suc n) m h ≡ some r)
        × (r.0.state ≡ stable)
        × ((q : K) → contains P r.0 q ≡ false)
  Reached-delete_all_keys {m} {h} {f} reached fine n =
      let ((m', h'), run, at_stable, holds) =
        delete_all_keys-Holds P n m f h (Reached-Holds reached) fine in
      (
        (m', h'),
        run,
        at_stable,
        λ q.
            contains-find P m' q
            ∙ ap (is_some P) (find_by_state-Holds holds (λ e. cc (sym at_stable ∙ e)) q),
      )
