-- ===== src/UnorderedMap/Calls.antt =====
-- The calls of `get`, `put` and `del` by the state of the map; `get` on a map that stands for a
-- function.
use real_time_library.Base.{
  ℕ, ◌+◌, ◌<◌, ◌≡◌, refl, sym, ap, ◌∙◌, ◌≢◌, inl, inr, Bool, false, Option, none, some, arith,
  Option-cases,
}
use real_time_library.Alloc.{Alloc, size_mod}
use real_time_library.Bucket.{Params}
use real_time_library.Table
use real_time_library.Table.{Table, table_get_or_create_entry}
use real_time_library.Table.View.{IsValid, view}
use real_time_library.UnorderedMap.{
  UnorderedMap, MapState, error, stable, transfer, table_of, address, set_main, set_secondary,
  put_table, after_stable, after_transfer,
}
use real_time_library.UnorderedMap.Methods
use real_time_library.UnorderedMap.Methods.{
  get_either, construct_at, put_main, put_secondary, put, del, del_either,
}
use real_time_library.UnorderedMap.Keep.{there-put_table, address-put_table}
use real_time_library.UnorderedMap.Begin.{Rests}
use real_time_library.UnorderedMap.Holds.{
  Holds, resting, moving, broken, updated, Settled, after_stable-Settled, after_transfer-Settled,
}

module _ {A : Alloc} {K V : Type 0} (P : Params A K V) where
  -- A map of less than 2 ^ 64 - 2 entries and of a table that can grow.
  pub record Small (m : UnorderedMap K V) : Type 0 where
    pub count :
        (table_of m.main).total_entries + (table_of m.secondary).total_entries + 2 < size_mod
    pub power : (table_of m.main).power_of_2_size < 31

  pub set_main-Rests :
      (m : UnorderedMap K V) (t : Table K V)
      → address m.main ≢ none
      → IsValid P t
      → ((q : K) → view P t q ≢ some none)
      → t.total_entries + 1 < size_mod
      → Rests P (set_main m t)
  set_main-Rests m t there valid valued room = record {
    main_there = λ e. there (sym (address-put_table P m.main t) ∙ e);
    valid = rw (there-put_table P m.main t there) valid;
    valued = rw (there-put_table P m.main t there) valued;
    room = rw (there-put_table P m.main t there) room;
  }

  -- The power of a table never changes.
  created-power :
      (t : Table K V) (k : K) (h : A.Heap)
      → (table_get_or_create_entry P t k h).1.power_of_2_size ≡ t.power_of_2_size
  unfolding table_get_or_create_entry
  created-power t k h = ground arith

  constructed-power :
      (t : Table K V) (r : ℕ × ℕ × Bool) (x : V) (h : A.Heap)
      → (construct_at P t r x h).1.power_of_2_size ≡ t.power_of_2_size
  unfolding construct_at
  constructed-power t (i, j, created) x h = ground arith

  pub put_main-power :
      (t : Table K V) (k : K) (x : V) (h : A.Heap)
      → (put_main P t k x h).1.power_of_2_size ≡ t.power_of_2_size
  unfolding put_main
  put_main-power t k x h = elim (Option-cases (table_get_or_create_entry P t k h).0) [
    | inl e ↦ rw (e, put_main) (created-power t k h)
    | inr (r, e) ↦
        rw (e, put_main)
          (constructed-power (table_get_or_create_entry P t k h).1 r x
              (table_get_or_create_entry P t k h).2
            ∙ created-power t k h)
  ]

  pub del-power :
      (t : Table K V) (k : K) (h : A.Heap)
      → (Table.del P t k h).1.power_of_2_size ≡ t.power_of_2_size
  unfolding Table.del
  del-power t k h = ground arith

  -- The state, split from the rest of an operation.
  get-stable :
      (m : UnorderedMap K V) (k : K) (h : A.Heap)
      → m.state ≡ stable
      → Methods.get P m k h ≡ after_stable P m h none (Table.get P (table_of m.main) k)
  unfolding Methods.get
  get-stable m k h e =
      ap
        (λ s. elim s [
          | error ↦ (none, m, h)
          | stable ↦ after_stable P m h none (Table.get P (table_of m.main) k)
          | transfer ↦ after_transfer P m h none (get_either P m k)
        ])
        e

  get-transfer :
      (m : UnorderedMap K V) (k : K) (h : A.Heap)
      → m.state ≡ transfer
      → Methods.get P m k h ≡ after_transfer P m h none (get_either P m k)
  unfolding Methods.get
  get-transfer m k h e =
      ap
        (λ s. elim s [
          | error ↦ (none, m, h)
          | stable ↦ after_stable P m h none (Table.get P (table_of m.main) k)
          | transfer ↦ after_transfer P m h none (get_either P m k)
        ])
        e

  pub get-error :
      (m : UnorderedMap K V) (k : K) (h : A.Heap) → m.state ≡ error → (Methods.get P m k h).1 ≡ m
  unfolding Methods.get
  get-error m k h e =
      ap
        (λ (s : MapState).
          (elim s as (λ _. Option V × UnorderedMap K V × A.Heap) [
            | error ↦ (none, m, h)
            | stable ↦ after_stable P m h none (Table.get P (table_of m.main) k)
            | transfer ↦ after_transfer P m h none (get_either P m k)
          ]).1)
        e

  -- `get` of a map that stands for `f` returns the value of the key, or nothing in a map that is in
  -- its error state then; the map stands for the same function afterwards.
  pub get-Settled :
      (m : UnorderedMap K V) (f : K → Option V) (k : K) (h : A.Heap)
      → Holds P m f
      → Small m
      → m.state ≢ error
      → Settled P f none (f k) (Methods.get P m k h)
  get-Settled m f k h (resting e rests reads) small fine =
      rw (get-stable m k h e, reads k)
        (after_stable-Settled P m f h none (f k) e rests reads small.power)
  get-Settled m f k h (moving e inv reads) small fine =
      rw (get-transfer m k h e, reads k) (after_transfer-Settled P m f h none (f k) e inv reads)
  get-Settled m f k h (broken e) small fine = absurd (fine e)

  -- `put` and `del` with the state as an argument.
  unfoldable pub put_at :
      UnorderedMap K V → K → V → A.Heap → MapState → Bool × UnorderedMap K V × A.Heap
  put_at m k x h error = (false, m, h)
  put_at m k x h stable =
      let (done, t, h') = put_main P (table_of m.main) k x h in
      after_stable P (set_main m t) h' false done
  put_at m k x h transfer =
      let (done, sec, main, h') = put_secondary P (table_of m.secondary) (table_of m.main) k x h in
      after_transfer P (set_main (set_secondary m sec) main) h' false done

  unfoldable pub del_at :
      UnorderedMap K V → K → A.Heap → MapState → Bool × UnorderedMap K V × A.Heap
  del_at m k h error = (false, m, h)
  del_at m k h stable =
      let (removed, t, h') = Table.del P (table_of m.main) k h in
      after_stable P (set_main m t) h' false removed
  del_at m k h transfer =
      let (removed, m', h') = del_either P m k h in after_transfer P m' h' false removed

  -- `put` and `del` by the state of the map.
  pub put-put_at :
      (m : UnorderedMap K V) (k : K) (x : V) (h : A.Heap) (s : MapState)
      → m.state ≡ s
      → put P m k x h ≡ put_at m k x h s
  unfolding put put_at
  put-put_at m k x h s e = by_state m.state ∙ ap (put_at m k x h) e
    where
      by_state :
          (s : MapState)
          → elim s [
            | error ↦ (false, m, h)
            | stable ↦ put_at m k x h stable
            | transfer ↦ put_at m k x h transfer
          ]
            ≡ put_at m k x h s
      by_state error = refl
      by_state stable = refl
      by_state transfer = refl

  pub del-del_at :
      (m : UnorderedMap K V) (k : K) (h : A.Heap) (s : MapState)
      → m.state ≡ s
      → del P m k h ≡ del_at m k h s
  unfolding del del_at
  del-del_at m k h s e = by_state m.state ∙ ap (del_at m k h) e
    where
      by_state :
          (s : MapState)
          → elim s [
            | error ↦ (false, m, h)
            | stable ↦ del_at m k h stable
            | transfer ↦ del_at m k h transfer
          ]
            ≡ del_at m k h s
      by_state error = refl
      by_state stable = refl
      by_state transfer = refl

  module _ (m : UnorderedMap K V) (f : K → Option V) (k : K) (small : Small m) where
    pub reads_main :
        (t : Table K V)
        → address m.main ≢ none
        → (o : Option V) → ((q : K) → Table.get P t q ≡ updated P f k o q)
        → (q : K) → Table.get P (table_of (put_table m.main t)) q ≡ updated P f k o q
    reads_main t there o reads q =
        ap (λ u. Table.get P u q) (there-put_table P m.main t there) ∙ reads q

    pub same_power :
        (t : Table K V)
        → address m.main ≢ none
        → t.power_of_2_size ≡ (table_of m.main).power_of_2_size
        → (table_of (put_table m.main t)).power_of_2_size < 31
    same_power t there e = rw (there-put_table P m.main t there, e) small.power
