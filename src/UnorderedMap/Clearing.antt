-- ===== src/UnorderedMap/Clearing.antt =====
-- `delete_all_keys`: no key is left.
use real_time_library.Base.{
  ℕ, zero, suc, ◌≡◌, refl, sym, ap, ap₂, ◌∙◌, ◌≢◌, Bool, true, Option, none, some, List, [], ◌∷◌,
  arith, length, get_or,
}
use real_time_library.Alloc.{Alloc}
use real_time_library.Vector.{new, clear}
use real_time_library.Bucket.{Params, Bucket, delete_all_entries}
use real_time_library.Bucket.Search.{value, find}
use real_time_library.Table
use real_time_library.Table.{
  Table, bucket_at, each_bucket, table_delete_all_entries, get_bucket_index,
}
use real_time_library.Table.View.{IsValid, view, get-view, entries-eq-zero}
use real_time_library.UnorderedMap.{
  UnorderedMap, MapState, error, stable, transfer, table_of, address, put_table, set_main,
  set_secondary, end_resize, is_transfer_complete,
}
use real_time_library.UnorderedMap.Methods.{
  get_either, delete_all_keys, finalize, complete, transfer_all,
}
use real_time_library.UnorderedMap.Pair.{Pair, lookup, lookup-view}
use real_time_library.UnorderedMap.Keep.{there-put_table, address-put_table, get_either-lookup}
use real_time_library.UnorderedMap.Finish.{Ready, finish, complete-finish, finalize-transfer}
use real_time_library.UnorderedMap.Holds.{Holds, resting, moving, broken, end_resize-Rests}
use real_time_library.UnorderedMap.Calls.{set_main-Rests}

module _ {A : Alloc} {K V : Type 0} (P : Params A K V) where
  cleared-nothing : (b : Bucket K V) (h : A.Heap) → (delete_all_entries P b h).0.items ≡ []
  unfolding delete_all_entries clear
  cleared-nothing b h = refl

  each_bucket-length :
      (bs : List (Bucket K V)) (h : A.Heap)
      → length (each_bucket P (delete_all_entries P) bs h).0 ≡ length bs
  unfolding each_bucket
  each_bucket-length [] h = refl
  each_bucket-length (b ∷ bs) h = ap suc (each_bucket-length bs _)

  each_bucket-nothing :
      (bs : List (Bucket K V)) (h : A.Heap) (i : ℕ)
      → (get_or (each_bucket P (delete_all_entries P) bs h).0 i new).items ≡ []
  unfolding each_bucket
  each_bucket-nothing [] h zero = refl
  each_bucket-nothing [] h (suc i) = refl
  each_bucket-nothing (b ∷ bs) h zero = cleared-nothing b h
  each_bucket-nothing (b ∷ bs) h (suc i) = each_bucket-nothing bs _ i

  -- A valid table without entries.
  pub record Nothing (t : Table K V) : Type 0 where
    pub valid : IsValid P t
    pub empty : (q : K) → view P t q ≡ none
    pub no_entries : t.total_entries ≡ 0
    pub no_items : (i : ℕ) → (bucket_at t i).items ≡ []

  -- `table_delete_all_entries` leaves a valid table that has its buckets and no entries.
  pub table_delete_all_entries-Nothing :
      {t : Table K V} (h : A.Heap) → IsValid P t → Nothing (table_delete_all_entries P t h).0
  unfolding table_delete_all_entries
  table_delete_all_entries-Nothing {t} h valid = record {
    valid = record {
      width = valid.width ∙ sym (each_bucket-length t.buckets.items h);
      nonempty = valid.nonempty;
      counted = sym (entries-eq-zero _ (λ j _. ap length (nothing j)));
      placed = λ q i. rw (nothing i) (omega arith, λ _. refl);
    };
    empty = λ q. ap (find P q) (nothing (get_bucket_index P (table_delete_all_entries P t h).0 q));
    no_entries = refl;
    no_items = nothing;
  }
    where
      nothing :
          (i : ℕ)
          → (get_or (each_bucket P (delete_all_entries P) t.buckets.items h).0 i new).items ≡ []
      nothing = each_bucket-nothing t.buckets.items h

  resting-Holds :
      (m : UnorderedMap K V) (t : Table K V)
      → m.state ≡ stable
      → address m.main ≢ none
      → Nothing t
      → Holds P (set_main m t) (λ _. none)
  resting-Holds m t e there nothing =
      resting e
        (set_main-Rests P m t there nothing.valid (λ q f. cc (sym (nothing.empty q) ∙ f))
          (omega (arith, nothing.no_entries)))
        (λ q.
          ap (λ u. Table.get P u q) (there-put_table P m.main t there)
          ∙ (get-view P q nothing.valid ∙ ap (value P) (nothing.empty q)))

  moving-Ready :
      (m : UnorderedMap K V) (t s : Table K V)
      → address m.main ≢ none
      → address m.secondary ≢ none
      → Nothing t
      → Nothing s
      → Ready P (set_secondary (set_main m t) s)
        × ((q : K) → get_either P (set_secondary (set_main m t) s) q ≡ none)
        × ((table_of (put_table m.main t)).total_entries ≡ 0)
  moving-Ready m t s main_there secondary_there no_t no_s =
      let is_main = there-put_table P m.main t main_there in
      let is_sec = there-put_table P m.secondary s secondary_there in
      let pair : Pair P t s = record {
        main_valid = no_t.valid;
        sec_valid = no_s.valid;
        valued = λ q f. cc (sym (no_s.empty q) ∙ f);
        covered = λ q f. cc (sym (no_t.empty q) ∙ f);
        apart = λ q there. absurd (there (no_s.empty q));
        room = omega (arith, no_t.no_entries, no_s.no_entries);
      } in
      (
        record {
          in_transfer = record {
            main_there = λ e. main_there (sym (address-put_table P m.main t) ∙ e);
            secondary_there = λ e. secondary_there (sym (address-put_table P m.secondary s) ∙ e);
            pair = rw (is_main, is_sec) pair;
          };
          empty_below = λ j below. rw is_main (ap length (no_t.no_items j));
        },
        λ q.
            get_either-lookup P (set_secondary (set_main m t) s) q
            ∙ (ap₂ (λ t u. lookup P t u q) is_main is_sec
                ∙ (lookup-view P no_t.valid no_s.valid q ∙ rw (no_t.empty q, no_s.empty q) refl)),
        rw is_main no_t.no_entries,
      )

  -- With no entries in main, a complete transfer is only its end.
  complete-at_once :
      (n : ℕ) (m : UnorderedMap K V) (h : A.Heap)
      → (table_of m.main).total_entries ≡ 0
      → complete P (suc n) m h ≡ some (true, (end_resize P m h).0, (end_resize P m h).1)
  unfolding transfer_all is_transfer_complete finish
  complete-at_once n m h nothing =
      let run : transfer_all P (suc n) m h ≡ some (true, m, h) =
        rw (transfer_all, is_transfer_complete, nothing) refl in
      complete-finish P (suc n) m h ∙ ap (finish P) run

  -- The map and the heap that `finalize` has left, whatever its result.
  kept : Option (Bool × UnorderedMap K V × A.Heap) → Option (UnorderedMap K V × A.Heap)
  kept none = none
  kept (some (_, m', h')) = some (m', h')

  -- `delete_all_keys` by the state of the map.
  delete_at : ℕ → UnorderedMap K V → A.Heap → MapState → Option (UnorderedMap K V × A.Heap)
  delete_at fuel m h error = some (m, h)
  delete_at fuel m h stable =
      let (t, h') = table_delete_all_entries P (table_of m.main) h in some (set_main m t, h')
  delete_at fuel m h transfer =
      let (t, h') = table_delete_all_entries P (table_of m.main) h in
      let (s, h'') = table_delete_all_entries P (table_of m.secondary) h' in
      kept (finalize P fuel (set_secondary (set_main m t) s) h'')

  delete_all_keys-delete_at :
      (fuel : ℕ) (m : UnorderedMap K V) (h : A.Heap) (s : MapState)
      → m.state ≡ s
      → delete_all_keys P fuel m h ≡ delete_at fuel m h s
  unfolding delete_all_keys delete_at kept
  delete_all_keys-delete_at fuel m h s e = by_state m.state ∙ ap (delete_at fuel m h) e
    where
      same :
          (o : Option (Bool × UnorderedMap K V × A.Heap))
          → elim o [ none ↦ none | some (_, m', h') ↦ some (m', h') ] ≡ kept o
      same none = refl
      same (some (done, m', h')) = refl

      t : Table K V × A.Heap
      t = table_delete_all_entries P (table_of m.main) h

      u : Table K V × A.Heap
      u = table_delete_all_entries P (table_of m.secondary) t.1

      by_state :
          (s : MapState)
          → elim s [
            | error ↦ some (m, h)
            | stable ↦ some (set_main m t.0, t.1)
            | transfer ↦ elim (finalize P fuel (set_secondary (set_main m t.0) u.0) u.1) [
              | none ↦ none
              | some (_, m', h') ↦ some (m', h')
            ]
          ]
            ≡ delete_at fuel m h s
      by_state error = refl
      by_state stable = refl
      by_state transfer = same (finalize P fuel (set_secondary (set_main m t.0) u.0) u.1)

  -- `delete_all_keys` of a map that stands for a function and is not in its error state returns for
  -- every fuel but 0; the map is stable then and has no keys.
  pub delete_all_keys-Holds :
      (n : ℕ) (m : UnorderedMap K V) (f : K → Option V) (h : A.Heap)
      → Holds P m f
      → m.state ≢ error
      → (r : UnorderedMap K V × A.Heap) × (delete_all_keys P (suc n) m h ≡ some r)
        × (r.0.state ≡ stable)
        × Holds P r.0 (λ _. none)
  unfolding delete_at kept end_resize
  delete_all_keys-Holds n m f h (broken e) fine = absurd (fine e)
  delete_all_keys-Holds n m f h (resting e rests reads) fine = (
    _,
    delete_all_keys-delete_at (suc n) m h stable e,
    e,
    resting-Holds m _ e rests.main_there (table_delete_all_entries-Nothing h rests.valid),
  )
  delete_all_keys-Holds n m f h (moving e ready reads) fine =
      let (t, h') = table_delete_all_entries P (table_of m.main) h in
      let (s, h'') = table_delete_all_entries P (table_of m.secondary) h' in
      let inv = ready.in_transfer in
      let (ready', nothing, no_entries) =
        moving-Ready m t s inv.main_there inv.secondary_there
          (table_delete_all_entries-Nothing h inv.pair.main_valid)
          (table_delete_all_entries-Nothing h' inv.pair.sec_valid) in
      let m' = set_secondary (set_main m t) s in
      let (rests, same) = end_resize-Rests P m' h'' ready'.in_transfer no_entries in
      let run = finalize-transfer P (suc n) m' h'' e ∙ complete-at_once n m' h'' no_entries in
      (
        end_resize P m' h'',
        delete_all_keys-delete_at (suc n) m h transfer e ∙ ap kept run,
        refl,
        resting refl rests (λ q. same q ∙ nothing q),
      )
