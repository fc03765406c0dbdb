-- ===== src/UnorderedMap/Reserve.antt =====
-- `finalize` and `reserve` on a map that stands for a function.
use real_time_library.Base.{
  same_result, ℕ, zero, suc, ◌+◌, ◌≤◌, ◌<◌, ◌≡◌, refl, sym, ap, ◌∙◌, inl, inr, Bool, true, false,
  Option, none, some, arith, leb, ◌==◌, Bool-cases, Option-cases,
}
use mathlib.Core.Path.{subst}
use real_time_library.Alloc.{Alloc, size_mod}
use real_time_library.Primes.{get_prime_power_of_2}
use real_time_library.Bucket.{Params}
use real_time_library.Table
use real_time_library.Table.{Table}
use real_time_library.UnorderedMap.{
  UnorderedMap, MapState, error, stable, transfer, table_of, in_error, find_power, begin_resize,
  end_resize,
}
use real_time_library.UnorderedMap.Methods
use real_time_library.UnorderedMap.Methods.{get_either, complete, resize_to, reserve, finalize}
use real_time_library.UnorderedMap.Keep.{InTransfer}
use real_time_library.UnorderedMap.Finish.{Ready, transfer_all-Ends, finish, complete-finish}
use real_time_library.UnorderedMap.Begin.{Rests, begin_resize-Begins}
use real_time_library.UnorderedMap.Holds.{Holds, resting, moving, broken, end_resize-Rests}

find_power-bound :
    (left i number power : ℕ) → find_power left i number ≡ some power → power < i + left
unfolding find_power
find_power-bound zero i number power e = cc
find_power-bound (suc left) i number power e =
    elim (Bool-cases (leb number (get_prime_power_of_2 i))) [
      | inl enough ↦
          let same : i ≡ power = same_result (rw (enough, find_power) refl) e in omega (arith, same)
      | inr more ↦
          let found : find_power left (i + 1) number ≡ some power = rw (more, find_power) at e in
          omega (arith, find_power-bound left (i + 1) number power found)
    ]

module _ {A : Alloc} {K V : Type 0} (P : Params A K V) where
  -- What a call that moves all entries at once has made of a map that stands for `f`.
  pub record Completed (f : K → Option V) (o : Option (Bool × UnorderedMap K V × A.Heap))
      : Type 0 where
    pub result : Bool × UnorderedMap K V × A.Heap
    pub returns : o ≡ some result
    pub at_rest : result.0 ≡ true → (result.1.state ≡ stable) × Rests P result.1
    pub values : result.0 ≡ true → (q : K) → Table.get P (table_of result.1.main) q ≡ f q

  finish-Completed :
      (f : K → Option V) (done : Bool) (m' : UnorderedMap K V) (h' : A.Heap)
      → InTransfer P m'
      → (done ≡ true → (table_of m'.main).total_entries ≡ 0)
      → ((q : K) → get_either P m' q ≡ f q)
      → Completed f (finish P (some (done, m', h')))
  unfolding finish end_resize
  finish-Completed f false m' h' inv nothing reads = record {
    result = (false, m', h');
    returns = refl;
    at_rest = λ e. cc;
    values = λ e. cc;
  }
  finish-Completed f true m' h' inv nothing reads =
      let (rests, kept) = end_resize-Rests P m' h' inv (nothing refl) in
      record {
        result = (true, (end_resize P m' h').0, (end_resize P m' h').1);
        returns = refl;
        at_rest = λ _. (refl, rests);
        values = λ _ q. kept q ∙ reads q;
      }

  pub complete-Completed :
      (fuel : ℕ) (m : UnorderedMap K V) (f : K → Option V) (h : A.Heap)
      → Ready P m
      → (table_of m.main).total_entries < fuel
      → ((q : K) → get_either P m q ≡ f q)
      → Completed f (complete P fuel m h)
  complete-Completed fuel m f h ready enough reads =
      let ((done, m', h'), run, ends) = transfer_all-Ends P fuel m h ready enough in
      subst (λ o. Completed f o) (sym (complete-finish P fuel m h ∙ ap (finish P) run))
        (finish-Completed f done m' h' ends.in_transfer ends.nothing_left
          (λ q. ends.reads q ∙ reads q))

  -- `resize_to` of a map at rest, to a power below 32.
  resize_to-Completed :
      (fuel power : ℕ) (m : UnorderedMap K V) (f : K → Option V) (h : A.Heap)
      → m.state ≡ stable
      → Rests P m
      → ((q : K) → Table.get P (table_of m.main) q ≡ f q)
      → size_mod ≤ fuel
      → power < 32
      → Completed f (resize_to P fuel power m h)
  unfolding resize_to
  resize_to-Completed fuel power m f h e rests reads enough small =
      elim (Bool-cases (leb power (table_of m.main).power_of_2_size)) [
        | inl already ↦
            let same : Completed f (some (true, m, h)) = record {
              result = (true, m, h);
              returns = refl;
              at_rest = λ _. (e, rests);
              values = λ _. reads;
            } in
            rw (already, resize_to) same
        | inr wider ↦
            let begins = begin_resize-Begins P m rests power h small in
            elim (Bool-cases (begin_resize P m power h).0) [
              | inl begun ↦
                  let inv = begins.in_transfer begun in
                  let ready : Ready P (begin_resize P m power h).1 = record {
                    in_transfer = inv;
                    empty_below = λ j k. absurd (omega (arith, begins.starts begun));
                  } in
                  rw (wider, begun, resize_to)
                    (complete-Completed fuel (begin_resize P m power h).1 f _ ready
                      (omega (arith, inv.pair.room, enough)) (λ q. begins.reads begun q ∙ reads q))
              | inr refused ↦
                  let stopped : Completed f (
                      some (
                        false,
                        in_error (begin_resize P m power h).1,
                        (begin_resize P m power h).2,
                      )) =
                    record {
                      result = (
                        false,
                        in_error (begin_resize P m power h).1,
                        (begin_resize P m power h).2,
                      );
                      returns = refl;
                      at_rest = λ e. cc;
                      values = λ e. cc;
                    } in
                  rw (wider, refused, resize_to) stopped
            ]
      ]

  refused-Completed :
      (f : K → Option V) (m : UnorderedMap K V) (h : A.Heap) → Completed f (some (false, m, h))
  refused-Completed f m h = record {
    result = (false, m, h);
    returns = refl;
    at_rest = λ e. cc;
    values = λ e. cc;
  }

  -- What `reserve` does in the state of transfer after its first transfer.
  continue :
      ℕ → ℕ → Option (Bool × UnorderedMap K V × A.Heap) → Option (Bool × UnorderedMap K V × A.Heap)
  continue fuel power none = none
  continue fuel power (some (true, m', h')) = resize_to P fuel power m' h'
  continue fuel power (some (false, m', h')) = some (false, m', h')

  continue-Completed :
      (fuel power : ℕ) (f : K → Option V) (o : Option (Bool × UnorderedMap K V × A.Heap))
      → Completed f o
      → size_mod ≤ fuel
      → power < 32
      → Completed f (continue fuel power o)
  unfolding continue
  continue-Completed fuel power f o first enough small =
      subst (λ o. Completed f (continue fuel power o)) (sym first.returns)
        (go first.result.0 first.result.1 first.result.2 first.at_rest first.values)
    where
      go :
          (done : Bool) (m' : UnorderedMap K V) (h' : A.Heap)
          → (done ≡ true → (m'.state ≡ stable) × Rests P m')
          → (done ≡ true → (q : K) → Table.get P (table_of m'.main) q ≡ f q)
          → Completed f (continue fuel power (some (done, m', h')))
      go true m' h' rests values =
          resize_to-Completed fuel power m' f h' (rests refl).0 (rests refl).1 (values refl) enough
            small
      go false m' h' rests values = refused-Completed f m' h'

  -- `reserve` by the state of the map, for a power that was found.
  reserve_at :
      ℕ → ℕ → UnorderedMap K V → A.Heap → MapState → Option (Bool × UnorderedMap K V × A.Heap)
  reserve_at fuel power m h error = some (false, m, h)
  reserve_at fuel power m h stable = resize_to P fuel power m h
  reserve_at fuel power m h transfer = continue fuel power (complete P fuel m h)

  reserve-reserve_at :
      (fuel power number : ℕ) (m : UnorderedMap K V) (h : A.Heap) (s : MapState)
      → (number == 0) ≡ false
      → find_power 32 0 number ≡ some power
      → m.state ≡ s
      → Methods.reserve P fuel m number h ≡ reserve_at fuel power m h s
  unfolding Methods.reserve reserve_at continue
  reserve-reserve_at fuel power number m h s some_buckets found e =
      rw (some_buckets, found, Methods.reserve)
        (by_state m.state ∙ ap (reserve_at fuel power m h) e)
    where
      continued :
          (o : Option (Bool × UnorderedMap K V × A.Heap))
          → elim o [
            | none ↦ none
            | some (true, m', h') ↦ resize_to P fuel power m' h'
            | some (false, m', h') ↦ some (false, m', h')
          ]
            ≡ continue fuel power o
      continued none = refl
      continued (some (true, m', h')) = refl
      continued (some (false, m', h')) = refl

      by_state :
          (s : MapState)
          → elim s [
            | error ↦ some (false, m, h)
            | stable ↦ resize_to P fuel power m h
            | transfer ↦ elim (complete P fuel m h) [
              | none ↦ none
              | some (true, m', h') ↦ resize_to P fuel power m' h'
              | some (false, m', h') ↦ some (false, m', h')
            ]
          ]
            ≡ reserve_at fuel power m h s
      by_state error = refl
      by_state stable = refl
      by_state transfer = continued (complete P fuel m h)

  -- `reserve` of a map that stands for `f` returns for every fuel of at least 2 ^ 64. Where it returns
  -- true, the map is stable and its table has the values of `f`.
  pub reserve-Completed :
      (fuel number : ℕ) (m : UnorderedMap K V) (f : K → Option V) (h : A.Heap)
      → Holds P m f
      → size_mod ≤ fuel
      → Completed f (Methods.reserve P fuel m number h)
  unfolding Methods.reserve reserve_at
  reserve-Completed fuel number m f h holds enough = elim (Bool-cases (number == 0)) [
    | inl nothing ↦ rw (nothing, Methods.reserve) (refused-Completed f m h)
    | inr some_buckets ↦ elim (Option-cases (find_power 32 0 number)) [
      | inl none_found ↦ rw (some_buckets, none_found, Methods.reserve) (refused-Completed f m h)
      | inr (power, found) ↦
          let small = find_power-bound 32 0 number power found in
          by_state power some_buckets found small holds
    ]
  ]
    where
      by_state :
          (power : ℕ)
          → (number == 0) ≡ false
          → find_power 32 0 number ≡ some power
          → power < 32
          → Holds P m f
          → Completed f (Methods.reserve P fuel m number h)
      by_state power some_buckets found small (resting e rests reads) =
          subst (λ o. Completed f o)
            (sym (reserve-reserve_at fuel power number m h stable some_buckets found e))
            (resize_to-Completed fuel power m f h e rests reads enough small)
      by_state power some_buckets found small (moving e ready reads) =
          subst (λ o. Completed f o)
            (sym (reserve-reserve_at fuel power number m h transfer some_buckets found e))
            (continue-Completed fuel power f (complete P fuel m h)
              (complete-Completed fuel m f h ready
                (omega (arith, ready.in_transfer.pair.room, enough)) reads)
              enough small)
      by_state power some_buckets found small (broken e) =
          subst (λ o. Completed f o)
            (sym (reserve-reserve_at fuel power number m h error some_buckets found e))
            (refused-Completed f m h)

  finalize_at : ℕ → UnorderedMap K V → A.Heap → MapState → Option (Bool × UnorderedMap K V × A.Heap)
  finalize_at fuel m h error = some (false, m, h)
  finalize_at fuel m h stable = some (true, m, h)
  finalize_at fuel m h transfer = complete P fuel m h

  finalize-finalize_at :
      (fuel : ℕ) (m : UnorderedMap K V) (h : A.Heap) (s : MapState)
      → m.state ≡ s
      → finalize P fuel m h ≡ finalize_at fuel m h s
  unfolding finalize finalize_at
  finalize-finalize_at fuel m h s e = by_state m.state ∙ ap (finalize_at fuel m h) e
    where
      by_state :
          (s : MapState)
          → elim s [
            | error ↦ some (false, m, h)
            | stable ↦ some (true, m, h)
            | transfer ↦ complete P fuel m h
          ]
            ≡ finalize_at fuel m h s
      by_state error = refl
      by_state stable = refl
      by_state transfer = refl

  pub finalize-Completed :
      (fuel : ℕ) (m : UnorderedMap K V) (f : K → Option V) (h : A.Heap)
      → Holds P m f
      → (table_of m.main).total_entries < fuel
      → Completed f (finalize P fuel m h)
  unfolding finalize_at
  finalize-Completed fuel m f h (resting e rests reads) enough =
      subst (λ o. Completed f o) (sym (finalize-finalize_at fuel m h stable e))
        (record {
          result = (true, m, h);
          returns = refl;
          at_rest = λ _. (e, rests);
          values = λ _. reads;
        })
  finalize-Completed fuel m f h (moving e ready reads) enough =
      subst (λ o. Completed f o) (sym (finalize-finalize_at fuel m h transfer e))
        (complete-Completed fuel m f h ready enough reads)
  finalize-Completed fuel m f h (broken e) enough =
      subst (λ o. Completed f o) (sym (finalize-finalize_at fuel m h error e))
        (refused-Completed f m h)

  -- A map that such a call has returned true on stands for `f`.
  pub Completed-Holds :
      (f : K → Option V) (o : Option (Bool × UnorderedMap K V × A.Heap)) (m' : UnorderedMap K V)
      (h' : A.Heap)
      → Completed f o
      → o ≡ some (true, m', h')
      → Holds P m' f
  Completed-Holds f o m' h' completed e =
      let same : completed.result ≡ (true, m', h') = same_result completed.returns e in
      let done : completed.result.0 ≡ true = ap (λ r. r.0) same in
      let (at_stable, rests) = completed.at_rest done in
      subst (λ u. Holds P u f) (ap (λ r. r.1) same)
        (resting at_stable rests (completed.values done))
