-- ===== src/Lru/Public.antt =====
-- The cache as a client calls it, by what its map answers.
use mathlib.Core.Path.{subst}
use real_time_library.Base.{
  same_result, ℕ, zero, suc, ◌+◌, ◌<◌, ◌≡◌, refl, sym, ap, ◌∙◌, ◌≢◌, true, false, Option, none,
  some, List, [], ◌∷◌, arith, length, get_elem?, drop_last, length-drop_last,
}
use real_time_library.Alloc.{Alloc, size_mod}
use real_time_library.Bucket.{Params}
use real_time_library.ObjectPool.{Class}
use real_time_library.ObjectPool
use real_time_library.UnorderedMap.Methods
use real_time_library.Lru.{
  Lru, touch, get, put, insert, place, give_back, pop_back, pop_all, is_null,
}
use real_time_library.Lru.Nodes.{Node, Chain, store, push_front, unlink_back, assign}
use real_time_library.Lru.Nodes.Linked.{remove_at, is_there-some, modify-some, entry_in}
use real_time_library.Lru.Recency.{hit, evict, run, Holds, get_elem?-contents}
use real_time_library.Lru.Recency.Uses.{
  add-Holds, take_node-Holds, store-Holds, hit-Holds, update-Holds, evict-Holds,
}

module _ {A : Alloc} {K T : Type 0} (P : Params A K (Option ℕ)) (C : Class A) where
  touch-eq-run : (c : Chain K T) (p : ℕ) → touch P C c (some p) ≡ run (hit p) c
  unfolding touch run
  touch-eq-run c p = refl

  -- Where the map finds the node of a key, `get` returns the value of that node's entry, which is the
  -- first of all then; all other entries keep their order and what they hold. Where the map finds
  -- nothing, `get` returns nothing, and no entry changes its place.
  pub get-Holds :
      (l : Lru K T) (k : K) (h : A.Heap) (order : List ℕ) (xs : List (Option (K × T))) (i p : ℕ)
      (key : K) (x : T)
      → Holds l.chain order xs
      → get_elem? order i ≡ some p
      → get_elem? xs i ≡ some (some (key, x))
      → let (found, map, h') = Methods.get P l.map k h in
        (found ≡ some (some p)
          → (c : Chain K T) × (get P C l k h ≡ some (some x, record l { map = map; chain = c }, h'))
            × Holds c (p ∷ remove_at i order) (some (key, x) ∷ remove_at i xs))
        × (found ≡ none → get P C l k h ≡ some (none, record l { map = map }, h'))
  unfolding get
  get-Holds l k h order xs i p key x held at_p at_e =
      let (n, here) = is_there-some (l.chain.nodes p) (held.linked.there i p at_p) in
      let (c, done, held') = hit-Holds l.chain order i p (some (key, x)) xs held at_p at_e in
      let touched : touch P C l.chain (some p) ≡ some c = touch-eq-run l.chain p ∙ done in
      let both : some (entry_in (l.chain.nodes p)) ≡ some (some (key, x)) =
        sym (get_elem?-contents l.chain order i p at_p)
        ∙ (ap (λ o. get_elem? o i) held.entries ∙ at_e) in
      let entry : some (n.key, n.val) ≡ some (key, x) =
        ap entry_in (sym here) ∙ same_result refl both in
      let value : n.val ≡ x = ap (λ e. e.1) (same_result refl entry) in
      (λ found. (c, rw (get, found, here, touched, value), held'), λ absent. rw (get, absent))

  -- `pop_back` does to the chain what `evict` does.
  pop_back-chain :
      (l : Lru K T) (h : A.Heap) (c : Chain K T) (o : Option (Option ℕ × Chain K T))
      → unlink_back l.chain ≡ o
      → run evict l.chain ≡ some c
      → (l' : Lru K T) × (h' : A.Heap) × (pop_back P C l h ≡ some (l', h'))
        × (l'.chain ≡ c)
        × (l'.map ≡ l.map)
  unfolding pop_back give_back run
  pop_back-chain l h c none unlinked done =
      let fault : run evict l.chain ≡ none = rw (run, unlinked) in absurd (cc (sym done ∙ fault))
  pop_back-chain l h c (some (none, c')) unlinked done =
      let result : run evict l.chain ≡ some c' = rw (run, unlinked) in
      (record l { chain = c' }, h, rw (pop_back, unlinked), same_result result done, refl)
  pop_back-chain l h c (some (some p, c')) unlinked done =
      let result : run evict l.chain ≡ some (store c' p none) = rw (run, unlinked) in
      let (pool, h') = ObjectPool.put C l.pool (some p) h in
      (
        record l { chain = store c' p none; pool = pool },
        h',
        rw (pop_back, unlinked, give_back),
        same_result result done,
        refl,
      )

  -- `while (m_head) pop_back()` ends with as much fuel as there are nodes and one more, with no node
  -- left and no fault.
  pub pop_all-ends :
      (fuel : ℕ) (l : Lru K T) (h : A.Heap) (order : List ℕ) (xs : List (Option (K × T)))
      → Holds l.chain order xs
      → length order < fuel
      → (l' : Lru K T) × (h' : A.Heap) × (pop_all P C fuel l h ≡ some (l', h'))
        × Holds l'.chain [] []
        × (l'.map ≡ l.map)
  unfolding pop_all
  pop_all-ends zero l h order xs held room = absurd (omega arith)
  pop_all-ends (suc fuel) l h [] xs held room =
      let ended : is_null l.chain.head ≡ true = rw held.linked.head in
      (l, h, rw (pop_all, ended), record { linked = held.linked; entries = refl }, refl)
  pop_all-ends (suc fuel) l h (p ∷ order) xs held room =
      let (c, done, held') = evict-Holds l.chain (p ∷ order) xs held in
      let (l₁, h₁, popped, same, map) = pop_back-chain l h c (unlink_back l.chain) refl done in
      let held₁ : Holds l₁.chain (drop_last (p ∷ order)) (drop_last xs) =
        subst (λ x. Holds x (drop_last (p ∷ order)) (drop_last xs)) (sym same) held' in
      let (l₂, h₂, rest, held₂, map') =
        pop_all-ends fuel l₁ h₁ (drop_last (p ∷ order)) (drop_last xs) held₁
          (omega (arith, length-drop_last (p ∷ order))) in
      let more : is_null l.chain.head ≡ false = rw held.linked.head in
      (l₂, h₂, rw (pop_all, more, popped, rest), held₂, map' ∙ map)

  -- Where the map finds the node of a key, `put` returns true; the node's entry has the key and the
  -- new value, and is the first of all then. All other entries keep their order and what they hold.
  pub put-Holds :
      (l : Lru K T) (k : K) (x : T) (h : A.Heap) (order : List ℕ) (xs : List (Option (K × T)))
      (i p : ℕ)
      → Holds l.chain order xs
      → get_elem? order i ≡ some p
      → (Methods.get P l.map k h).0 ≡ some (some p)
      → let (_, map, h') = Methods.get P l.map k h in
        (c : Chain K T) × (put P C l k x h ≡ some (true, record l { map = map; chain = c }, h'))
        × Holds c (p ∷ remove_at i order) (some (k, x) ∷ remove_at i xs)
  unfolding put run
  put-Holds l k x h order xs i p held at_p found =
      let (c₁, taken, held₁, same, there, _, _) = take_node-Holds l.chain order i p xs held at_p in
      let (n, here) = is_there-some (c₁.nodes p) there in
      let (c, done, held') = update-Holds l.chain order i p k x xs held at_p in
      let assigned : assign c₁ p k x ≡ some (store c₁ p (some (record n { key = k; val = x }))) =
        modify-some c₁ (some p) p n (λ n. record n { key = k; val = x }) refl here in
      let pushed : push_front (store c₁ p (some (record n { key = k; val = x }))) (some p)
          ≡ some c =
        sym (rw (run, taken, assigned)) ∙ done in
      (c, rw (put, found, taken, assigned, pushed), held')

  insert-place :
      (l : Lru K T) (k : K) (x : T) (h : A.Heap) (q : ℕ)
      → (ObjectPool.get C l.pool h).0 ≡ some q
      → let (_, pool, h₁) = ObjectPool.get C l.pool h in
        insert P C l k x h ≡ place P C (record l { pool = pool }) (some q) k x h₁
  unfolding insert
  insert-place l k x h q got =
      let (_, pool, h₁) = ObjectPool.get C l.pool h in
      ap (λ o. place P C (record l { pool = pool }) o k x h₁) got

  place-Holds :
      (l : Lru K T) (k : K) (x : T) (h : A.Heap) (order : List ℕ) (xs : List (Option (K × T)))
      (q : ℕ)
      → Holds l.chain order xs
      → ((i : ℕ) → get_elem? order i ≢ some q)
      → length order + 1 < size_mod
      → let (taken, map, h') = Methods.put P l.map k (some q) h in
        (taken ≡ true
          → (c : Chain K T) × (place P C l (some q) k x h
              ≡ some (true, record l { chain = c; map = map }, h'))
            × Holds c (q ∷ order) (some (k, x) ∷ xs))
        × (taken ≡ false
            → (l' : Lru K T) × (h'' : A.Heap) × (place P C l (some q) k x h ≡ some (false, l', h''))
              × Holds l'.chain order xs)
  unfolding place run give_back
  place-Holds l k x h order xs q held other room =
      let (c, done, held') = add-Holds l.chain order q k x xs held other room in
      let n : Node K T = record { key = k; val = x; prev = none; next = none } in
      let pushed : push_front (store l.chain q (some n)) (some q) ≡ some c = done in
      let (_, map, h') = Methods.put P l.map k (some q) h in
      let (pool, h'') = ObjectPool.put C l.pool (some q) h' in
      (
        λ taken. (c, rw (place, taken, pushed), held'),
        λ refused. (
          record l { chain = store (store l.chain q (some n)) q none; pool = pool; map = map },
          h'',
          rw (place, refused, give_back),
          store-Holds (store l.chain q (some n)) order xs q none
              (store-Holds l.chain order xs q (some n) held other) other,
        ),
      )

  -- A key that is not in the cache, with a node from the pool that is not in the chain. Where the map
  -- takes the key, `put` returns true, and its entry is the first of all. Where the map does not take
  -- it, `put` returns false, the node goes back to the pool, and the entries are as before.
  pub insert-Holds :
      (l : Lru K T) (k : K) (x : T) (h : A.Heap) (order : List ℕ) (xs : List (Option (K × T)))
      (q : ℕ)
      → Holds l.chain order xs
      → (ObjectPool.get C l.pool h).0 ≡ some q
      → ((i : ℕ) → get_elem? order i ≢ some q)
      → length order + 1 < size_mod
      → let (_, pool, h₁) = ObjectPool.get C l.pool h in
        let (taken, map, h₂) = Methods.put P l.map k (some q) h₁ in
        (taken ≡ true
          → (c : Chain K T) × (insert P C l k x h
              ≡ some (true, record l { chain = c; pool = pool; map = map }, h₂))
            × Holds c (q ∷ order) (some (k, x) ∷ xs))
        × (taken ≡ false
            → (l' : Lru K T) × (h' : A.Heap) × (insert P C l k x h ≡ some (false, l', h'))
              × Holds l'.chain order xs)
  insert-Holds l k x h order xs q held got other room =
      let (_, pool, h₁) = ObjectPool.get C l.pool h in
      let (taken, refused) =
        place-Holds (record l { pool = pool }) k x h₁ order xs q held other room in
      let begun = insert-place l k x h q got in
      (
        λ ok. let (c, done, held') = taken ok in (c, begun ∙ done, held'),
        λ failed. let (l', h', done, held') = refused failed in (l', h', begun ∙ done, held'),
      )
