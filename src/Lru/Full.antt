-- ===== src/Lru/Full.antt =====
-- `put` of a new key into a cache that is full: the map, the list of nodes and the pool together.
use mathlib.Core.Path.{subst}
use real_time_library.Base.{same_result}
use real_time_library.Base.{
  ℕ, ◌+◌, ◌<◌, ◌≡◌, sym, ap, ◌∙◌, inl, inr, true, false, Option, none, some, List, [], ◌∷◌, arith,
  ◌==◌, length, drop_last, get_last?, eqb_refl, Bool-cases, length-drop_last,
}
use real_time_library.Alloc.{Alloc, size_mod}
use real_time_library.Vector.{push_back}
use real_time_library.Bucket.{Params}
use real_time_library.ObjectPool
use real_time_library.ObjectPool.{Class, pointer}
use real_time_library.ObjectPool.Laws.{get-put}
use real_time_library.UnorderedMap.Methods
use real_time_library.UnorderedMap.Methods.{del}
use real_time_library.Lru.{Lru, put, insert, give_back, pop_back, evict_oldest}
use real_time_library.Lru.Nodes.{Node, Chain, store, unlink_back}
use real_time_library.Lru.Nodes.Back.{unlink_back-Linked}
use real_time_library.Lru.Recency.{evict, run, Holds}
use real_time_library.Lru.Recency.Uses.{evict-Holds, last_elsewhere}
use real_time_library.Lru.Public.{insert-Holds}

eq→eqb : (a b : ℕ) → a ≡ b → (a == b) ≡ true
eq→eqb a b e = rw e (eqb_refl b)

room_left :
    (order : List ℕ) (p : ℕ)
    → get_last? order ≡ some p
    → length order < size_mod
    → length (drop_last order) + 1 < size_mod
room_left [] p last small = cc
room_left (x ∷ order) p last small = omega (arith, length-drop_last (x ∷ order))

module _ {A : Alloc} {K T : Type 0} (P : Params A K (Option ℕ)) (C : Class A) where
  -- The cache without its last node, which the pool has.
  abbrev dropped : Lru K T → Chain K T → ℕ → A.Heap → Lru K T
  dropped l c p h = record l { chain = c; pool = (ObjectPool.put C l.pool (some p) h).0 }

  pop_back-last :
      (l : Lru K T) (h : A.Heap) (order : List ℕ) (xs : List (Option (K × T))) (p : ℕ)
      → Holds l.chain order xs
      → get_last? order ≡ some p
      → (c : Chain K T) × (pop_back P C l h
          ≡ some (dropped l c p h, (ObjectPool.put C l.pool (some p) h).1))
        × Holds c (drop_last order) (drop_last xs)
  unfolding pop_back give_back run
  pop_back-last l h order xs p held last =
      let (c₁, unlinked, _, _) = unlink_back-Linked l.chain order held.linked in
      let gone : unlink_back l.chain ≡ some (some p, c₁) = unlinked ∙ ap (λ o. some (o, c₁)) last in
      let (c, done, held') = evict-Holds l.chain order xs held in
      let result : run evict l.chain ≡ some (store c₁ p none) = rw (run, gone) in
      (
        store c₁ p none,
        rw (pop_back, gone, give_back),
        subst (λ x. Holds x (drop_last order) (drop_last xs)) (sym (same_result result done)) held',
      )

  -- What `evict_oldest` starts with: the last node, by its address and its contents.
  evict_oldest-pop_back :
      (l : Lru K T) (h : A.Heap) (p : ℕ) (n : Node K T)
      → l.chain.tail ≡ some p
      → l.chain.nodes p ≡ some n
      → let (_, map, h') = del P l.map n.key h in
        evict_oldest P C l h ≡ pop_back P C (record l { map = map }) h'
  unfolding evict_oldest
  evict_oldest-pop_back l h p n at_tail here = ap step at_tail ∙ ap from_node here
    where
      from_node : Option (Node K T) → Option (Lru K T × A.Heap)
      from_node none = none
      from_node (some m) =
          let (_, map, h') = del P l.map m.key h in pop_back P C (record l { map = map }) h'

      step : Option ℕ → Option (Lru K T × A.Heap)
      step none = none
      step (some q) = from_node (l.chain.nodes q)

  put-run :
      (l : Lru K T) (k : K) (x : T) (h : A.Heap) {l' : Lru K T} {h' : A.Heap}
      → (Methods.get P l.map k h).0 ≡ none
      → l.chain.size ≡ l.capacity
      → evict_oldest P C
          (record l { map = (Methods.get P l.map k h).1 })
          (Methods.get P l.map k h).2
        ≡ some (l', h')
      → put P C l k x h ≡ insert P C l' k x h'
  unfolding put
  put-run l k x h absent full evicted =
      let at_capacity : (l.chain.size == l.capacity) ≡ true = eq→eqb l.chain.size l.capacity full in
      rw (put, absent, at_capacity, evicted)

  -- A new key for a cache that is full: `p` is the node of the last entry, and there is room for it
  -- in the pool. Then `put` has a result, which is what the map says to the new key, after the key of
  -- the last entry is gone from it. It evicts the last entry and uses its node again; where the map
  -- takes the key, the new entry is the first one, and all others but the evicted one keep their order
  -- and what they hold; where it does not, the last entry is gone all the same.
  pub put-evicts :
      (l : Lru K T) (k : K) (x : T) (h : A.Heap) (order : List ℕ) (xs : List (Option (K × T)))
      (p : ℕ) (n : Node K T)
      → Holds l.chain order xs
      → l.chain.size ≡ l.capacity
      → get_last? order ≡ some p
      → l.chain.nodes p ≡ some n
      → (Methods.get P l.map k h).0 ≡ none
      → (push_back
          (pointer C)
          l.pool.vector
          p
          (C.destroy p (del P (Methods.get P l.map k h).1 n.key (Methods.get P l.map k h).2).2)).0
        ≡ true
      → let (_, map₁, h₁) = Methods.get P l.map k h in
        let (_, map₂, h₂) = del P map₁ n.key h₁ in
        let (pool, h₃) = ObjectPool.put C l.pool (some p) h₂ in
        let (_, _, h₄) = ObjectPool.get C pool h₃ in
        let taken = (Methods.put P map₂ k (some p) h₄).0 in
        (l' : Lru K T) × (h' : A.Heap) × (put P C l k x h ≡ some (taken, l', h'))
        × (taken ≡ true → Holds l'.chain (p ∷ drop_last order) (some (k, x) ∷ drop_last xs))
        × (taken ≡ false → Holds l'.chain (drop_last order) (drop_last xs))
  put-evicts l k x h order xs p n held full last here absent room =
      let (_, map₁, h₁) = Methods.get P l.map k h in
      let (_, map₂, h₂) = del P map₁ n.key h₁ in
      let at_tail : l.chain.tail ≡ some p = held.linked.tail ∙ last in
      let l₁ : Lru K T = record l { map = map₁ } in
      let l₂ : Lru K T = record l { map = map₂ } in
      let (c, popped, held₂) = pop_back-last l₂ h₂ order xs p held last in
      let evicted = evict_oldest-pop_back l₁ h₁ p n at_tail here ∙ popped in
      let (pool, h₃) = ObjectPool.put C l.pool (some p) h₂ in
      let again = (get-put C l.pool p h₂ room).0 in
      let other = last_elsewhere order p held.linked.apart last in
      let fits : length (drop_last order) + 1 < size_mod =
        room_left order p last held.linked.small in
      let (taken, refused) =
        insert-Holds P C (dropped l₂ c p h₂) k x h₃ (drop_last order) (drop_last xs) p held₂ again
          other fits in
      let (_, pool', h₄) = ObjectPool.get C pool h₃ in
      elim (Bool-cases (Methods.put P map₂ k (some p) h₄).0) [
        | inl ok ↦
            let (c', inserted, held₃) = taken ok in
            let (_, map₃, h₅) = Methods.put P map₂ k (some p) h₄ in
            let l₃ : Lru K T = record (dropped l₂ c p h₂) {
              chain = c';
              pool = pool';
              map = map₃;
            } in
            (
              l₃,
              h₅,
              put-run l k x h absent full evicted
                  ∙ (inserted ∙ ap (λ b. some (b, l₃, h₅)) (sym ok)),
              λ _. held₃,
              λ e. cc (sym ok ∙ e),
            )
        | inr failed ↦
            let (l₃, h₅, inserted, held₃) = refused failed in
            (
              l₃,
              h₅,
              put-run l k x h absent full evicted
                  ∙ (inserted ∙ ap (λ b. some (b, l₃, h₅)) (sym failed)),
              λ e. cc (sym failed ∙ e),
              λ _. held₃,
            )
      ]
