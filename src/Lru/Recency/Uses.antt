-- ===== src/Lru/Recency/Uses.antt =====
-- What each use of a cache does to the list of its entries.
use real_time_library.Base.{
  same_result, ℕ, ◌+◌, ◌-◌, ◌<◌, ◌≡◌, refl, sym, ap, ap₂, ◌∙◌, ◌≢◌, inl, inr, true, Option, none,
  some, List, ◌∷◌, arith, length, get_elem?, drop_last, get_last?, eqb_refl, Option-cases,
  get_elem?-drop_last,
}
use mathlib.Core.Path.{subst}
use real_time_library.Alloc.{size_mod}
use real_time_library.Lru.Nodes.{Node, Chain, store, assign, take_node, push_front}
use real_time_library.Lru.Nodes.Linked.{
  remove_at, length-remove_at, get_last?-position, inside, is_there, entry_in, is_there-some,
  modify-some,
}
use real_time_library.Lru.Nodes.Take.{take_node-Linked}
use real_time_library.Lru.Nodes.Push.{push_front-Linked}
use real_time_library.Lru.Nodes.Back.{unlink_back-Linked}
use real_time_library.Lru.Recency.{
  Use, hit, update, add, evict, run, contents, Does, hits, updates, adds, evicts, contents-same,
  contents-remove_at, contents-drop_last, get_elem?-contents, store-Linked, contents-store, Holds,
}

pub last_elsewhere :
    (order : List ℕ) (p : ℕ)
    → ((i j q : ℕ) → get_elem? order i ≡ some q → get_elem? order j ≡ some q → i ≡ j)
    → get_last? order ≡ some p
    → (i : ℕ) → get_elem? (drop_last order) i ≢ some p
last_elsewhere order p apart last i e =
    let at_p : get_elem? order (length order - 1) ≡ some p =
      sym (get_last?-position order) ∙ last in
    ground (arith, get_elem?-drop_last order i, apart i (length order - 1) p, at_p)

module _ {K T : Type 0} where
  -- A change to a node that is not linked.
  pub store-Holds :
      (c : Chain K T) (order : List ℕ) (xs : List (Option (K × T))) (p : ℕ) (n : Option (Node K T))
      → Holds c order xs
      → ((i : ℕ) → get_elem? order i ≢ some p)
      → Holds (store c p n) order xs
  store-Holds c order xs p n held other = record {
    linked = store-Linked c order held.linked p n other;
    entries = contents-store c order held.linked p n other ∙ held.entries;
  }

  -- A node that is not linked becomes the first one.
  push_front-Holds :
      (c : Chain K T) (order : List ℕ) (p : ℕ) (n : Node K T) (xs : List (Option (K × T)))
      → Holds c order xs
      → c.nodes p ≡ some n
      → ((i : ℕ) → get_elem? order i ≢ some p)
      → length order + 1 < size_mod
      → (c' : Chain K T) × (push_front c (some p) ≡ some c')
        × Holds c' (p ∷ order) (some (n.key, n.val) ∷ xs)
  push_front-Holds c order p n xs held here other room =
      let (c', done, l', same) =
        push_front-Linked c p order held.linked (ap is_there here) other room in
      let first : entry_in (c'.nodes p) ≡ some (n.key, n.val) = (same p).0 ∙ ap entry_in here in
      let others : contents c' order ≡ xs =
        contents-same c c' order (λ i q _. (same q).0) ∙ held.entries in
      (c', done, record { linked = l'; entries = ap₂ (λ e es. e ∷ es) first others })

  -- A node of the chain goes, and the entries without it are left.
  pub take_node-Holds :
      (c : Chain K T) (order : List ℕ) (i p : ℕ) (xs : List (Option (K × T)))
      → Holds c order xs
      → get_elem? order i ≡ some p
      → (c' : Chain K T) × (take_node c p ≡ some c')
        × Holds c' (remove_at i order) (remove_at i xs)
        × (entry_in (c'.nodes p) ≡ entry_in (c.nodes p))
        × (is_there (c'.nodes p) ≡ true)
        × ((j : ℕ) → get_elem? (remove_at i order) j ≢ some p)
        × (length (remove_at i order) + 1 < size_mod)
  take_node-Holds c order i p xs held at_p =
      let (c', done, l', same, other) = take_node-Linked c order i p held.linked at_p in
      (
        c',
        done,
        record {
          linked = l';
          entries =
              contents-same c c' (remove_at i order) (λ j q _. (same q).0)
              ∙ (contents-remove_at c i order ∙ ap (remove_at i) held.entries);
        },
        (same p).0,
        (same p).1 ∙ held.linked.there i p at_p,
        other,
        omega (arith, held.linked.small, length-remove_at i order (inside order i p at_p)),
      )

  pub hit-Holds :
      (c : Chain K T) (order : List ℕ) (i p : ℕ) (e : Option (K × T)) (xs : List (Option (K × T)))
      → Holds c order xs
      → get_elem? order i ≡ some p
      → get_elem? xs i ≡ some e
      → (c' : Chain K T) × (run (hit p) c ≡ some c')
        × Holds c' (p ∷ remove_at i order) (e ∷ remove_at i xs)
  unfolding run
  hit-Holds c order i p e xs held at_p at_e =
      let (c₁, taken, held₁, same, there, other, room) = take_node-Holds c order i p xs held at_p in
      let (n, here) = is_there-some (c₁.nodes p) there in
      let (c₂, pushed, held₂) =
        push_front-Holds c₁ (remove_at i order) p n (remove_at i xs) held₁ here other room in
      let kept : some (some (n.key, n.val)) ≡ some e =
        ap (λ o. some (entry_in o)) (sym here)
        ∙ (ap some same
            ∙ (sym (get_elem?-contents c order i p at_p)
                ∙ (ap (λ l. get_elem? l i) held.entries ∙ at_e))) in
      (
        c₂,
        rw (run, taken, pushed),
        subst (λ x. Holds c₂ (p ∷ remove_at i order) (x ∷ remove_at i xs)) (same_result refl kept)
            held₂,
      )

  pub update-Holds :
      (c : Chain K T) (order : List ℕ) (i p : ℕ) (k : K) (x : T) (xs : List (Option (K × T)))
      → Holds c order xs
      → get_elem? order i ≡ some p
      → (c' : Chain K T) × (run (update p k x) c ≡ some c')
        × Holds c' (p ∷ remove_at i order) (some (k, x) ∷ remove_at i xs)
  unfolding run assign
  update-Holds c order i p k x xs held at_p =
      let (c₁, taken, held₁, same, there, other, room) = take_node-Holds c order i p xs held at_p in
      let (n, here) = is_there-some (c₁.nodes p) there in
      let n' : Node K T = record n { key = k; val = x } in
      let assigned : assign c₁ p k x ≡ some (store c₁ p (some n')) =
        modify-some c₁ (some p) p n (λ n. record n { key = k; val = x }) refl here in
      let held' : Holds (store c₁ p (some n')) (remove_at i order) (remove_at i xs) =
        store-Holds c₁ (remove_at i order) (remove_at i xs) p (some n') held₁ other in
      let (c₂, pushed, held₂) =
        push_front-Holds (store c₁ p (some n')) (remove_at i order) p n' (remove_at i xs) held'
          (rw (eqb_refl p)) other room in
      (c₂, rw (run, taken, assigned, pushed), held₂)

  pub add-Holds :
      (c : Chain K T) (order : List ℕ) (p : ℕ) (k : K) (x : T) (xs : List (Option (K × T)))
      → Holds c order xs
      → ((i : ℕ) → get_elem? order i ≢ some p)
      → length order + 1 < size_mod
      → (c' : Chain K T) × (run (add p k x) c ≡ some c') × Holds c' (p ∷ order) (some (k, x) ∷ xs)
  unfolding run
  add-Holds c order p k x xs held other room =
      let n : Node K T = record { key = k; val = x; prev = none; next = none } in
      let held' : Holds (store c p (some n)) order xs =
        store-Holds c order xs p (some n) held other in
      push_front-Holds (store c p (some n)) order p n xs held' (rw (eqb_refl p)) other room

  pub evict-Holds :
      (c : Chain K T) (order : List ℕ) (xs : List (Option (K × T)))
      → Holds c order xs
      → (c' : Chain K T) × (run evict c ≡ some c') × Holds c' (drop_last order) (drop_last xs)
  unfolding run
  evict-Holds c order xs held =
      let (c₁, done, l₁, same) = unlink_back-Linked c order held.linked in
      let left : contents c₁ (drop_last order) ≡ drop_last xs =
        contents-same c c₁ (drop_last order) (λ i q _. (same q).0)
        ∙ (contents-drop_last c order ∙ ap drop_last held.entries) in
      elim (Option-cases (get_last? order)) [
        | inl empty ↦ (c₁, rw (run, done, empty), record { linked = l₁; entries = left })
        | inr (p, last) ↦
            let other = last_elsewhere order p held.linked.apart last in
            (
              store c₁ p none,
              rw (run, done, last),
              store-Holds c₁ (drop_last order) (drop_last xs) p none
                  (record { linked = l₁; entries = left }) other,
            )
      ]

  -- The chain of nodes refines the list of entries in the order of their last use. On a chain that
  -- links the nodes of a list, each use has a result, and that links the nodes in the new order, with
  -- the entries of the new list: the entry that is found or added comes first, with its new value if
  -- it is put, all others keep their order and what they hold, and the one that goes is the last.
  pub run-Holds :
      (c : Chain K T) (order order' : List ℕ) (xs xs' : List (Option (K × T))) (u : Use K T)
      → Holds c order xs
      → Does order xs u order' xs'
      → (c' : Chain K T) × (run u c ≡ some c') × Holds c' order' xs'
  run-Holds c order _ xs _ _ held (hits i p e at_p at_e) = hit-Holds c order i p e xs held at_p at_e
  run-Holds c order _ xs _ _ held (updates i p k x at_p) = update-Holds c order i p k x xs held at_p
  run-Holds c order _ xs _ _ held (adds p k x other room) =
      add-Holds c order p k x xs held other room
  run-Holds c order _ xs _ _ held evicts = evict-Holds c order xs held
