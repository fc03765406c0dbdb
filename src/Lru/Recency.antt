-- ===== src/Lru/Recency.antt =====
-- The nodes of a cache as a list of entries, the most recently used one first.
pub mod Uses
use real_time_library.Base.{
  ℕ, zero, suc, ◌+◌, ◌-◌, ◌*◌, ◌/◌, ◌%◌, ◌^◌, ◌≤◌, ◌<◌, min, ◌≡◌, refl, sym, ap, ap₂, ◌∙◌, ◌≢◌, ◌⊎◌,
  inl, inr, ◌↔◌, Bool, true, false, not, ◌&&◌, ◌||◌, Option, none, some, List, [], ◌∷◌, ◌++◌, arith,
  ltb, leb, ◌==◌, if◌then◌else◌, length, get_elem?, get_or, set, take, drop, replicate, drop_last,
  get_last?, list_ext, get_elem?-take, get_elem?-drop, get_elem?-append, length-take, length-drop,
  length-append, le→leb, lt→leb, leb→le, ltb→lt, lt→ltb, le→ltb, ltb→le, eqb→eq, eqb→ne, eqb_refl,
  ne→eqb, lt-cases, eq-cases, Bool-cases, Option-cases, length-set, length-replicate,
  length-drop_last, drop_last-append, get_last?-append, append-drop_last, take-all, get_or-set_self,
  get_or-set_ne, get_elem?-eq-get_or, get_elem?-beyond, get_elem?-set, get_elem?-drop_last,
  set-beyond,
}
use real_time_library.Alloc.{size_mod}
use real_time_library.Lru.Nodes.{
  Node, Chain, store, modify, assign, take_node, push_front, unlink_back,
}
use real_time_library.Lru.Nodes.Linked.{
  remove_at, inside, is_there, prev_in, next_in, entry_in, is_there-some, modify-some,
  next_in-store, prev_in-store, is_there-store, entry_in-store, Relinked, Linked,
}
use real_time_library.Lru.Nodes.Take.{take_node-Linked}
use real_time_library.Lru.Nodes.Push.{push_front-Linked}
use real_time_library.Lru.Nodes.Back.{unlink_back-Linked}

-- What `get` does with a node that it finds, what `put` does with one that it finds and with a new
-- one, and `pop_back`.
pub data Use (K T : Type 0) : Type 0 where
  hit : ℕ → Use K T
  update : ℕ → K → T → Use K T
  add : ℕ → K → T → Use K T
  evict : Use K T

module _ {K T : Type 0} where
  -- The calls on the list that `get`, `put` and `pop_back` make; a node that goes is no more.
  unfoldable pub run : Use K T → Chain K T → Option (Chain K T)
  unfolding take_node push_front assign unlink_back
  run (hit p) c = elim (take_node c p) [ none ↦ none | some c' ↦ push_front c' (some p) ]
  run (update p k x) c = elim (take_node c p) [
    | none ↦ none
    | some c' ↦ elim (assign c' p k x) [ none ↦ none | some c'' ↦ push_front c'' (some p) ]
  ]
  run (add p k x) c =
      push_front (store c p (some (record { key = k; val = x; prev = none; next = none }))) (some p)
  run evict c = elim (unlink_back c) [
    | none ↦ none
    | some (none, c') ↦ some c'
    | some (some p, c') ↦ some (store c' p none)
  ]

  -- The keys and the values of the nodes, in order.
  abbrev pub contents : Chain K T → List ℕ → List (Option (K × T))
  contents c [] = []
  contents c (p ∷ order) = entry_in (c.nodes p) ∷ contents c order

  -- What a use does to the order of the nodes and to the entries: a node that is found becomes the
  -- first one, a new one too, and the last one goes.
  pub data Does (order : List ℕ) (xs : List (Option (K × T)))
      : Use K T → List ℕ → List (Option (K × T)) → Type 0 where
    hits :
        (i p : ℕ) (e : Option (K × T))
        → get_elem? order i ≡ some p
        → get_elem? xs i ≡ some e
        → Does order xs (hit p) (p ∷ remove_at i order) (e ∷ remove_at i xs)
    updates :
        (i p : ℕ) (k : K) (x : T)
        → get_elem? order i ≡ some p
        → Does order xs (update p k x) (p ∷ remove_at i order) (some (k, x) ∷ remove_at i xs)
    adds :
        (p : ℕ) (k : K) (x : T)
        → ((i : ℕ) → get_elem? order i ≢ some p)
        → length order + 1 < size_mod
        → Does order xs (add p k x) (p ∷ order) (some (k, x) ∷ xs)
    evicts : Does order xs evict (drop_last order) (drop_last xs)

  pub contents-same :
      (c c' : Chain K T) (order : List ℕ)
      → ((i q : ℕ) → get_elem? order i ≡ some q → entry_in (c'.nodes q) ≡ entry_in (c.nodes q))
      → contents c' order ≡ contents c order
  contents-same c c' [] same = refl
  contents-same c c' (p ∷ order) same =
      ap₂ (λ e es. e ∷ es) (same 0 p refl) (contents-same c c' order (λ i q e. same (suc i) q e))

  pub contents-remove_at :
      (c : Chain K T) (i : ℕ) (order : List ℕ)
      → contents c (remove_at i order) ≡ remove_at i (contents c order)
  contents-remove_at c i [] = refl
  contents-remove_at c zero (p ∷ order) = refl
  contents-remove_at c (suc i) (p ∷ order) =
      ap (λ es. entry_in (c.nodes p) ∷ es) (contents-remove_at c i order)

  pub contents-drop_last :
      (c : Chain K T) (order : List ℕ) → contents c (drop_last order) ≡ drop_last (contents c order)
  contents-drop_last c [] = refl
  contents-drop_last c (p ∷ []) = refl
  contents-drop_last c (p ∷ q ∷ order) =
      ap (λ es. entry_in (c.nodes p) ∷ es) (contents-drop_last c (q ∷ order))

  pub get_elem?-contents :
      (c : Chain K T) (order : List ℕ) (i p : ℕ)
      → get_elem? order i ≡ some p
      → get_elem? (contents c order) i ≡ some (entry_in (c.nodes p))
  get_elem?-contents c [] i p e = cc
  get_elem?-contents c (q ∷ order) zero p e = ground arith
  get_elem?-contents c (q ∷ order) (suc i) p e = get_elem?-contents c order i p e

  -- A change to a node that is not linked.
  module _ (c : Chain K T) (order : List ℕ) (l : Linked c order) (p : ℕ) (n : Option (Node K T))
      (other : (i : ℕ) → get_elem? order i ≢ some p) where
    same_node : (i q : ℕ) → get_elem? order i ≡ some q → (store c p n).nodes q ≡ c.nodes q
    same_node i q e = rw (ne→eqb q p (λ e'. other i (e ∙ ap some e')))

    pub store-Linked : Linked (store c p n) order
    store-Linked = record {
      size = l.size;
      small = l.small;
      head = l.head;
      tail = l.tail;
      there = λ i q e. ap is_there (same_node i q e) ∙ l.there i q e;
      next = λ i a b ea eb. ap next_in (same_node i a ea) ∙ l.next i a b ea eb;
      prev = λ i a b ea eb. ap prev_in (same_node (suc i) b eb) ∙ l.prev i a b ea eb;
      apart = l.apart;
    }

    pub contents-store : contents (store c p n) order ≡ contents c order
    contents-store = contents-same c (store c p n) order (λ i q e. ap entry_in (same_node i q e))

  -- A chain that links the nodes of a list, with what they hold.
  pub record Holds (c : Chain K T) (order : List ℕ) (xs : List (Option (K × T))) : Type 0 where
    pub linked : Linked c order
    pub entries : contents c order ≡ xs
