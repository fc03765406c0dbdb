-- ===== src/Lru/Nodes.antt =====
-- librtlcpp/include/rtlcpp/lru.hpp: the struct `LRUNode` and the linked list of the nodes.
-- The nodes stand in a store by their addresses. An access through a null pointer, or to a node that
-- is not there, is the fault `none`.
pub mod Linked
pub mod Push
pub mod Back
pub mod Take
use real_time_library.Base.{
  ℕ, zero, suc, ◌+◌, ◌-◌, ◌*◌, ◌/◌, ◌%◌, ◌^◌, ◌≤◌, ◌<◌, min, ◌≡◌, refl, sym, ap, ap₂, ◌∙◌, ◌≢◌, ◌⊎◌,
  inl, inr, ◌↔◌, Bool, true, false, not, ◌&&◌, ◌||◌, Option, none, some, List, [], ◌∷◌, ◌++◌, arith,
  ltb, leb, ◌==◌, if◌then◌else◌, length, get_elem?, get_or, set, take, drop, replicate, drop_last,
  get_last?, list_ext, get_elem?-take, get_elem?-drop, get_elem?-append, length-take, length-drop,
  length-append, le→leb, lt→leb, leb→le, ltb→lt, lt→ltb, le→ltb, ltb→le, eqb→eq, eqb→ne, eqb_refl,
  ne→eqb, lt-cases, eq-cases, Bool-cases, Option-cases, length-set, length-replicate,
  length-drop_last, drop_last-append, get_last?-append, append-drop_last, take-all, get_or-set_self,
  get_or-set_ne, get_elem?-eq-get_or, get_elem?-beyond, get_elem?-set, get_elem?-drop_last,
  set-beyond,
}
use real_time_library.Alloc.{size_mod}

-- `LRUNode`
pub record Node (K T : Type 0) : Type 0 where
  pub key : K
  pub val : T
  pub prev : Option ℕ
  pub next : Option ℕ

-- The nodes, `m_head`, `m_tail` and `m_size`
pub record Chain (K T : Type 0) : Type 0 where
  pub nodes : ℕ → Option (Node K T)
  pub head : Option ℕ
  pub tail : Option ℕ
  pub size : ℕ

-- `pointer == node`
abbrev pub points_at : Option ℕ → ℕ → Bool
points_at none p = false
points_at (some q) p = q == p

module _ {K T : Type 0} where
  abbrev pub nothing_linked : Chain K T
  nothing_linked = record { nodes = λ q. none; head = none; tail = none; size = 0 }

  -- The store after a change to one node.
  abbrev pub store : Chain K T → ℕ → Option (Node K T) → Chain K T
  store c p n = record c { nodes = λ q. if q == p then n else c.nodes q }

  -- An assignment to members of the node that a pointer points to
  unfoldable pub modify : Chain K T → Option ℕ → (Node K T → Node K T) → Option (Chain K T)
  modify c none f = none
  modify c (some p) f = elim (c.nodes p) [ none ↦ none | some n ↦ some (store c p (some (f n))) ]

  -- `node->key_ref() = key` and `node->val_ref() = val`
  unfoldable pub assign : Chain K T → ℕ → K → T → Option (Chain K T)
  unfolding modify
  assign c p k x = modify c (some p) λ n. record n { key = k; val = x }

  -- The last case of `pop_back`: of at least two nodes the last one goes.
  unfoldable pub unlink_last : Chain K T → Option (Option ℕ × Chain K T)
  unfolding modify
  unlink_last c = elim c.tail [
    | none ↦ none
    | some p ↦ elim (c.nodes p) [
      | none ↦ none
      | some n ↦ elim (modify c n.prev (λ m. record m { next = none })) [
        | none ↦ none
        | some c' ↦ some (some p, record c' { tail = n.prev; size = c.size - 1 })
      ]
    ]
  ]

  -- `pop_back`, without the pool: the node that goes, and the chain
  unfoldable pub unlink_back : Chain K T → Option (Option ℕ × Chain K T)
  unfolding unlink_last
  unlink_back c =
      if c.size == 0
      then some (none, c)
      else (if c.size == 1
          then some (c.head, record c { head = none; tail = none; size = 0 })
          else unlink_last c)

  -- The cases of `push_front`: the first node, and a node before the first one
  unfoldable pub push_first : Chain K T → Option ℕ → Option (Chain K T)
  unfolding modify
  push_first c p = elim (modify c p (λ n. record n { prev = none; next = none })) [
    | none ↦ none
    | some c' ↦ some (record c' { head = p; tail = p; size = (c.size + 1) % size_mod })
  ]

  unfoldable pub push_before : Chain K T → Option ℕ → Option (Chain K T)
  unfolding modify
  push_before c p = elim (modify c p (λ n. record n { prev = none; next = c.head })) [
    | none ↦ none
    | some c' ↦ elim (modify c' c.head (λ n. record n { prev = p })) [
      | none ↦ none
      | some c'' ↦ some (record c'' { head = p; size = (c.size + 1) % size_mod })
    ]
  ]

  -- `push_front`
  unfoldable pub push_front : Chain K T → Option ℕ → Option (Chain K T)
  unfolding push_first push_before
  push_front c p = if c.size == 0 then push_first c p else push_before c p

  -- `take_node` of a node between two others, after its links are cleared
  unfoldable pub bypass_between : Chain K T → Option ℕ → Option ℕ → Option (Chain K T)
  unfolding modify
  bypass_between c prev next = elim (modify c prev (λ n. record n { next = next })) [
    | none ↦ none
    | some c' ↦ elim (modify c' next (λ n. record n { prev = prev })) [
      | none ↦ none
      | some c'' ↦ some (record c'' { size = c.size - 1 })
    ]
  ]

  -- `take_node` where there are at least two nodes, after the links of the node are cleared
  unfoldable pub bypass : Chain K T → ℕ → Option ℕ → Option ℕ → Option (Chain K T)
  unfolding bypass_between
  bypass c p prev next =
      if points_at c.head p
      then some (record c { head = next; size = c.size - 1 })
      else (if points_at c.tail p
          then some (record c { tail = prev; size = c.size - 1 })
          else bypass_between c prev next)

  -- `take_node`
  unfoldable pub take_node : Chain K T → ℕ → Option (Chain K T)
  unfolding modify bypass
  take_node c p = elim (c.nodes p) [
    | none ↦ none
    | some n ↦
        let cleared = store c p (some (record n { prev = none; next = none })) in
        if c.size == 0
        then some c
        else (if c.size == 1
            then some (record cleared { head = none; tail = none; size = 0 })
            else bypass cleared p n.prev n.next)
  ]
