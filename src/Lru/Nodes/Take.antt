-- ===== src/Lru/Nodes/Take.antt =====
-- `take_node` takes a node out of a chain, wherever it stands.
use real_time_library.Base.{
  ℕ, suc, ◌+◌, ◌-◌, ◌<◌, ◌≡◌, refl, sym, ap, ◌∙◌, ◌≢◌, ◌⊎◌, inl, inr, true, false, Option, none,
  some, List, arith, ltb, ◌==◌, if◌then◌else◌, length, get_elem?, get_last?, eqb_refl, ne→eqb,
  eq-cases, get_elem?-beyond,
}
use real_time_library.Lru.Nodes.{Node, Chain, store, points_at, take_node, bypass, bypass_between}
use real_time_library.Lru.Nodes.Linked.{
  remove_at, length-remove_at, get_elem?-remove_at, get_last?-position, inside, elem_at, prev_in,
  next_in, is_there-some, modify-some, next_in-store, prev_in-store, Relinked, store-Relinked,
  Linked,
}

module _ {K T : Type 0} (c : Chain K T) (order : List ℕ) (l : Linked c order) (i p : ℕ)
    (at_p : get_elem? order i ≡ some p) (n : Node K T) (here : c.nodes p ≡ some n) where
  inside_order : i < length order
  inside_order = inside order i p at_p

  removed :
      (j : ℕ)
      → get_elem? (remove_at i order) j
        ≡ (if ltb j i then get_elem? order j else get_elem? order (suc j))
  removed j = get_elem?-remove_at i order j inside_order

  -- The chain with the links of the node cleared.
  abbrev cleared : Chain K T
  cleared = store c p (some (record n { prev = none; next = none }))

  cleared-Relinked : Relinked c cleared
  cleared-Relinked = store-Relinked c p n (record n { prev = none; next = none }) here (refl, refl)

  -- The node is not among the others.
  pub removed-other : (j : ℕ) → get_elem? (remove_at i order) j ≢ some p
  removed-other j e = ground (arith, removed j, l.apart i j p at_p, l.apart i (suc j) p at_p)

  -- What is left to show for each case: the ends, and the links over the gap.
  taken-Linked :
      (c' : Chain K T)
      → c'.size ≡ length order - 1
      → 1 < length order
      → c'.head ≡ get_elem? (remove_at i order) 0
      → c'.tail ≡ get_last? (remove_at i order)
      → Relinked c c'
      → ((j a b : ℕ)
          → get_elem? (remove_at i order) j ≡ some a
          → get_elem? (remove_at i order) (suc j) ≡ some b
          → next_in (c'.nodes a) ≡ some b)
      → ((j a b : ℕ)
          → get_elem? (remove_at i order) j ≡ some a
          → get_elem? (remove_at i order) (suc j) ≡ some b
          → prev_in (c'.nodes b) ≡ some a)
      → Linked c' (remove_at i order)
  taken-Linked c' size many head tail same next prev = record {
    size = omega (arith, size, length-remove_at i order inside_order);
    small = omega (arith, l.small, length-remove_at i order inside_order);
    head = head;
    tail = tail;
    there = λ j q e. ground (arith, removed j, same q, l.there j q, l.there (suc j) q);
    next = next;
    prev = prev;
    apart = λ j k q ej ek. ground (
      arith,
      removed j,
      removed k,
      l.apart j k q,
      l.apart (suc j) k q,
      l.apart j (suc k) q,
      l.apart (suc j) (suc k) q,
    );
  }

  last_position :
      1 < length order
      → get_last? (remove_at i order) ≡ get_elem? (remove_at i order) (length order - 2)
  last_position many =
      let position : length (remove_at i order) - 1 ≡ length order - 2 =
        omega (arith, length-remove_at i order inside_order) in
      get_last?-position (remove_at i order) ∙ ap (get_elem? (remove_at i order)) position

  -- The links of the other nodes, where those of the neighbours do not matter.
  cleared_next : (a : ℕ) → a ≢ p → next_in (cleared.nodes a) ≡ next_in (c.nodes a)
  cleared_next a ne = ground (arith, next_in-store c p (record n { prev = none; next = none }) a)

  cleared_prev : (a : ℕ) → a ≢ p → prev_in (cleared.nodes a) ≡ prev_in (c.nodes a)
  cleared_prev a ne = ground (arith, prev_in-store c p (record n { prev = none; next = none }) a)

  end_next :
      (i ≡ 0) ⊎ (i + 1 ≡ length order)
      → (j a b : ℕ) → get_elem? (remove_at i order) j ≡ some a
      → get_elem? (remove_at i order) (suc j) ≡ some b
      → next_in (cleared.nodes a) ≡ some b
  end_next at_end j a b ea eb =
      let ne : a ≢ p = λ e. removed-other j (ea ∙ ap some e) in
      let in_order = inside (remove_at i order) (suc j) b eb in
      cleared_next a ne
      ∙ ground (
        arith,
        in_order,
        length-remove_at i order inside_order,
        removed j,
        removed (suc j),
        l.next j a b,
        l.next (suc j) a b,
        at_end,
      )

  end_prev :
      (i ≡ 0) ⊎ (i + 1 ≡ length order)
      → (j a b : ℕ) → get_elem? (remove_at i order) j ≡ some a
      → get_elem? (remove_at i order) (suc j) ≡ some b
      → prev_in (cleared.nodes b) ≡ some a
  end_prev at_end j a b ea eb =
      let ne : b ≢ p = λ e. removed-other (suc j) (eb ∙ ap some e) in
      let in_order = inside (remove_at i order) (suc j) b eb in
      cleared_prev b ne
      ∙ ground (
        arith,
        in_order,
        length-remove_at i order inside_order,
        removed j,
        removed (suc j),
        l.prev j a b,
        l.prev (suc j) a b,
        at_end,
      )

  module _ (many : 1 < length order) where
    take_node-bypass : take_node c p ≡ bypass cleared p n.prev n.next
    unfolding take_node
    take_node-bypass =
        let some_there : (c.size == 0) ≡ false = ground (arith, l.size) in
        let more : (c.size == 1) ≡ false = ground (arith, l.size) in
        rw (take_node, here, some_there, more)

    points_at-some : (h : Option ℕ) (q : ℕ) → h ≡ some q → points_at h p ≡ (q == p)
    points_at-some h q e = rw e

    first_gone :
        i ≡ 0
        → (c' : Chain K T) × (take_node c p ≡ some c')
          × Linked c' (remove_at i order)
          × Relinked c c'
    unfolding bypass
    first_gone at_start =
        let (q, at_q) = elem_at order 1 many in
        let link : n.next ≡ some q =
          ap next_in (sym here) ∙ l.next 0 p q (ap (get_elem? order) (sym at_start) ∙ at_p) at_q in
        let at_head : c.head ≡ some p = l.head ∙ (ap (get_elem? order) (sym at_start) ∙ at_p) in
        let hit : points_at c.head p ≡ true = points_at-some c.head p at_head ∙ eqb_refl p in
        let c' : Chain K T = record cleared { head = n.next; size = c.size - 1 } in
        (
          c',
          take_node-bypass ∙ rw (bypass, hit),
          taken-Linked c' (omega (arith, l.size)) many (link ∙ ground (arith, removed 0, at_q))
              (l.tail
                ∙ (get_last?-position order
                    ∙ sym (
                        last_position many
                        ∙ ground (
                          arith,
                          removed (length order - 2),
                          length-remove_at i order inside_order,
                        ))))
              cleared-Relinked (end_next (inl at_start)) (end_prev (inl at_start)),
          cleared-Relinked,
        )

    missed_head : i ≢ 0 → points_at c.head p ≡ false
    missed_head not_first =
        let (x, at_x) = elem_at order 0 (omega arith) in
        let other : x ≢ p = λ e. not_first (l.apart i 0 p at_p (at_x ∙ ap some e)) in
        points_at-some c.head x (l.head ∙ at_x) ∙ ne→eqb x p other

    last_gone :
        i ≢ 0
        → i + 1 ≡ length order
        → (c' : Chain K T) × (take_node c p ≡ some c')
          × Linked c' (remove_at i order)
          × Relinked c c'
    unfolding bypass
    last_gone not_first at_end =
        let (r, at_r) = elem_at order (i - 1) (omega arith) in
        let next_position : suc (i - 1) ≡ i = omega arith in
        let link : n.prev ≡ some r =
          ap prev_in (sym here)
          ∙ l.prev (i - 1) r p at_r (ap (get_elem? order) next_position ∙ at_p) in
        let position : length order - 1 ≡ i = omega arith in
        let at_tail : c.tail ≡ some p =
          l.tail ∙ (get_last?-position order ∙ (ap (get_elem? order) position ∙ at_p)) in
        let hit : points_at c.tail p ≡ true = points_at-some c.tail p at_tail ∙ eqb_refl p in
        let c' : Chain K T = record cleared { tail = n.prev; size = c.size - 1 } in
        let left : length order - 2 ≡ i - 1 = omega arith in
        (
          c',
          take_node-bypass ∙ rw (bypass, missed_head not_first, hit),
          taken-Linked c' (omega (arith, l.size)) many (l.head ∙ ground (arith, removed 0))
              (link
                ∙ sym (
                    last_position many
                    ∙ (ap (get_elem? (remove_at i order)) left
                        ∙ ground (arith, removed (i - 1), at_r))))
              cleared-Relinked (end_next (inr at_end)) (end_prev (inr at_end)),
          cleared-Relinked,
        )

    module _ (r q : ℕ) (not_first : i ≢ 0) (not_last : i + 1 ≢ length order)
        (at_r : get_elem? order (i - 1) ≡ some r) (at_q : get_elem? order (suc i) ≡ some q)
        (m o : Node K T) (before : c.nodes r ≡ some m) (behind : c.nodes q ≡ some o) where
      r_other : r ≢ p
      r_other e = ground (arith, l.apart i (i - 1) p at_p (at_r ∙ ap some e))

      q_other : q ≢ p
      q_other e = ground (arith, l.apart i (suc i) p at_p (at_q ∙ ap some e))

      apart_ends : r ≢ q
      apart_ends e = ground (arith, l.apart (i - 1) (suc i) q (at_r ∙ ap some e) at_q)

      link_back : n.prev ≡ some r
      link_back =
          let next_position : suc (i - 1) ≡ i = omega arith in
          ap prev_in (sym here)
          ∙ l.prev (i - 1) r p at_r (ap (get_elem? order) next_position ∙ at_p)

      link_on : n.next ≡ some q
      link_on = ap next_in (sym here) ∙ l.next i p q at_p at_q

      -- The chain with the two neighbours linked to each other.
      abbrev bridged : Chain K T
      bridged =
          record (store (store cleared r (some (record m { next = n.next }))) q
            (some (record o { prev = n.prev }))) { size = c.size - 1 }

      bridged-run : take_node c p ≡ some bridged
      unfolding bypass bypass_between
      bridged-run =
          let position : length order - 1 ≢ i = λ e. not_last (omega arith) in
          let (x, at_x) = elem_at order (length order - 1) (omega arith) in
          let other : x ≢ p =
            λ e. position (l.apart (length order - 1) i p (at_x ∙ ap some e) at_p) in
          let at_tail : c.tail ≡ some x = l.tail ∙ (get_last?-position order ∙ at_x) in
          let missed_tail : points_at c.tail p ≡ false =
            points_at-some c.tail x at_tail ∙ ne→eqb x p other in
          let before' : cleared.nodes r ≡ some m = rw (ne→eqb r p r_other) before in
          let behind' : (store cleared r (some (record m { next = n.next }))).nodes q ≡ some o =
            rw (ne→eqb q r (λ e. apart_ends (sym e)), ne→eqb q p q_other) behind in
          let on =
            modify-some cleared n.prev r m (λ m. record m { next = n.next }) link_back before' in
          let back =
            modify-some (store cleared r (some (record m { next = n.next }))) n.next q o
              (λ m. record m { prev = n.prev }) link_on behind' in
          take_node-bypass
          ∙ rw (bypass, missed_head not_first, missed_tail, bypass_between, on, back)

      bridged-Relinked : Relinked c bridged
      bridged-Relinked a = ground (arith, here, before, behind, r_other, q_other, apart_ends)

      next_in-bridged :
          (a : ℕ)
          → next_in (bridged.nodes a) ≡ (if a == r then n.next else next_in (cleared.nodes a))
      next_in-bridged a = ground (arith, behind, apart_ends, q_other)

      prev_in-bridged :
          (a : ℕ)
          → prev_in (bridged.nodes a) ≡ (if a == q then n.prev else prev_in (cleared.nodes a))
      prev_in-bridged a = ground (arith, before, apart_ends, r_other)

      bridged_next :
          (j a b : ℕ)
          → get_elem? (remove_at i order) j ≡ some a
          → get_elem? (remove_at i order) (suc j) ≡ some b
          → next_in (bridged.nodes a) ≡ some b
      bridged_next j a b ea eb =
          let ne : a ≢ p = λ e. removed-other j (ea ∙ ap some e) in
          ground (
            arith,
            next_in-bridged a,
            cleared_next a ne,
            link_on,
            at_q,
            at_r,
            removed j,
            removed (suc j),
            l.next j a b,
            l.next (suc j) a b,
            l.apart j (i - 1) a,
            l.apart (suc j) (i - 1) a,
          )

      bridged_prev :
          (j a b : ℕ)
          → get_elem? (remove_at i order) j ≡ some a
          → get_elem? (remove_at i order) (suc j) ≡ some b
          → prev_in (bridged.nodes b) ≡ some a
      bridged_prev j a b ea eb =
          let ne : b ≢ p = λ e. removed-other (suc j) (eb ∙ ap some e) in
          ground (
            arith,
            prev_in-bridged b,
            cleared_prev b ne,
            link_back,
            at_q,
            at_r,
            removed j,
            removed (suc j),
            l.prev j a b,
            l.prev (suc j) a b,
            l.apart (suc j) (suc i) b,
            l.apart (suc (suc j)) (suc i) b,
          )

      between_gone :
          (c' : Chain K T) × (take_node c p ≡ some c')
          × Linked c' (remove_at i order)
          × Relinked c c'
      between_gone =
          let inner = inside_order in
          (
            bridged,
            bridged-run,
            taken-Linked bridged (omega (arith, l.size)) many (l.head ∙ ground (arith, removed 0))
                (l.tail
                  ∙ (get_last?-position order
                      ∙ sym
                          (last_position many ∙ ground (arith, inner, removed (length order - 2)))))
                bridged-Relinked bridged_next bridged_prev,
            bridged-Relinked,
          )

    gone :
        (c' : Chain K T) × (take_node c p ≡ some c') × Linked c' (remove_at i order) × Relinked c c'
    gone = elim (eq-cases i 0) [
      | inl at_start ↦ first_gone at_start
      | inr not_first ↦ elim (eq-cases (i + 1) (length order)) [
        | inl at_end ↦ last_gone not_first at_end
        | inr not_last ↦
            let (r, at_r) = elem_at order (i - 1) (omega (arith, inside_order)) in
            let (q, at_q) = elem_at order (suc i) (omega (arith, inside_order)) in
            let (m, before) = is_there-some (c.nodes r) (l.there (i - 1) r at_r) in
            let (o, behind) = is_there-some (c.nodes q) (l.there (suc i) q at_q) in
            between_gone r q not_first not_last at_r at_q m o before behind
      ]
    ]

  abbrev emptied : Chain K T
  emptied = record cleared { head = none; tail = none; size = 0 }

  only_gone :
      length order ≡ 1
      → (c' : Chain K T) × (take_node c p ≡ some c') × Linked c' (remove_at i order) × Relinked c c'
  unfolding take_node
  only_gone one =
      let some_there : (c.size == 0) ≡ false = ground (arith, l.size) in
      let last : (c.size == 1) ≡ true = ground (arith, l.size) in
      let none_left : (j : ℕ) → get_elem? (remove_at i order) j ≡ none = λ j.
        get_elem?-beyond (remove_at i order) j
          (omega (arith, length-remove_at i order inside_order)) in
      (
        emptied,
        rw (take_node, here, some_there, last),
        record {
          size = omega (arith, length-remove_at i order inside_order);
          small = omega (arith, length-remove_at i order inside_order);
          head = sym (none_left 0);
          tail = sym (get_last?-position (remove_at i order) ∙ none_left _);
          there = λ j q e. ground (arith, none_left j);
          next = λ j a b ea eb. ground (arith, none_left j);
          prev = λ j a b ea eb. ground (arith, none_left j);
          apart = λ j k q ej ek. ground (arith, none_left j);
        },
        cleared-Relinked,
      )

-- A node of the order goes, wherever it stands.
pub take_node-Linked :
    {K T : Type 0} (c : Chain K T) (order : List ℕ) (i p : ℕ)
    → Linked c order
    → get_elem? order i ≡ some p
    → (c' : Chain K T) × (take_node c p ≡ some c')
      × Linked c' (remove_at i order)
      × Relinked c c'
      × ((j : ℕ) → get_elem? (remove_at i order) j ≢ some p)
take_node-Linked c order i p l at_p =
    let (n, here) = is_there-some (c.nodes p) (l.there i p at_p) in
    let room = inside order i p at_p in
    let apart = removed-other c order l i p at_p n here in
    elim (eq-cases (length order) 1) [
      | inl one ↦
          let (c', run, l', same) = only_gone c order l i p at_p n here one in
          (c', run, l', same, apart)
      | inr more ↦
          let (c', run, l', same) = gone c order l i p at_p n here (omega arith) in
          (c', run, l', same, apart)
    ]
