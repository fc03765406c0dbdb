-- ===== src/Lru/Nodes/Back.antt =====
-- `pop_back` on a chain takes the last node off.
use real_time_library.Base.{
  ℕ, suc, ◌-◌, ◌≡◌, refl, sym, ap, ◌∙◌, true, false, none, some, List, [], ◌∷◌, arith, ◌==◌, length,
  get_elem?, drop_last, get_last?, length-drop_last, get_elem?-drop_last,
}
use real_time_library.Lru.Nodes.{Node, Chain, store, unlink_back, unlink_last}
use real_time_library.Lru.Nodes.Linked.{
  get_last?-position, elem_at, prev_in, next_in, is_there-some, modify-some, next_in-store,
  prev_in-store, Relinked, store-Relinked, Linked,
}

module _ {K T : Type 0} (c : Chain K T) where
  none_left-Linked : Linked (record c { head = none; tail = none; size = 0 }) []
  none_left-Linked = record {
    size = refl;
    small = omega arith;
    head = refl;
    tail = refl;
    there = λ i q e. cc;
    next = λ i a b ea eb. cc;
    prev = λ i a b ea eb. cc;
    apart = λ i j q ei ej. cc;
  }

  module _ (order : List ℕ) (l : Linked c order) (k p r : ℕ) (last : length order ≡ suc (suc k))
      (at_p : get_elem? order (suc k) ≡ some p) (at_r : get_elem? order k ≡ some r) (n m : Node K T)
      (here : c.nodes p ≡ some n) (before : c.nodes r ≡ some m) where
    abbrev shortened : Chain K T
    shortened = record (store c r (some (record m { next = none }))) {
      tail = n.prev;
      size = c.size - 1;
    }

    link : n.prev ≡ some r
    link = ap prev_in (sym here) ∙ l.prev k r p at_r at_p

    shortened-run : unlink_back c ≡ some (get_last? order, shortened)
    unfolding unlink_back unlink_last
    shortened-run =
        let many : (c.size == 0) ≡ false = ground (arith, l.size, last) in
        let more : (c.size == 1) ≡ false = ground (arith, l.size, last) in
        let position : length order - 1 ≡ suc k = omega (arith, last) in
        let is_last : get_last? order ≡ some p =
          get_last?-position order ∙ (ap (get_elem? order) position ∙ at_p) in
        let at_tail : c.tail ≡ some p = l.tail ∙ is_last in
        let cut = modify-some c n.prev r m (λ m. record m { next = none }) link before in
        rw (unlink_back, many, more, unlink_last, at_tail, here, cut, is_last)

    shortened-Relinked : Relinked c shortened
    shortened-Relinked = store-Relinked c r m (record m { next = none }) before (refl, refl)

    shortened-Linked : Linked shortened (drop_last order)
    shortened-Linked = record {
      size = omega (arith, l.size, last, length-drop_last order);
      small = omega (arith, l.small, length-drop_last order);
      head = ground (arith, l.head, get_elem?-drop_last order 0, last);
      tail = at_tail;
      there =
          λ i q e. ground (arith, shortened-Relinked q, l.there i q, get_elem?-drop_last order i);
      next = next;
      prev = λ i a b ea eb. ground (
        arith,
        prev_in-store c r (record m { next = none }) b,
        before,
        l.prev i a b,
        get_elem?-drop_last order i,
        get_elem?-drop_last order (suc i),
      );
      apart = λ i j q ei ej.
          ground (arith, l.apart i j q, get_elem?-drop_last order i, get_elem?-drop_last order j);
    }
      where
        at_tail : n.prev ≡ get_last? (drop_last order)
        at_tail =
            let position : length (drop_last order) - 1 ≡ k =
              omega (arith, last, length-drop_last order) in
            link
            ∙ sym (
                get_last?-position (drop_last order)
                ∙ (ap (get_elem? (drop_last order)) position
                    ∙ ground (arith, get_elem?-drop_last order k, at_r, last)))

        next :
            (i a b : ℕ)
            → get_elem? (drop_last order) i ≡ some a
            → get_elem? (drop_last order) (suc i) ≡ some b
            → next_in (shortened.nodes a) ≡ some b
        next i a b ea eb = ground (
          arith,
          next_in-store c r (record m { next = none }) a,
          l.next i a b,
          l.apart i k r,
          at_r,
          last,
          get_elem?-drop_last order i,
          get_elem?-drop_last order (suc i),
        )

  -- The last node of the order goes, and it is the one that is returned.
  pub unlink_back-Linked :
      (order : List ℕ)
      → Linked c order
      → (c' : Chain K T) × (unlink_back c ≡ some (get_last? order, c'))
        × Linked c' (drop_last order)
        × Relinked c c'
  unfolding unlink_back
  unlink_back-Linked [] l =
      let none_there : (c.size == 0) ≡ true = rw l.size in
      (c, rw (unlink_back, none_there), l, λ q. (refl, refl))
  unlink_back-Linked (a ∷ []) l =
      let some_there : (c.size == 0) ≡ false = rw l.size in
      let one_there : (c.size == 1) ≡ true = rw l.size in
      (
        record c { head = none; tail = none; size = 0 },
        rw (unlink_back, some_there, one_there, l.head),
        none_left-Linked,
        λ q. (refl, refl),
      )
  unlink_back-Linked (a ∷ b ∷ xs) l =
      let k = length xs in
      let (p, at_p) = elem_at (a ∷ b ∷ xs) (suc k) (omega arith) in
      let (r, at_r) = elem_at (a ∷ b ∷ xs) k (omega arith) in
      let (n, here) = is_there-some (c.nodes p) (l.there (suc k) p at_p) in
      let (m, before) = is_there-some (c.nodes r) (l.there k r at_r) in
      (
        shortened (a ∷ b ∷ xs) l k p r (omega arith) at_p at_r n m here before,
        shortened-run (a ∷ b ∷ xs) l k p r (omega arith) at_p at_r n m here before,
        shortened-Linked (a ∷ b ∷ xs) l k p r (omega arith) at_p at_r n m here before,
        shortened-Relinked (a ∷ b ∷ xs) l k p r (omega arith) at_p at_r n m here before,
      )
