-- ===== src/Lru/Nodes/Push.antt =====
-- `push_front` on a chain puts a node before all others.
use real_time_library.Base.{
  ℕ, zero, suc, ◌+◌, ◌%◌, ◌<◌, ◌≡◌, refl, sym, ap, ◌∙◌, ◌≢◌, true, none, some, List, [], ◌∷◌, arith,
  ◌==◌, if◌then◌else◌, length, get_elem?, ne→eqb,
}
use real_time_library.Alloc.{size_mod}
use real_time_library.Lru.Nodes.{Node, Chain, store, push_front, push_first, push_before}
use real_time_library.Lru.Nodes.Linked.{
  is_there, prev_in, next_in, is_there-some, modify-some, is_there-store, Relinked, store-Relinked,
  Linked,
}

module _ {K T : Type 0} (c : Chain K T) (p : ℕ) where
  module _ (n : Node K T) (here : c.nodes p ≡ some n) where
    -- The chain with a first node, and with one more.
    abbrev alone : Chain K T
    alone = record (store c p (some (record n { prev = none; next = none }))) {
      head = some p;
      tail = some p;
      size = (c.size + 1) % size_mod;
    }

    alone-run : c.size ≡ 0 → push_front c (some p) ≡ some alone
    unfolding push_front push_first
    alone-run none_yet =
        let cleared =
          modify-some c (some p) p n (λ n. record n { prev = none; next = none }) refl here in
        let first : (c.size == 0) ≡ true = rw none_yet in
        rw (push_front, first, push_first, cleared)

    alone-Linked : c.size ≡ 0 → Linked alone (p ∷ [])
    alone-Linked none_yet = record {
      size = ground (arith, none_yet);
      small = omega arith;
      head = refl;
      tail = refl;
      there = λ i q e. ground (arith, is_there-store c p n q);
      next = λ i a b ea eb. absurd (ground arith);
      prev = λ i a b ea eb. absurd (ground arith);
      apart = λ i j q ei ej. ground arith;
    }

    module _ (x : ℕ) (m : Node K T) (first : c.nodes x ≡ some m) (apart : p ≢ x) where
      -- The chain with a node before the first one.
      abbrev pushed : Chain K T
      pushed =
          record (store (store c p (some (record n { prev = none; next = c.head }))) x
            (some (record m { prev = some p }))) { head = some p; size = (c.size + 1) % size_mod }

      pushed-run : c.size ≢ 0 → c.head ≡ some x → push_front c (some p) ≡ some pushed
      unfolding push_front push_before
      pushed-run some_there at_head =
          let linked =
            modify-some c (some p) p n (λ n. record n { prev = none; next = c.head }) refl here in
          let other : (store c p (some (record n { prev = none; next = c.head }))).nodes x
              ≡ some m =
            rw (ne→eqb x p (λ e. apart (sym e))) first in
          let back =
            modify-some (store c p (some (record n { prev = none; next = c.head }))) c.head x m
              (λ n. record n { prev = some p }) at_head other in
          rw (push_front, ne→eqb c.size 0 some_there, push_before, linked, back)

      pushed-Relinked : Relinked c pushed
      pushed-Relinked q = ground (arith, here, first, apart)

      pushed-there : (q : ℕ) → is_there (c.nodes q) ≡ true → is_there (pushed.nodes q) ≡ true
      pushed-there q e = ground arith

      next_in-pushed :
          (q : ℕ)
          → next_in (pushed.nodes q) ≡ (
              if q == x
              then next_in (c.nodes x)
              else (if q == p then c.head else next_in (c.nodes q)))
      next_in-pushed q = rw first (ground arith)

      prev_in-pushed :
          (q : ℕ)
          → prev_in (pushed.nodes q)
            ≡ (if q == x then some p else (if q == p then none else prev_in (c.nodes q)))
      prev_in-pushed q = ground arith

      pushed-Linked :
          (xs : List ℕ)
          → Linked c (x ∷ xs)
          → ((i : ℕ) → get_elem? (x ∷ xs) i ≢ some p)
          → length xs + 2 < size_mod
          → Linked pushed (p ∷ x ∷ xs)
      pushed-Linked xs l other room = record {
        size = omega (arith, l.size, room);
        small = omega (arith, room);
        head = refl;
        tail = l.tail;
        there = all_there;
        next = next;
        prev = prev;
        apart = separate;
      }
        where
          all_there :
              (i q : ℕ) → get_elem? (p ∷ x ∷ xs) i ≡ some q → is_there (pushed.nodes q) ≡ true
          all_there zero q e = ground arith
          all_there (suc i) q e = pushed-there q (l.there i q e)

          next :
              (i a b : ℕ)
              → get_elem? (p ∷ x ∷ xs) i ≡ some a
              → get_elem? (x ∷ xs) i ≡ some b
              → next_in (pushed.nodes a) ≡ some b
          next zero a b ea eb = ground (arith, next_in-pushed p, l.head, apart)
          next (suc i) a b ea eb = ground (arith, next_in-pushed a, l.next i a b ea eb, other i)

          prev :
              (i a b : ℕ)
              → get_elem? (p ∷ x ∷ xs) i ≡ some a
              → get_elem? (x ∷ xs) i ≡ some b
              → prev_in (pushed.nodes b) ≡ some a
          prev zero a b ea eb = ground (arith, prev_in-pushed b)
          prev (suc i) a b ea eb =
              ground (
                arith,
                prev_in-pushed b,
                l.prev i a b ea eb,
                other (suc i),
                l.apart 0 (suc i) x refl,
              )

          separate :
              (i j q : ℕ)
              → get_elem? (p ∷ x ∷ xs) i ≡ some q
              → get_elem? (p ∷ x ∷ xs) j ≡ some q
              → i ≡ j
          separate zero zero q ei ej = refl
          separate zero (suc j) q ei ej = absurd (other j (ej ∙ sym ei))
          separate (suc i) zero q ei ej = absurd (other i (ei ∙ sym ej))
          separate (suc i) (suc j) q ei ej = ap suc (l.apart i j q ei ej)

  -- A node that is there and not linked becomes the first one.
  pub push_front-Linked :
      (order : List ℕ)
      → Linked c order
      → is_there (c.nodes p) ≡ true
      → ((i : ℕ) → get_elem? order i ≢ some p)
      → length order + 1 < size_mod
      → (c' : Chain K T) × (push_front c (some p) ≡ some c') × Linked c' (p ∷ order) × Relinked c c'
  push_front-Linked [] l there other room =
      let (n, here) = is_there-some (c.nodes p) there in
      (
        alone n here,
        alone-run n here l.size,
        alone-Linked n here l.size,
        store-Relinked c p n (record n { prev = none; next = none }) here (refl, refl),
      )
  push_front-Linked (x ∷ xs) l there other room =
      let (n, here) = is_there-some (c.nodes p) there in
      let (m, first) = is_there-some (c.nodes x) (l.there 0 x refl) in
      let apart : p ≢ x = λ e. other 0 (ap some (sym e)) in
      (
        pushed n here x m first apart,
        pushed-run n here x m first apart (omega (arith, l.size)) l.head,
        pushed-Linked n here x m first apart xs l other (omega (arith, room)),
        pushed-Relinked n here x m first apart,
      )
