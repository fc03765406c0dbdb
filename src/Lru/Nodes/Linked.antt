-- ===== src/Lru/Nodes/Linked.antt =====
-- When a chain links the nodes of a list in order, and how an assignment to one node is seen.
use real_time_library.Base.{
  ℕ, zero, suc, ◌+◌, ◌-◌, ◌<◌, ◌≡◌, refl, ap, ◌∙◌, inl, inr, Bool, true, false, Option, none, some,
  List, [], ◌∷◌, arith, ltb, ◌==◌, if◌then◌else◌, length, get_elem?, get_last?, eqb_refl, ne→eqb,
  eq-cases,
}
use real_time_library.Alloc.{size_mod}
use real_time_library.Lru.Nodes.{Node, Chain, store, modify}

-- The list without its element at a position.
abbrev pub remove_at {ℓ} : {X : Type ℓ} → ℕ → List X → List X
remove_at i [] = []
remove_at zero (x ∷ xs) = xs
remove_at (suc i) (x ∷ xs) = x ∷ remove_at i xs

pub length-remove_at {ℓ} :
    {X : Type ℓ} (i : ℕ) (xs : List X) → i < length xs → length (remove_at i xs) + 1 ≡ length xs
length-remove_at i [] h = absurd (omega arith)
length-remove_at zero (x ∷ xs) h = omega arith
length-remove_at (suc i) (x ∷ xs) h = omega (arith, length-remove_at i xs (omega arith))

pub get_elem?-remove_at {ℓ} :
    {X : Type ℓ} (i : ℕ) (xs : List X) (j : ℕ)
    → i < length xs
    → get_elem? (remove_at i xs) j ≡ (if ltb j i then get_elem? xs j else get_elem? xs (suc j))
get_elem?-remove_at i [] j h = absurd (omega arith)
get_elem?-remove_at zero (x ∷ xs) j h = ground arith
get_elem?-remove_at (suc i) (x ∷ xs) zero h = ground arith
get_elem?-remove_at (suc i) (x ∷ xs) (suc j) h =
    ground (arith, get_elem?-remove_at i xs j (omega arith))

pub inside : (xs : List ℕ) (i p : ℕ) → get_elem? xs i ≡ some p → i < length xs
inside [] i p e = cc
inside (x ∷ xs) zero p e = omega arith
inside (x ∷ xs) (suc i) p e = omega (arith, inside xs i p e)

pub elem_at : (xs : List ℕ) (i : ℕ) → i < length xs → (p : ℕ) × (get_elem? xs i ≡ some p)
elem_at [] i h = absurd (omega arith)
elem_at (x ∷ xs) zero h = (x, refl)
elem_at (x ∷ xs) (suc i) h = elem_at xs i (omega arith)

pub get_last?-position : (xs : List ℕ) → get_last? xs ≡ get_elem? xs (length xs - 1)
get_last?-position [] = refl
get_last?-position (x ∷ []) = refl
get_last?-position (x ∷ y ∷ xs) =
    let later : length (x ∷ y ∷ xs) - 1 ≡ suc (length xs) = omega arith in
    let now : length (y ∷ xs) - 1 ≡ length xs = omega arith in
    rw later (get_last?-position (y ∷ xs) ∙ ap (get_elem? (y ∷ xs)) now)

module _ {K T : Type 0} where
  -- Whether a node is there, and its links.
  abbrev pub is_there : Option (Node K T) → Bool
  is_there none = false
  is_there (some n) = true

  abbrev pub prev_in : Option (Node K T) → Option ℕ
  prev_in none = none
  prev_in (some n) = n.prev

  abbrev pub next_in : Option (Node K T) → Option ℕ
  next_in none = none
  next_in (some n) = n.next

  pub is_there-some : (o : Option (Node K T)) → is_there o ≡ true → (n : Node K T) × (o ≡ some n)
  is_there-some none e = cc
  is_there-some (some n) e = (n, refl)

  pub modify-some :
      (c : Chain K T) (h : Option ℕ) (p : ℕ) (n : Node K T) (f : Node K T → Node K T)
      → h ≡ some p
      → c.nodes p ≡ some n
      → modify c h f ≡ some (store c p (some (f n)))
  unfolding modify
  modify-some c h p n f at_p here = rw (at_p, modify, here)

  -- The key and the value of a node.
  abbrev pub entry_in : Option (Node K T) → Option (K × T)
  entry_in none = none
  entry_in (some n) = some (n.key, n.val)

  -- The store after an assignment to one node, as each of its parts is seen.
  module _ (c : Chain K T) (p : ℕ) (n : Node K T) (q : ℕ) where
    pub next_in-store :
        next_in ((store c p (some n)).nodes q) ≡ (if q == p then n.next else next_in (c.nodes q))
    next_in-store = ground arith

    pub prev_in-store :
        prev_in ((store c p (some n)).nodes q) ≡ (if q == p then n.prev else prev_in (c.nodes q))
    prev_in-store = ground arith

    pub is_there-store :
        is_there ((store c p (some n)).nodes q) ≡ (if q == p then true else is_there (c.nodes q))
    is_there-store = ground arith

    pub entry_in-store :
        entry_in ((store c p (some n)).nodes q)
        ≡ (if q == p then some (n.key, n.val) else entry_in (c.nodes q))
    entry_in-store = ground arith

  -- A change of links alone.
  abbrev pub Relinked : Chain K T → Chain K T → Type 0
  Relinked c c' =
      (q : ℕ)
      → (entry_in (c'.nodes q) ≡ entry_in (c.nodes q))
        × (is_there (c'.nodes q) ≡ is_there (c.nodes q))

  pub store-Relinked :
      (c : Chain K T) (p : ℕ) (n m : Node K T)
      → c.nodes p ≡ some n
      → (m.key ≡ n.key) × (m.val ≡ n.val)
      → Relinked c (store c p (some m))
  store-Relinked c p n m here (same_key, same_val) q = elim (eq-cases q p) [
    | inl e ↦ rw (e, eqb_refl p, here) (rw (same_key, same_val) refl, refl)
    | inr ne ↦ rw (ne→eqb q p ne) (refl, refl)
  ]

  -- The nodes of the list, in the order of the list. The first one's link to its predecessor and the
  -- last one's link to its successor may be anything.
  pub record Linked (c : Chain K T) (order : List ℕ) : Type 0 where
    pub size : c.size ≡ length order
    pub small : length order < size_mod
    pub head : c.head ≡ get_elem? order 0
    pub tail : c.tail ≡ get_last? order
    pub there : (i p : ℕ) → get_elem? order i ≡ some p → is_there (c.nodes p) ≡ true
    pub next :
        (i p q : ℕ)
        → get_elem? order i ≡ some p
        → get_elem? order (suc i) ≡ some q
        → next_in (c.nodes p) ≡ some q
    pub prev :
        (i p q : ℕ)
        → get_elem? order i ≡ some p
        → get_elem? order (suc i) ≡ some q
        → prev_in (c.nodes q) ≡ some p
    pub apart : (i j p : ℕ) → get_elem? order i ≡ some p → get_elem? order j ≡ some p → i ≡ j
