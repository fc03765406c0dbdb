-- ===== src/Bucket.antt =====
-- librtlcpp/include/rtlcpp/map.hpp: the structs `Entry` and `Bucket` of `rtl::unordered_map`.
pub mod Search
pub mod Removal
use real_time_library.Base.{
  ℕ, zero, suc, ◌+◌, ◌-◌, ◌*◌, ◌/◌, ◌%◌, ◌^◌, ◌≤◌, ◌<◌, min, ◌≡◌, refl, sym, ap, ap₂, ◌∙◌, ◌≢◌, ◌⊎◌,
  inl, inr, ◌↔◌, Bool, true, false, not, ◌&&◌, ◌||◌, Option, none, some, List, [], ◌∷◌, ◌++◌, arith,
  ltb, leb, ◌==◌, if◌then◌else◌, length, get_elem?, get_or, set, take, drop, replicate, drop_last,
  get_last?, list_ext, get_elem?-take, get_elem?-drop, get_elem?-append, length-take, length-drop,
  length-append, le→leb, lt→leb, leb→le, ltb→lt, lt→ltb, le→ltb, ltb→le, eqb→eq, eqb→ne, eqb_refl,
  ne→eqb, lt-cases, eq-cases, Bool-cases, Option-cases, length-set, length-replicate,
  length-drop_last, drop_last-append, get_last?-append, append-drop_last, take-all, get_or-set_self,
  get_or-set_ne, get_elem?-eq-get_or, get_elem?-beyond, get_elem?-set, get_elem?-drop_last,
  set-beyond,
}
use real_time_library.Alloc.{Alloc, Element}
use real_time_library.Vector.{Vector, new, push_back, remove_fast, clear, destruct}

-- The template parameters: `operator==` and `rtl::hash` of the key, the sizes of the nodes, and the
-- value type. Equal keys are the same key.
pub record Params (A : Alloc) (K V : Type 0) : Type 0 where
  pub eq : K → K → Bool
  pub eq_iff : (a b : K) → (eq a b ≡ true) ↔ (a ≡ b)
  pub hash : K → ℕ
  pub entry_size : ℕ
  pub bucket_size : ℕ
  pub table_size : ℕ
  pub value : Element A V

-- `Entry`: the value stands in a block of its own, at an address; null is `none`.
pub record Entry (K V : Type 0) : Type 0 where
  pub key : K
  pub val : Option (ℕ × V)

-- `Bucket`, whose only member is `m_entries`
abbrev pub Bucket : Type 0 → Type 0 → Type 0
Bucket K V = Vector (Entry K V)

-- `explicit Entry(key)`
abbrev pub new_entry : {K V : Type 0} → K → Entry K V
new_entry k = record { key = k; val = none }

-- The value that an entry points to.
abbrev pub pointee : {V : Type 0} → Option (ℕ × V) → Option V
pointee none = none
pointee (some (_, x)) = some x

-- `created_count` and `entry` of `BucketGetOrCreateResult`, with the entry as its index; an entry
-- that could not be made is `failed`.
pub data BucketGetOrCreateResult : Type 0 where
  found : ℕ → BucketGetOrCreateResult
  created : ℕ → BucketGetOrCreateResult
  failed : BucketGetOrCreateResult

module _ {A : Alloc} {K V : Type 0} (P : Params A K V) where
  -- `Entry::construct`
  unfoldable pub construct : Entry K V → V → A.Heap → Bool × Entry K V × A.Heap
  construct e x h =
      let (tmp, h') = A.allocate P.value.size_of h in
      elim e.val [
        | some (p, _) ↦ (true, record e { val = some (p, x) }, h)
        | none ↦ elim tmp [
          | none ↦ (false, e, h')
          | some p ↦ (true, record e { val = some (p, x) }, h')
        ]
      ]

  -- `Entry::deconstruct`
  unfoldable pub deconstruct : Entry K V → A.Heap → Entry K V × A.Heap
  deconstruct e h = elim e.val [
    | none ↦ (e, h)
    | some (p, x) ↦ (record e { val = none }, A.deallocate (some p) (P.value.destroy x h))
  ]

  -- `~Entry` only asserts that no value is left.
  abbrev pub entry_element : Element A (Entry K V)
  entry_element = record { size_of = P.entry_size; destroy = λ e h. h }

  -- `~Bucket`
  abbrev pub bucket_element : Element A (Bucket K V)
  bucket_element = record { size_of = P.bucket_size; destroy = destruct entry_element }

  -- The search loop of the four bucket operations: the first entry under the key.
  unfoldable pub find_index : List (Entry K V) → K → Option ℕ
  find_index [] k = none
  find_index (e ∷ es) k =
      let rest = find_index es k in
      if P.eq e.key k then some 0 else elim rest [ none ↦ none | some i ↦ some (i + 1) ]

  -- `Bucket::get`
  unfoldable pub get : Bucket K V → K → Option V
  get b k = elim (find_index b.items k) [
    | none ↦ none
    | some i ↦ elim (get_elem? b.items i) [ none ↦ none | some e ↦ pointee e.val ]
  ]

  -- `Bucket::bucket_remove`, by the key of the entry that is passed in
  unfoldable pub bucket_remove : Bucket K V → K → A.Heap → Bool × Bucket K V × A.Heap
  bucket_remove b k h = elim (find_index b.items k) [
    | none ↦ (false, b, h)
    | some i ↦ elim (get_elem? b.items i) [
      | none ↦ (false, b, h)
      | some e ↦
          let (e', h') = deconstruct e h in
          let (b', h'') = remove_fast entry_element (record b { items = set b.items i e' }) i h' in
          (true, b', h'')
    ]
  ]

  -- `Bucket::bucket_get_or_create_entry`
  unfoldable pub bucket_get_or_create_entry :
      Bucket K V → K → A.Heap → BucketGetOrCreateResult × Bucket K V × A.Heap
  bucket_get_or_create_entry b k h = elim (find_index b.items k) [
    | some i ↦ (found i, b, h)
    | none ↦
        let (pushed, b', h') = push_back entry_element b (new_entry k) h in
        if pushed then (created (length b.items), b', h') else (failed, b', h')
  ]

  -- `Bucket::deconstruct_all_entries`
  unfoldable pub deconstruct_entries : List (Entry K V) → A.Heap → List (Entry K V) × A.Heap
  deconstruct_entries [] h = ([], h)
  deconstruct_entries (e ∷ es) h =
      let (e', h') = deconstruct e h in
      let (es', h'') = deconstruct_entries es h' in (e' ∷ es', h'')

  unfoldable pub deconstruct_all_entries : Bucket K V → A.Heap → Bucket K V × A.Heap
  deconstruct_all_entries b h =
      let (es, h') = deconstruct_entries b.items h in (record b { items = es }, h')

  -- `Bucket::delete_all_entries`
  unfoldable pub delete_all_entries : Bucket K V → A.Heap → Bucket K V × A.Heap
  delete_all_entries b h = let (b', h') = deconstruct_all_entries b h in clear entry_element b' h'
