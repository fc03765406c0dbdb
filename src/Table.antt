-- ===== src/Table.antt =====
-- librtlcpp/include/rtlcpp/map.hpp: the struct `Table` of `rtl::unordered_map`.
-- A reference to an entry is the index of its bucket with its index in the bucket.
pub mod View
pub mod Methods
pub mod Lookup
pub mod Fresh
use real_time_library.Base.{
  ℕ, zero, suc, ◌+◌, ◌-◌, ◌*◌, ◌/◌, ◌%◌, ◌^◌, ◌≤◌, ◌<◌, min, ◌≡◌, refl, sym, ap, ap₂, ◌∙◌, ◌≢◌, ◌⊎◌,
  inl, inr, ◌↔◌, Bool, true, false, not, ◌&&◌, ◌||◌, Option, none, some, List, [], ◌∷◌, ◌++◌, arith,
  ltb, leb, ◌==◌, if◌then◌else◌, length, get_elem?, get_or, set, take, drop, replicate, drop_last,
  get_last?, list_ext, get_elem?-take, get_elem?-drop, get_elem?-append, length-take, length-drop,
  length-append, le→leb, lt→leb, leb→le, ltb→lt, lt→ltb, le→ltb, ltb→le, eqb→eq, eqb→ne, eqb_refl,
  ne→eqb, lt-cases, eq-cases, Bool-cases, Option-cases, length-set, length-replicate,
  length-drop_last, drop_last-append, get_last?-append, append-drop_last, take-all, get_or-set_self,
  get_or-set_ne, get_elem?-eq-get_or, get_elem?-beyond, get_elem?-set, get_elem?-drop_last,
  set-beyond,
}
use real_time_library.Alloc.{Alloc, Element, size_mod}
use real_time_library.Primes.{get_prime_power_of_2}
use real_time_library.Vector.{Vector, new, reserve, push_back, destruct}
use real_time_library.Bucket.{
  Params, Entry, Bucket, BucketGetOrCreateResult, found, created, failed, bucket_element, new_entry,
  pointee, construct, find_index, bucket_remove, bucket_get_or_create_entry,
  deconstruct_all_entries, delete_all_entries,
}
use real_time_library.Bucket

pub record Table (K V : Type 0) : Type 0 where
  pub buckets : Vector (Bucket K V)
  pub total_entries : ℕ
  pub num_buckets : ℕ
  pub power_of_2_size : ℕ

-- `TableGetOrCreateResult`: the bucket, the entry, and whether it is new; null pointers are `none`
abbrev pub TableGetOrCreateResult : Type 0
TableGetOrCreateResult = Option (ℕ × ℕ × Bool)

module _ {K V : Type 0} where
  -- `m_buckets[i]`
  abbrev pub bucket_at : Table K V → ℕ → Bucket K V
  bucket_at t i = get_or t.buckets.items i new

  -- The table after a change to a bucket.
  abbrev pub set_bucket : Table K V → ℕ → Bucket K V → Table K V
  set_bucket t i b = record t { buckets = record t.buckets { items = set t.buckets.items i b } }

  -- The table after a change to an entry.
  abbrev pub set_entry : Table K V → ℕ → ℕ → Entry K V → Table K V
  set_entry t i j e =
      set_bucket t i (record (bucket_at t i) { items = set (bucket_at t i).items j e })

  -- `get_next_power_of_2`
  abbrev pub get_next_power_of_2 : Table K V → ℕ
  get_next_power_of_2 t = (t.power_of_2_size + 1) % 2 ^ 8

-- `size_t` increment and decrement
abbrev pub increment : ℕ → ℕ
increment n = (n + 1) % size_mod

abbrev pub decrement : ℕ → ℕ
decrement n = (n + size_mod - 1) % size_mod

module _ {A : Alloc} {K V : Type 0} (P : Params A K V) where
  -- The loop of `expand`, `left` rounds before the end, after `i` buckets
  unfoldable pub push_buckets :
      ℕ → ℕ → Vector (Bucket K V) → A.Heap → ℕ × Vector (Bucket K V) × A.Heap
  push_buckets zero i bs h = (i, bs, h)
  push_buckets (suc left) i bs h =
      let (pushed, bs', h') = push_back (bucket_element P) bs new h in
      elim pushed [ true ↦ push_buckets left (i + 1) bs' h' | false ↦ (i, bs', h') ]

  -- `expand`, on the empty vector of the constructor; the result of `reserve` is not looked at
  unfoldable pub expand : ℕ → A.Heap → ℕ × Vector (Bucket K V) × A.Heap
  expand num h = let (_, bs, h') = reserve (bucket_element P) new num h in push_buckets num 0 bs h'

  -- The bounds of the constructor on `initial_power_of_2`
  unfoldable pub clamp_power : ℕ → ℕ
  clamp_power n = let m = if leb 32 n then 31 else n in if ltb m 4 then 4 else m

  -- `Table(alloc, initial_power_of_2)`
  unfoldable pub new_table : ℕ → A.Heap → Table K V × A.Heap
  new_table initial_power_of_2 h =
      let power = clamp_power initial_power_of_2 in
      let (count, bs, h') = expand (get_prime_power_of_2 power) h in
      (record { buckets = bs; total_entries = 0; num_buckets = count; power_of_2_size = power }, h')

  -- `~Table`
  unfoldable pub destruct_table : Table K V → A.Heap → A.Heap
  destruct_table t h = destruct (bucket_element P) t.buckets h

  -- `get_bucket_index`
  unfoldable pub get_bucket_index : Table K V → K → ℕ
  get_bucket_index t k = P.hash k % t.num_buckets

  -- `Table::get`
  unfoldable pub get : Table K V → K → Option V
  get t k = if t.num_buckets == 0 then none else Bucket.get P (bucket_at t (get_bucket_index t k)) k

  -- `table_get_entry`
  unfoldable pub table_get_entry : Table K V → K → Option (ℕ × ℕ)
  table_get_entry t k =
      let i = get_bucket_index t k in
      if t.num_buckets == 0
      then none
      else elim (find_index P (bucket_at t i).items k) [ none ↦ none | some j ↦ some (i, j) ]

  -- `table_get_or_create_entry`
  unfoldable pub table_get_or_create_entry :
      Table K V → K → A.Heap → TableGetOrCreateResult × Table K V × A.Heap
  table_get_or_create_entry t k h =
      let i = get_bucket_index t k in
      let (res, b, h') = bucket_get_or_create_entry P (bucket_at t i) k h in
      if t.num_buckets == 0 then (none, t, h) else elim res [
        | found j ↦ (some (i, j, false), set_bucket t i b, h')
        | created j ↦ (
          some (i, j, true),
          record (set_bucket t i b) { total_entries = increment t.total_entries },
          h',
        )
        | failed ↦ (none, set_bucket t i b, h')
      ]

  -- `Table::del`
  unfoldable pub del : Table K V → K → A.Heap → Bool × Table K V × A.Heap
  del t k h =
      let i = get_bucket_index t k in
      let (removed, b, h') = bucket_remove P (bucket_at t i) k h in
      if t.num_buckets == 0
      then (false, t, h)
      else (if removed
          then (true, record (set_bucket t i b) { total_entries = decrement t.total_entries }, h')
          else (false, set_bucket t i b, h'))

  -- The loops over all buckets
  unfoldable pub each_bucket :
      (Bucket K V → A.Heap → Bucket K V × A.Heap)
      → List (Bucket K V)
      → A.Heap
      → List (Bucket K V) × A.Heap
  each_bucket f [] h = ([], h)
  each_bucket f (b ∷ bs) h =
      let (b', h') = f b h in let (bs', h'') = each_bucket f bs h' in (b' ∷ bs', h'')

  -- `table_deconstruct_all_entries`
  unfoldable pub table_deconstruct_all_entries : Table K V → A.Heap → Table K V × A.Heap
  table_deconstruct_all_entries t h =
      let (bs, h') = each_bucket (deconstruct_all_entries P) t.buckets.items h in
      (record t { buckets = record t.buckets { items = bs } }, h')

  -- `table_delete_all_entries`
  unfoldable pub table_delete_all_entries : Table K V → A.Heap → Table K V × A.Heap
  table_delete_all_entries t h =
      let (bs, h') = each_bucket (delete_all_entries P) t.buckets.items h in
      (record t { buckets = record t.buckets { items = bs }; total_entries = 0 }, h')
