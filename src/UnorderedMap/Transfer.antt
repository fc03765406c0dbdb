-- ===== src/UnorderedMap/Transfer.antt =====
-- The end of a round of a partial transfer: the last entry of a bucket goes.
use real_time_library.Base.{
  ◌≢◌, get_or-set_ne, ℕ, suc, ◌+◌, ◌≤◌, ◌<◌, ◌≡◌, sym, ap, inl, inr, none, some, List, [], ◌∷◌,
  ◌++◌, arith, if◌then◌else◌, length, drop_last, get_last?, length-append, eq-cases,
  append-drop_last,
}
use real_time_library.Alloc.{Alloc, size_mod}
use real_time_library.Vector.{new}
use real_time_library.Vector.Removal.{pop_back-append}
use real_time_library.Bucket.{Params, Entry, entry_element}
use real_time_library.Bucket.Search.{find, count, eq_self}
use real_time_library.Bucket.Removal.{find-snoc, find-count_zero}
use real_time_library.Table.{Table, bucket_at, set_bucket, get_bucket_index, decrement}
use real_time_library.Table.View.{IsValid, view, Changes, set_bucket-Changes, length-le-entries}
use real_time_library.UnorderedMap.{drop_entry}

-- A table whose other buckets are as before, after `spent` of a budget was used on bucket `i`.
pub record Drained {K V : Type 0} (i budget : ℕ) (main : Table K V) (left : ℕ) (main' : Table K V)
    : Type 0 where
  pub spent : main'.total_entries + budget ≡ main.total_entries + left
  pub others : (j : ℕ) → j ≢ i → bucket_at main' j ≡ bucket_at main j

module _ {A : Alloc} {K V : Type 0} (P : Params A K V) where
  module _ {t : Table K V} (valid : IsValid P t) (small : t.total_entries < size_mod) (i : ℕ)
      (e : Entry K V) (last : get_last? (bucket_at t i).items ≡ some e) (h : A.Heap) where
    abbrev items : List (Entry K V)
    items = (bucket_at t i).items

    abbrev others : List (Entry K V)
    others = drop_last items

    whole : others ++ e ∷ [] ≡ items
    whole = append-drop_last items e last

    snoc :
        (q : K)
        → (find P q items ≡ (if P.eq e.key q then some e.val else find P q others))
          × (count P q items ≡ (if P.eq e.key q then suc (count P q others) else count P q others))
    snoc q = rw whole at (find-snoc P q others e (rw (sym whole) at ((valid.placed q i).0)))

    home : get_bucket_index P t e.key ≡ i
    home = elim (eq-cases (get_bucket_index P t e.key) i) [
      | inl same ↦ same
      | inr ne ↦
          absurd (ground (arith, (snoc e.key).1, eq_self P e.key, (valid.placed e.key i).1 ne))
    ]

    pub view-last : view P t e.key ≡ some e.val
    view-last = rw (home, (snoc e.key).0, eq_self P e.key)

    drop_entry-run : drop_entry P t i h ≡ (
      record (set_bucket t i (record (bucket_at t i) { items = others })) {
        total_entries = decrement t.total_entries;
      },
      h,
    )
    unfolding drop_entry
    drop_entry-run = rw (pop_back-append (entry_element P) (bucket_at t i) others e h (sym whole))

    pub drop_entry-Changes :
        Changes P t e.key none (drop_entry P t i h).0
        × ((drop_entry P t i h).0.total_entries + 1 ≡ t.total_entries)
    drop_entry-Changes = rw drop_entry-run (rw home at changes, omega (arith, some_entry))
      where
        some_entry : 0 < t.total_entries
        some_entry = omega (
          arith,
          valid.counted,
          length-le-entries t.buckets.items i,
          ap length whole,
          length-append others (e ∷ []),
        )

        finds :
            (q : K)
            → find P q others ≡ (
                if P.eq e.key q
                then none
                else find P q (bucket_at t (get_bucket_index P t e.key)).items)
        finds q = rw home (ground (arith, snoc q, (valid.placed q i).0, find-count_zero P q others))

        counts :
            (q : K)
            → count P q others ≤ (
                if P.eq e.key q
                then 1
                else count P q (bucket_at t (get_bucket_index P t e.key)).items)
        counts q = rw home (ground (arith, snoc q, (valid.placed q i).0))

        changes :
            Changes P t e.key none
              (record (set_bucket t
                (get_bucket_index P t e.key)
                (record (bucket_at t i) { items = others })) {
                  total_entries = decrement t.total_entries;
                })
        changes =
            set_bucket-Changes P valid e.key none (record (bucket_at t i) { items = others })
              (decrement t.total_entries) finds counts
              (rw home (omega (arith, some_entry, ap length whole, length-append others (e ∷ []))))

    pub drop_entry-Drained : Drained i 1 t 0 (drop_entry P t i h).0
    drop_entry-Drained = record {
      spent = omega (arith, drop_entry-Changes.1);
      others = λ j ne. rw drop_entry-run (
          get_or-set_ne t.buckets.items i j (record (bucket_at t i) { items = others }) new
            (λ e. ne (sym e)));
    }
