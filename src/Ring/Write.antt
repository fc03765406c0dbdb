-- ===== src/Ring/Write.antt =====
-- `write`, `write_bytes` and `priv_write`: what is stored, and which inputs they can take.
use real_time_library.Base.{
  ℕ, zero, suc, ◌+◌, ◌-◌, ◌*◌, ◌/◌, ◌%◌, ◌^◌, ◌≤◌, ◌<◌, min, ◌≡◌, refl, sym, ap, ap₂, ◌∙◌, ◌≢◌, ◌⊎◌,
  inl, inr, ◌↔◌, Bool, true, false, not, ◌&&◌, ◌||◌, Option, none, some, List, [], ◌∷◌, ◌++◌, arith,
  ltb, leb, ◌==◌, if◌then◌else◌, length, get_elem?, get_or, set, take, drop, replicate, drop_last,
  get_last?, list_ext, get_elem?-take, get_elem?-drop, get_elem?-append, length-take, length-drop,
  length-append, le→leb, lt→leb, leb→le, ltb→lt, lt→ltb, le→ltb, ltb→le, eqb→eq, eqb→ne, eqb_refl,
  ne→eqb, lt-cases, eq-cases, Bool-cases, Option-cases, length-set, length-replicate,
  length-drop_last, drop_last-append, get_last?-append, append-drop_last, take-all, get_or-set_self,
  get_or-set_ne, get_elem?-eq-get_or, get_elem?-beyond, get_elem?-set,
}
use mathlib.Core.List.{append-nil}
use real_time_library.Ring.{Ring, add_u32, sub_u32, priv_write, memcpy, ◌>>=◌}
use real_time_library.Ring.Copy.{memcpy_inside}
use real_time_library.Ring.Inv.{IsValid, span, size}

-- How many bytes of the input `priv_write` reads to write `amt` bytes: up to the end of the buffer
-- where the write index is not behind the read index, whether or not that many are written.
abbrev pub reach : Ring → ℕ → ℕ
reach r amt =
    if leb r.read_index r.write_index
    then (if leb amt (r.capacity - r.write_index) then r.capacity - r.write_index else amt)
    else amt

-- The buffer after a copy from the write index to the end, and on from the start.
abbrev pub two_chunks : List ℕ → ℕ → ℕ → List ℕ → ℕ → List ℕ
two_chunks buf cap w input amt =
    take (amt - (cap - w)) (drop (cap - w) input)
    ++ drop (0 + (amt - (cap - w))) (take w buf ++ take (cap - w) input)

abbrev pub one_chunk : List ℕ → ℕ → List ℕ → ℕ → List ℕ
one_chunk buf w input amt = take w buf ++ (take amt input ++ drop (w + amt) buf)

module _ {r : Ring} (v : IsValid r) (input : List ℕ) (amt : ℕ)
    (fits : amt + size r < r.capacity) where
  pub priv_write_behind :
      r.write_index < r.read_index
      → amt ≤ length input
      → priv_write r input amt r.write_index r.read_index
        ≡ some (one_chunk r.buf r.write_index input amt)
  unfolding priv_write
  priv_write_behind h k =
      rw (lt→leb _ _ h) (memcpy_inside r.buf r.write_index input 0 amt (ground arith) (omega arith))

  pub priv_write_ahead :
      r.read_index ≤ r.write_index
      → reach r amt ≤ length input
      → priv_write r input amt r.write_index r.read_index
        ≡ some (two_chunks r.buf r.capacity r.write_index input amt)
  unfolding priv_write
  priv_write_ahead h k =
      rw (le→leb _ _ h, until_end, from_beginning)
        (rw (first, ◌>>=◌)
          (memcpy_inside _ 0 input (cap - w) (amt - (cap - w))
            (ground (
              arith,
              length-append (take w r.buf) (take (cap - w) input),
              length-take w r.buf,
              length-take (cap - w) input,
            ))
            (ground arith)))
    where
      cap : ℕ
      cap = r.capacity

      w : ℕ
      w = r.write_index

      until_end : add_u32 (sub_u32 r.writable_capacity w) 1 ≡ cap - w
      until_end = ground arith

      from_beginning : (if ltb amt (cap - w) then 0 else sub_u32 amt (cap - w)) ≡ amt - (cap - w)
      from_beginning = ground arith

      rest : drop (w + (cap - w)) r.buf ≡ []
      rest =
          list_ext _ _
            λ i. get_elem?-drop (w + (cap - w)) r.buf i ∙ get_elem?-beyond r.buf _ (ground arith)

      first : memcpy r.buf w input 0 (cap - w) ≡ some (take w r.buf ++ take (cap - w) input)
      first =
          memcpy_inside r.buf w input 0 (cap - w) (ground arith) (ground arith)
          ∙ ap (λ l. some (take w r.buf ++ l))
              (ap (λ l. take (cap - w) input ++ l) rest ∙ append-nil _)

pub ruleset positions =
    (get_elem?-append, get_elem?-take, get_elem?-drop, length-append, length-take, length-drop)

module _ (buf input : List ℕ) (cap rd w amt : ℕ) (full : length buf ≡ cap)
    (enough : amt ≤ length input) where
  -- One copy behind the read index adds the bytes at the end.
  pub span-one_chunk :
      w < rd
      → rd < cap
      → w + amt < rd
      → span (one_chunk buf w input amt) rd (w + amt) ≡ span buf rd w ++ take amt input
  span-one_chunk h rd_in k =
      rw (lt→leb _ _ h, lt→leb _ _ k)
        (list_ext _ _ λ i. simp positions (ground (arith, get_elem?-beyond buf)))

  pub span-two_chunks_within :
      rd ≤ w
      → w + amt < cap
      → cap - w ≤ length input
      → span (two_chunks buf cap w input amt) rd (w + amt) ≡ span buf rd w ++ take amt input
  span-two_chunks_within h k long =
      let none_left : amt - (cap - w) ≡ 0 = omega arith in
      rw (le→leb rd w h, le→leb rd (w + amt) (omega arith), none_left)
        (list_ext _ _ λ i. simp positions (ground (arith, get_elem?-beyond buf)))

  pub span-two_chunks_round :
      rd ≤ w
      → w < cap
      → cap ≤ w + amt
      → w + amt - cap < rd
      → span (two_chunks buf cap w input amt) rd (w + amt - cap) ≡ span buf rd w ++ take amt input
  span-two_chunks_round h w_in k room =
      let left : amt - (cap - w) ≡ w + amt - cap = omega arith in
      rw (le→leb rd w h, lt→leb rd (w + amt - cap) room, left)
        (list_ext _ _ λ i. simp positions (ground (arith, get_elem?-beyond buf)))

  pub length-one_chunk : w + amt ≤ cap → length (one_chunk buf w input amt) ≡ cap
  length-one_chunk k = simp positions (omega arith)

  pub length-two_chunks :
      w < cap → amt < cap → cap - w ≤ length input → length (two_chunks buf cap w input amt) ≡ cap
  length-two_chunks k m long = simp positions (omega arith)
