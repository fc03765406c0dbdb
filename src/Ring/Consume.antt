-- ===== src/Ring/Consume.antt =====
-- `read` against the queue of bytes held.
use real_time_library.Base.{
  ℕ, ◌+◌, ◌-◌, ◌≤◌, ◌<◌, min, ◌≡◌, refl, ◌⊎◌, inl, inr, Option, some, List, ◌++◌, arith, ltb, leb,
  if◌then◌else◌, length, take, drop, list_ext, le→leb, lt→leb, lt→ltb, le→ltb, ne→eqb, lt-cases,
  eq-cases, get_elem?-beyond,
}
use real_time_library.Ring.{Ring, add_u32, sub_u32, read, read_copy, memcpy, ◌>>=◌}
use real_time_library.Ring.Copy.{memcpy_inside}
use real_time_library.Ring.Inv.{
  IsValid, span, contents, size, size-lt-capacity, get_bytes_written-eq-size,
}
use real_time_library.Ring.Write.{positions}
use real_time_library.Ring.Produce.{advance, advance-mod}

-- How many bytes of the output `read` fills to deliver `amt` bytes.
abbrev pub spread : Ring → ℕ → ℕ
spread r amt =
    if leb r.read_index r.write_index
    then amt
    else (if leb amt (r.capacity - r.read_index) then r.capacity - r.read_index else amt)

-- What a successful read of `amt` bytes leaves.
pub record Delivers (r : Ring) (amt : ℕ) (out : List ℕ) (r' : Ring) : Type 0 where
  pub valid : IsValid r'
  pub bytes : take amt out ≡ take amt (contents r)
  pub rest : contents r' ≡ drop amt (contents r)
  pub capacity : r'.capacity ≡ r.capacity
  pub unwritten : r'.write_index ≡ r.write_index

-- The output after a copy in two parts, up to the end of the buffer and on from its start.
abbrev pub two_parts : List ℕ → List ℕ → ℕ → ℕ → ℕ → List ℕ
two_parts out buf cap rd amt =
    take (cap - rd) (take (cap - rd) (drop rd buf) ++ drop (0 + (cap - rd)) out)
    ++ (take (amt - (cap - rd)) buf
        ++ drop (cap - rd + (amt - (cap - rd)))
            (take (cap - rd) (drop rd buf) ++ drop (0 + (cap - rd)) out))

module _ (buf : List ℕ) (cap rd w amt : ℕ) (full : length buf ≡ cap) where
  pub drop-span_ahead :
      rd ≤ w → w < cap → rd + amt ≤ w → span buf (rd + amt) w ≡ drop amt (span buf rd w)
  drop-span_ahead h k m =
      rw (le→leb _ _ h, le→leb _ _ m)
        (list_ext _ _ λ i. simp positions (ground (arith, get_elem?-beyond buf)))

  pub drop-span_behind : w < rd → rd + amt < cap → span buf (rd + amt) w ≡ drop amt (span buf rd w)
  drop-span_behind h k =
      rw (lt→leb _ _ h, lt→leb (rd + amt) w (omega arith))
        (list_ext _ _ λ i. simp positions (ground (arith, get_elem?-beyond buf)))

  pub drop-span_round :
      w < rd
      → rd < cap
      → cap ≤ rd + amt
      → rd + amt ≤ cap + w
      → span buf (rd + amt - cap) w ≡ drop amt (span buf rd w)
  drop-span_round h k m e =
      rw (lt→leb _ _ h, le→leb (rd + amt - cap) w (omega arith))
        (list_ext _ _ λ i. simp positions (ground (arith, get_elem?-beyond buf)))

  take-two_parts :
      (out : List ℕ)
      → w < rd
      → rd < cap
      → rd + amt ≤ cap + w
      → cap - rd ≤ length out
      → amt ≤ length out
      → take amt (two_parts out buf cap rd amt) ≡ take amt (span buf rd w)
  take-two_parts out h k m long enough =
      rw (lt→leb _ _ h) (list_ext _ _ λ i. simp positions (ground (arith, get_elem?-beyond buf)))

-- Moving the read index on by `amt` bytes that are held takes them off the queue.
pub contents-take_read :
    {r : Ring} (v : IsValid r) (amt : ℕ)
    → amt ≤ size r
    → contents (record r { read_index = advance r.capacity r.read_index amt })
      ≡ drop amt (contents r)
contents-take_read {r} v amt held = elim (lt-cases r.write_index r.read_index) [
  | inr h ↦
      let within : r.read_index + amt ≤ r.write_index = ground arith in
      rw (lt→ltb (r.read_index + amt) r.capacity (omega arith)) (
        drop-span_ahead r.buf r.capacity r.read_index r.write_index amt v.storage h v.write_in
          within)
  | inl h ↦ behind h (lt-cases (r.read_index + amt) r.capacity)
]
  where
    behind :
        r.write_index < r.read_index
        → (r.read_index + amt < r.capacity) ⊎ (r.capacity ≤ r.read_index + amt)
        → contents (record r { read_index = advance r.capacity r.read_index amt })
          ≡ drop amt (contents r)
    behind h (inl k) =
        rw (lt→ltb _ _ k)
          (drop-span_behind r.buf r.capacity r.read_index r.write_index amt v.storage h k)
    behind h (inr k) = rw (le→ltb _ _ k) (
        drop-span_round r.buf r.capacity r.read_index r.write_index amt v.storage h v.read_in k
          (ground arith))

module _ {r : Ring} (v : IsValid r) (output : List ℕ) (amt : ℕ) (held : amt ≤ size r)
    (long : spread r amt ≤ length output) where
  abbrev taken : Ring
  taken = record r { read_index = advance r.capacity r.read_index amt }

  -- The copy of `read`, from the read index on.
  copied : Option (List ℕ)
  copied =
      if leb r.read_index r.write_index
      then memcpy output 0 r.buf r.read_index amt
      else (memcpy output 0 r.buf r.read_index (r.capacity - r.read_index) >>= λ out.
          memcpy out (r.capacity - r.read_index) r.buf 0 (amt - (r.capacity - r.read_index)))

  -- One copy delivers the bytes where they do not go round the end.
  take-one_part :
      r.read_index ≤ r.write_index
      → take amt (take amt (drop r.read_index r.buf) ++ drop (0 + amt) output)
        ≡ take amt (contents r)
  take-one_part h =
      let within : amt ≤ r.write_index - r.read_index = ground arith in
      rw (le→leb _ _ h) (list_ext _ _ λ i. simp positions (ground (arith, get_elem?-beyond r.buf)))

  two_copies :
      r.write_index < r.read_index
      → (memcpy output 0 r.buf r.read_index (r.capacity - r.read_index) >>= λ out.
          memcpy out (r.capacity - r.read_index) r.buf 0 (amt - (r.capacity - r.read_index)))
        ≡ some (two_parts output r.buf r.capacity r.read_index amt)
  two_copies h =
      rw
        (
          memcpy_inside output 0 r.buf r.read_index (r.capacity - r.read_index) (ground arith)
              (ground arith),
          ◌>>=◌,
        )
        (memcpy_inside _ (r.capacity - r.read_index) r.buf 0 (amt - (r.capacity - r.read_index))
          (simp positions (ground arith)) (ground arith))

  copied-Delivers : (out : List ℕ) × (copied ≡ some out) × Delivers r amt out taken
  unfolding copied
  copied-Delivers = elim (lt-cases r.write_index r.read_index) [
    | inr h ↦ (
      take amt (drop r.read_index r.buf) ++ drop (0 + amt) output,
      rw (le→leb _ _ h)
          (memcpy_inside output 0 r.buf r.read_index amt (ground arith) (ground arith)),
      record {
        valid = ground arith;
        bytes = take-one_part h;
        rest = contents-take_read v amt held;
        capacity = refl;
        unwritten = refl;
      },
    )
    | inl h ↦ (
      two_parts output r.buf r.capacity r.read_index amt,
      rw (lt→leb _ _ h) (two_copies h),
      record {
        valid = ground arith;
        bytes =
            take-two_parts r.buf r.capacity r.read_index r.write_index amt v.storage output h
              v.read_in (ground arith) (ground arith) (ground arith);
        rest = contents-take_read v amt held;
        capacity = refl;
        unwritten = refl;
      },
    )
  ]

  -- The copies of `read` deliver the bytes.
  pub read_copy-Delivers :
      (out : List ℕ) × (read_copy r output amt r.write_index r.read_index ≡ some out)
      × Delivers r amt out taken
  unfolding read_copy copied
  read_copy-Delivers =
      let (out, run, done) = copied-Delivers in (out, rw (until_end, from_beginning) run, done)
    where
      until_end : add_u32 (sub_u32 r.writable_capacity r.read_index) 1 ≡ r.capacity - r.read_index
      until_end = omega arith

      from_beginning :
          (if ltb amt (r.capacity - r.read_index)
            then 0
            else sub_u32 amt (r.capacity - r.read_index))
          ≡ amt - (r.capacity - r.read_index)
      from_beginning = ground (arith, size-lt-capacity v)

-- How many bytes a call of `read` delivers.
abbrev pub amount : Ring → ℕ → ℕ
amount r max_read = min max_read (size r)

-- `max_read`, cut down to the writable capacity.
abbrev clamp : Ring → ℕ → ℕ
clamp r max_read = if ltb r.writable_capacity max_read then r.writable_capacity else max_read

-- `read` delivers the oldest bytes, as many as are asked for and held, takes them off the queue and
-- keeps the invariant, where the output buffer is as long as the copy reaches.
pub read-Delivers :
    {r : Ring} (output : List ℕ) (max_read : ℕ)
    → IsValid r
    → spread r (amount r max_read) ≤ length output
    → (out : List ℕ) × (r' : Ring) × (read r (some output) max_read
        ≡ some (amount r max_read, some out, r'))
      × Delivers r (amount r max_read) out r'
unfolding read copied
read-Delivers {r} output max_read v long = elim (eq-cases (clamp r max_read) 0) [
  | inl e ↦ (
    output,
    r,
    rw (e, nothing e),
    record {
      valid = v;
      bytes = rw (nothing e);
      rest = rw (nothing e);
      capacity = refl;
      unwritten = refl;
    },
  )
  | inr ne ↦
      let (out, run, done) = copied-Delivers v output (amount r max_read) (omega arith) long in
      (
        out,
        taken v output (amount r max_read) (omega arith) long,
        rw (
          get_bytes_written-eq-size v,
          clamped,
          ne→eqb (clamp r max_read) 0 ne,
          until_end,
          from_beginning,
          run,
          ◌>>=◌,
          advance-mod r.read_index (amount r max_read) v v.read_in
              (ground (arith, size-lt-capacity v)),
        ),
        done,
      )
]
  where
    nothing : clamp r max_read ≡ 0 → amount r max_read ≡ 0
    nothing e = ground (arith, size-lt-capacity v)

    clamped : min (clamp r max_read) (size r) ≡ amount r max_read
    clamped = ground (arith, size-lt-capacity v)

    until_end : add_u32 (sub_u32 r.writable_capacity r.read_index) 1 ≡ r.capacity - r.read_index
    until_end = omega arith

    from_beginning :
        (if ltb (amount r max_read) (r.capacity - r.read_index)
          then 0
          else sub_u32 (amount r max_read) (r.capacity - r.read_index))
        ≡ amount r max_read - (r.capacity - r.read_index)
    from_beginning = ground (arith, size-lt-capacity v)
