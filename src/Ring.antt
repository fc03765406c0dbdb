-- ===== src/Ring.antt =====
-- librtlcpp/ring_buffer.cpp and librtlcpp/include/rtlcpp/ring_buffer.hpp: `spsc_ringbuffer`.
-- The memory behind `m_buf` is the list `buf` (no bytes behind a null pointer); a byte is a
-- number. An access outside of a buffer is the fault `none`.
pub mod Copy
pub mod Inv
pub mod Write
pub mod Produce
pub mod Consume
pub mod Room
pub mod Blocks
pub mod Faults
pub mod Threads
use real_time_library.Base.{
  ℕ, ◌+◌, ◌-◌, ◌%◌, ◌^◌, min, Bool, true, false, not, ◌&&◌, Option, none, some, List, [], ◌∷◌, ◌++◌,
  ltb, leb, ◌==◌, if◌then◌else◌, length, take, drop,
}

-- Arithmetic of `uint32_t`.
abbrev pub u32_mod : ℕ
u32_mod = 2 ^ 32

abbrev pub add_u32 : ℕ → ℕ → ℕ
add_u32 a b = (a + b) % u32_mod

abbrev pub sub_u32 : ℕ → ℕ → ℕ
sub_u32 a b = (a + u32_mod - b) % u32_mod

-- The data members, but for the padding.
pub record Ring : Type 0 where
  pub initialized : Bool
  pub buf : List ℕ
  pub capacity : ℕ
  pub writable_capacity : ℕ
  pub read_index : ℕ
  pub write_index : ℕ

-- `spsc_ringbuffer(buf, capacity)`
unfoldable pub construct : List ℕ → ℕ → Ring
construct buf capacity = record {
  initialized = true;
  buf = buf;
  capacity = capacity;
  writable_capacity = if ltb 0 capacity then sub_u32 capacity 1 else 0;
  read_index = 0;
  write_index = 0;
}

-- `spsc_ringbuffer()`
abbrev pub default_ring : Ring
default_ring = record {
  initialized = false;
  buf = [];
  capacity = 0;
  writable_capacity = 0;
  read_index = 0;
  write_index = 0;
}

-- What a move leaves behind: the indices are only copied.
unfoldable pub moved_from : Ring → Ring
moved_from o = record o { initialized = false; buf = []; capacity = 0; writable_capacity = 0 }

-- `spsc_ringbuffer(spsc_ringbuffer&&)`: the new object, and the one moved from.
unfoldable pub move_construct : Ring → Ring × Ring
unfolding moved_from
move_construct o = (o, moved_from o)

-- `operator=(spsc_ringbuffer&&)` between two objects: the target, and the one moved from.
unfoldable pub move_assign : Ring → Ring → Ring × Ring
unfolding moved_from
move_assign self o = (o, moved_from o)

-- `init`
unfoldable pub init : Ring → List ℕ → ℕ → Ring
unfolding construct move_assign
init self buf capacity =
    if self.initialized then self else (move_assign self (construct buf capacity)).0

-- `empty`
unfoldable pub empty : Ring → Bool
empty r = r.read_index == r.write_index

-- `get_bytes_written`
unfoldable pub get_bytes_written : Ring → ℕ → ℕ → ℕ
get_bytes_written r write_index read_index =
    if leb read_index write_index
    then sub_u32 write_index read_index
    else add_u32 (add_u32 (sub_u32 r.writable_capacity read_index) 1) write_index

-- `approx_size`, with no other thread between the two loads
unfoldable pub approx_size : Ring → ℕ
unfolding get_bytes_written
approx_size r = get_bytes_written r r.write_index r.read_index

-- `approx_free_bytes`
unfoldable pub approx_free_bytes : Ring → ℕ
unfolding approx_size
approx_free_bytes r = sub_u32 r.writable_capacity (approx_size r)

-- The bytes of `src` over those of `dst`.
abbrev pub overlay : List ℕ → List ℕ → List ℕ
overlay dst [] = dst
overlay [] (x ∷ src) = []
overlay (d ∷ dst) (x ∷ src) = x ∷ overlay dst src

-- `memcpy(dst + at, src + from, n)`
unfoldable pub memcpy : List ℕ → ℕ → List ℕ → ℕ → ℕ → Option (List ℕ)
memcpy dst at src from n =
    if leb (at + n) (length dst) && leb (from + n) (length src)
    then some (take at dst ++ overlay (drop at dst) (take n (drop from src)))
    else none

infixl 5 ◌>>=◌
abbrev pub ◌>>=◌ {ℓ κ} : {A : Type ℓ} {B : Type κ} → Option A → (A → Option B) → Option B
none >>= f = none
some a >>= f = f a

-- `priv_write`: the buffer afterwards
unfoldable pub priv_write : Ring → List ℕ → ℕ → ℕ → ℕ → Option (List ℕ)
priv_write r input amt write_index read_index =
    if leb read_index write_index
    then (let until_end = add_u32 (sub_u32 r.writable_capacity write_index) 1 in
        let from_beginning = if ltb amt until_end then 0 else sub_u32 amt until_end in
        memcpy r.buf write_index input 0 until_end >>= λ buf.
        memcpy buf 0 input until_end from_beginning)
    else memcpy r.buf write_index input 0 amt

-- The tail that `write` and `write_bytes` share: the copy, then the store of the write index,
-- which is moved on by `sz`.
unfoldable pub copy_and_store : Ring → List ℕ → ℕ → ℕ → Option Ring
unfolding priv_write
copy_and_store r input amt sz = priv_write r input amt r.write_index r.read_index >>= λ buf.
    some (record r { buf = buf; write_index = add_u32 r.write_index sz % r.capacity })

-- `write_bytes`; a null input is `none`
unfoldable pub write_bytes : Ring → Option (List ℕ) → ℕ → Option (ℕ × Ring)
write_bytes r none sz = some (0, r)
write_bytes r (some input) sz_arg =
    let sz = if ltb r.writable_capacity sz_arg then r.writable_capacity else sz_arg in
    let bytes_written = get_bytes_written r r.write_index r.read_index in
    let space_left = sub_u32 r.writable_capacity bytes_written in
    let amt = min sz space_left in
    if sz == 0 then some (0, r) else (copy_and_store r input amt sz >>= λ r'. some (amt, r'))

-- `write`
unfoldable pub write : Ring → Option (List ℕ) → ℕ → Option (Bool × Ring)
write r input_arg sz =
    if ltb r.writable_capacity sz
    then some (false, r)
    else (if sz == 0 then some (true, r) else elim input_arg [
      | none ↦ some (false, r)
      | some input ↦
          let bytes_written = get_bytes_written r r.write_index r.read_index in
          let space_left = sub_u32 r.writable_capacity bytes_written in
          if ltb space_left sz
          then some (false, r)
          else (copy_and_store r input (min sz space_left) sz >>= λ r'. some (true, r'))
    ])

-- The copies of `read`: the output afterwards
unfoldable pub read_copy : Ring → List ℕ → ℕ → ℕ → ℕ → Option (List ℕ)
read_copy r output amt write_index read_index =
    if leb read_index write_index
    then memcpy output 0 r.buf read_index amt
    else (let until_end = add_u32 (sub_u32 r.writable_capacity read_index) 1 in
        let from_beginning = if ltb amt until_end then 0 else sub_u32 amt until_end in
        memcpy output 0 r.buf read_index until_end >>= λ out.
        memcpy out until_end r.buf 0 from_beginning)

-- `read`: the number of bytes, the output buffer and the ring
unfoldable pub read : Ring → Option (List ℕ) → ℕ → Option (ℕ × Option (List ℕ) × Ring)
unfolding read_copy
read r none max_read = some (0, none, r)
read r (some output) max_read_arg =
    let max_read =
      if ltb r.writable_capacity max_read_arg then r.writable_capacity else max_read_arg in
    let bytes_written = get_bytes_written r r.write_index r.read_index in
    let amt = min max_read bytes_written in
    if max_read == 0
    then some (0, some output, r)
    else (read_copy r output amt r.write_index r.read_index >>= λ out.
        some (amt, some out, record r { read_index = add_u32 r.read_index amt % r.capacity }))

-- What `alloc_contig` and `read_contig` hand out: the offset into the buffer, `*sz`, and
-- `*end_of_buffer_ptr`, which are left alone when the block is as large as requested.
pub record Contig : Type 0 where
  pub offset : ℕ
  pub size : ℕ
  pub end_of_buffer : Bool

-- `alloc_contig`
unfoldable pub alloc_contig : Ring → ℕ → Bool → Contig
alloc_contig r requested_size end_of_buffer_arg =
    let w = r.write_index in
    let rd = r.read_index in
    let tail = sub_u32 r.writable_capacity w in
    let largest =
      if leb rd w then (if rd == 0 then tail else add_u32 tail 1) else sub_u32 (sub_u32 rd w) 1 in
    let end_of_buffer = if leb rd w then not (rd == 0) else false in
    if ltb largest requested_size
    then record { offset = w; size = largest; end_of_buffer = end_of_buffer }
    else record { offset = w; size = requested_size; end_of_buffer = end_of_buffer_arg }

-- `alloc_result`; a null pointer is `none`, any other an offset into the buffer
pub record AllocResult : Type 0 where
  pub first_buf : Option ℕ
  pub first_buf_sz : ℕ
  pub second_buf : Option ℕ
  pub second_buf_sz : ℕ
  pub write_ahead_of_read : Bool

-- `compound_alloc_contig`
unfoldable pub compound_alloc_contig : Ring → AllocResult
unfolding get_bytes_written
compound_alloc_contig r =
    let w = r.write_index in
    let rd = r.read_index in
    let ahead = leb rd w in
    let free_bytes = sub_u32 r.writable_capacity (get_bytes_written r w rd) in
    let tail = sub_u32 r.writable_capacity w in
    let largest =
      if ahead then (if rd == 0 then tail else add_u32 tail 1) else sub_u32 (sub_u32 rd w) 1 in
    let rest = sub_u32 free_bytes largest in
    let none_free : AllocResult = record {
      first_buf = none;
      first_buf_sz = 0;
      second_buf = none;
      second_buf_sz = 0;
      write_ahead_of_read = ahead;
    } in
    if largest == 0
    then none_free
    else (if rest == 0
        then record none_free { first_buf = some w; first_buf_sz = largest }
        else record none_free {
          first_buf = some w;
          first_buf_sz = largest;
          second_buf = some 0;
          second_buf_sz = rest;
        })

-- `commit_write`
unfoldable pub commit_write : Ring → ℕ → Ring
commit_write r sz =
    if sz == 0 then r else record r { write_index = add_u32 r.write_index sz % r.capacity }

-- `read_contig`
unfoldable pub read_contig : Ring → ℕ → Bool → Contig
read_contig r requested_size end_of_buffer_arg =
    let w = r.write_index in
    let rd = r.read_index in
    let largest = if leb rd w then sub_u32 w rd else add_u32 (sub_u32 r.writable_capacity rd) 1 in
    let end_of_buffer = if leb rd w then false else true in
    if ltb largest requested_size
    then record { offset = rd; size = largest; end_of_buffer = end_of_buffer }
    else record { offset = rd; size = requested_size; end_of_buffer = end_of_buffer_arg }

-- `commit_read`
unfoldable pub commit_read : Ring → ℕ → Ring
commit_read r sz =
    if sz == 0 then r else record r { read_index = add_u32 r.read_index sz % r.capacity }
