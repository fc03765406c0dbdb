-- ===== src/Ring/Threads.antt =====
-- Two threads on one ring: `write` and `read`, an access to a shared index or to the buffer at a time.
-- Each thread owns one index, which it loads and stores alone; the index of the other may move on
-- while it works. Loads acquire and stores release, so that the bytes are there before their index.
pub mod Overlap
pub mod Fifo
pub mod Progress
use real_time_library.Base.{
  ℕ, ◌%◌, ◌≤◌, ◌<◌, min, ◌≡◌, Bool, true, false, Option, none, some, List, [], ◌++◌, ltb, length,
  take,
}
use real_time_library.Ring.{Ring, add_u32, sub_u32, get_bytes_written, priv_write, read_copy}
use real_time_library.Ring.Write.{reach}
use real_time_library.Ring.Consume.{spread}

-- Where the writing thread stands in `write`, with its local variables: outside, after the load of
-- the read index, and after the copy.
pub data Producer : Type 0 where
  idle : Producer
  loaded : (input : List ℕ) (sz read_index : ℕ) → Producer
  copied : (input : List ℕ) (sz : ℕ) → Producer

-- Where the reading thread stands in `read`: outside, after the load of the write index, and after
-- the copy of `amt` bytes into its output.
pub data Consumer : Type 0 where
  waiting : Consumer
  started : (max_read write_index : ℕ) → Consumer
  fetched : (output : List ℕ) (amt : ℕ) → Consumer

-- The ring and both threads, with all bytes that were written and all that were read.
pub record System : Type 0 where
  pub ring : Ring
  pub producer : Producer
  pub consumer : Consumer
  pub sent : List ℕ
  pub received : List ℕ

-- `space_left` of `write`, by the read index that was loaded
abbrev pub space_left_for : Ring → ℕ → ℕ
space_left_for r read_index =
    sub_u32 r.writable_capacity (get_bytes_written r r.write_index read_index)

-- `amt_bytes_to_read` of `read`, by the write index that was loaded
abbrev pub amount_for : Ring → ℕ → ℕ → ℕ
amount_for r max_read write_index = min max_read (get_bytes_written r write_index r.read_index)

-- One step of either thread. A call of `write` goes past its tests of `sz`, then may find too
-- little room; input and output are as long as the copies reach.
pub data Step (s : System) : System → Type 0 where
  load_read_index :
      (input : List ℕ) (sz : ℕ)
      → s.producer ≡ idle
      → 0 < sz
      → sz ≤ s.ring.writable_capacity
      → Step s (record s { producer = loaded input sz s.ring.read_index })
  refuse :
      (input : List ℕ) (sz read_index : ℕ)
      → s.producer ≡ loaded input sz read_index
      → ltb (space_left_for s.ring read_index) sz ≡ true
      → Step s (record s { producer = idle })
  copy_in :
      (input : List ℕ) (sz read_index : ℕ) (buf : List ℕ)
      → s.producer ≡ loaded input sz read_index
      → ltb (space_left_for s.ring read_index) sz ≡ false
      → reach (record s.ring { read_index = read_index }) sz ≤ length input
      → priv_write s.ring input sz s.ring.write_index read_index ≡ some buf
      → Step s (record s { ring = record s.ring { buf = buf }; producer = copied input sz })
  store_write_index :
      (input : List ℕ) (sz : ℕ)
      → s.producer ≡ copied input sz
      → Step s (record s {
        ring = record s.ring { write_index = add_u32 s.ring.write_index sz % s.ring.capacity };
        producer = idle;
        sent = s.sent ++ take sz input;
      })
  load_write_index :
      (max_read : ℕ)
      → s.consumer ≡ waiting
      → 0 < max_read
      → max_read ≤ s.ring.writable_capacity
      → Step s (record s { consumer = started max_read s.ring.write_index })
  copy_out :
      (max_read write_index : ℕ) (output out : List ℕ)
      → s.consumer ≡ started max_read write_index
      → spread
          (record s.ring { write_index = write_index })
          (amount_for s.ring max_read write_index)
        ≤ length output
      → read_copy s.ring output
          (amount_for s.ring max_read write_index)
          write_index
          s.ring.read_index
        ≡ some out
      → Step s (record s { consumer = fetched out (amount_for s.ring max_read write_index) })
  store_read_index :
      (output : List ℕ) (amt : ℕ)
      → s.consumer ≡ fetched output amt
      → Step s (record s {
        ring = record s.ring { read_index = add_u32 s.ring.read_index amt % s.ring.capacity };
        consumer = waiting;
        received = s.received ++ take amt output;
      })

-- Both threads outside their calls, on a ring.
abbrev pub at_rest : Ring → System
at_rest r = record { ring = r; producer = idle; consumer = waiting; sent = []; received = [] }

-- What any interleaving of the threads leads to.
pub data Reach (r : Ring) : System → Type 0 where
  begin : Reach r (at_rest r)
  later : {s t : System} → Reach r s → Step s t → Reach r t
