-- ===== src/Tests/Threads.antt =====
-- A ring of four bytes between two threads.
use real_time_library.Base.{ℕ, ◌≤◌, ◌≡◌, refl, ◌⊎◌, List, [], ◌∷◌, ◌++◌, arith, length}
use real_time_library.Ring.{Ring, get_bytes_written, priv_write, memcpy}
use real_time_library.Ring.Inv.{IsValid, contents}
use real_time_library.Ring.Write.{reach}
use real_time_library.Ring.Consume.{spread}
use real_time_library.Ring.Threads.{
  System, idle, loaded, copied, waiting, started, fetched, amount_for, Step, Reach, begin, later,
  load_read_index, copy_in, store_write_index, load_write_index,
}
use real_time_library.Ring.Threads.Fifo.{Reach-Fifo}
use real_time_library.Ring.Threads.Progress.{Reach-progress}
use real_time_library.Tests.Buffers.{ring_at, ring_at-IsValid}

abbrev two_bytes : List ℕ
two_bytes = 50 ∷ 51 ∷ []

abbrev nothing_held : Ring
nothing_held = ring_at 2 2

nothing_held-IsValid : IsValid nothing_held
nothing_held-IsValid = ring_at-IsValid 2 2 (omega arith) (omega arith)

-- The writing thread is about to copy two bytes, and the reading thread is about to read.
abbrev both_inside : System
both_inside = record {
  ring = nothing_held;
  producer = loaded two_bytes 2 2;
  consumer = started 3 2;
  sent = [];
  received = [];
}

both_inside-Reach : Reach nothing_held both_inside
both_inside-Reach =
    later (later begin (load_read_index two_bytes 2 refl (omega arith) (omega arith)))
      (load_write_index 3 refl (omega arith) (omega arith))

-- The writing thread has stored its index.
abbrev written : System
written = record {
  ring = record nothing_held { buf = 10 ∷ 11 ∷ 50 ∷ 51 ∷ []; write_index = 0 };
  producer = idle;
  consumer = started 3 2;
  sent = two_bytes;
  received = [];
}

written-Reach : Reach nothing_held written
unfolding priv_write memcpy get_bytes_written
written-Reach =
    later
      (later both_inside-Reach
        (copy_in two_bytes 2 2 (10 ∷ 11 ∷ 50 ∷ 51 ∷ []) refl refl (omega arith) refl))
      (store_write_index two_bytes 2 refl)

Reach-Fifo_example : IsValid written.ring × ([] ++ contents written.ring ≡ two_bytes)
Reach-Fifo_example = Reach-Fifo nothing_held-IsValid refl written-Reach

Reach-progress_example :
    ((input : List ℕ) (sz rd : ℕ)
      → both_inside.producer ≡ loaded input sz rd
      → reach (record nothing_held { read_index = rd }) sz ≤ length input
      → (t : System) × Step both_inside t × ((t.producer ≡ copied input sz) ⊎ (t.producer ≡ idle)))
    × ((input : List ℕ) (sz : ℕ)
        → both_inside.producer ≡ copied input sz
        → (t : System) × Step both_inside t × (t.producer ≡ idle))
    × ((max_read w : ℕ) (output : List ℕ)
        → both_inside.consumer ≡ started max_read w
        → spread (record nothing_held { write_index = w }) (amount_for nothing_held max_read w)
          ≤ length output
        → (out : List ℕ) × (t : System) × Step both_inside t
          × (t.consumer ≡ fetched out (amount_for nothing_held max_read w)))
    × ((output : List ℕ) (amt : ℕ)
        → both_inside.consumer ≡ fetched output amt
        → (t : System) × Step both_inside t × (t.consumer ≡ waiting))
Reach-progress_example = Reach-progress nothing_held-IsValid refl both_inside-Reach
