-- ===== src/Ring/Threads/Fifo.antt =====
-- Any interleaving of the threads is a queue: bytes come out in the order in which they went in.
use real_time_library.Base.{
  ℕ, ◌+◌, ◌≤◌, ◌<◌, ◌≡◌, sym, ap, ◌∙◌, false, some, List, [], ◌++◌, arith, ltb, length, take, drop,
  list_ext, take-all, get_elem?-beyond,
}
use mathlib.Core.List.{append_assoc}
use real_time_library.Ring.{Ring, read_copy, get_bytes_written}
use real_time_library.Ring.Inv.{
  IsValid, distance, span, contents, size, size-lt-capacity, length-contents,
  get_bytes_written-eq-size,
}
use real_time_library.Ring.Write.{positions}
use real_time_library.Ring.Produce.{advance, advance-mod}
use real_time_library.Ring.Consume.{spread, contents-take_read, read_copy-Delivers}
use real_time_library.Ring.Threads.Overlap.{span-prefix, Behind, Filled, priv_write-Filled}
use real_time_library.Ring.Threads.{
  Producer, idle, loaded, copied, Consumer, waiting, started, fetched, System, space_left_for,
  amount_for, Step, load_read_index, refuse, copy_in, store_write_index, load_write_index, copy_out,
  store_read_index, Reach, begin, later,
}

module _ (xs ys : List ℕ) (n : ℕ) where
  take-append_le : n ≤ length xs → take n (xs ++ ys) ≡ take n xs
  take-append_le h = list_ext _ _ λ i. simp positions (ground arith)

  drop-append_le : n ≤ length xs → drop n (xs ++ ys) ≡ drop n xs ++ ys
  drop-append_le h = list_ext _ _ λ i. simp positions (ground arith)

take-drop : (xs : List ℕ) (n : ℕ) → n ≤ length xs → take n xs ++ drop n xs ≡ xs
take-drop xs n h = list_ext _ _ λ i. simp positions (ground (arith, get_elem?-beyond xs))

take-take : (xs : List ℕ) (m n : ℕ) → m ≤ n → take m (take n xs) ≡ take m xs
take-take xs m n h = list_ext _ _ λ i. simp positions (ground arith)

-- What a producer that has copied its bytes will add.
pub record Pending (r : Ring) (input : List ℕ) (sz : ℕ) : Type 0 where
  pub room : sz + size r < r.capacity
  pub longer :
      span r.buf r.read_index (advance r.capacity r.write_index sz) ≡ contents r ++ take sz input

abbrev pub ProducerInv : Ring → Producer → Type 0
ProducerInv r idle = Unit {0}
ProducerInv r (loaded input sz rd) = Behind r rd
ProducerInv r (copied input sz) = Pending r input sz

-- What a consumer that has loaded the write index may read, and what it has read.
pub record Readable (r : Ring) (w : ℕ) : Type 0 where
  pub inside : w < r.capacity
  pub held : distance r.capacity r.read_index w ≤ size r

pub record Fetched (r : Ring) (output : List ℕ) (amt : ℕ) : Type 0 where
  pub held : amt ≤ size r
  pub bytes : take amt output ≡ take amt (contents r)

abbrev pub ConsumerInv : Ring → Consumer → Type 0
ConsumerInv r waiting = Unit {0}
ConsumerInv r (started max_read w) = Readable r w
ConsumerInv r (fetched output amt) = Fetched r output amt

pub record Inv (s : System) : Type 0 where
  pub valid : IsValid s.ring
  pub producing : ProducerInv s.ring s.producer
  pub consuming : ConsumerInv s.ring s.consumer
  pub in_order : s.received ++ contents s.ring ≡ s.sent

-- A ring with other bytes in the room that is left.
refilled :
    {r : Ring} (v : IsValid r) (input : List ℕ) (amt : ℕ) (buf : List ℕ)
    → Filled r input amt buf
    → contents (record r { buf = buf }) ≡ contents r
refilled {r} v input amt buf filled =
    span-prefix buf r.capacity r.read_index r.write_index (advance r.capacity r.write_index amt)
      filled.storage v.read_in v.write_in (ground (arith, filled.room, v.write_in))
      (ground (arith, filled.room, v.write_in, v.read_in))
    ∙ (ap (take (size r)) filled.longer
        ∙ (take-append_le (contents r) (take amt input) (size r) (omega (arith, length-contents v))
            ∙ take-all (size r) (contents r) (omega (arith, length-contents v))))

-- The other thread keeps its part of the invariant.
consumer-refilled :
    (r : Ring) (buf : List ℕ) (c : Consumer)
    → contents (record r { buf = buf }) ≡ contents r
    → ConsumerInv r c
    → ConsumerInv (record r { buf = buf }) c
consumer-refilled r buf waiting same inv = inv
consumer-refilled r buf (started max_read w) same inv = record {
  inside = inv.inside;
  held = inv.held;
}
consumer-refilled r buf (fetched output amt) same inv = record {
  held = inv.held;
  bytes = inv.bytes ∙ ap (take amt) (sym same);
}

module _ {r : Ring} (v : IsValid r) where
  -- The ring after the store of the write index.
  module _ (input : List ℕ) (sz : ℕ) (pending : Pending r input sz) where
    abbrev published : Ring
    published = record r { write_index = advance r.capacity r.write_index sz }

    published-IsValid : IsValid published
    published-IsValid = ground (arith, pending.room)

    size-published : size published ≡ size r + sz
    size-published = ground (arith, pending.room)

    consumer-published : (c : Consumer) → ConsumerInv r c → ConsumerInv published c
    consumer-published waiting inv = inv
    consumer-published (started max_read w) inv = record {
      inside = inv.inside;
      held = omega (arith, inv.held, size-published);
    }
    consumer-published (fetched output amt) inv = record {
      held = omega (arith, inv.held, size-published);
      bytes =
          inv.bytes
          ∙ (sym (
                take-append_le (contents r) (take sz input) amt
                  (omega (arith, inv.held, length-contents v)))
              ∙ ap (take amt) (sym pending.longer));
    }

  -- The ring after the store of the read index.
  module _ (amt : ℕ) (held : amt ≤ size r) where
    abbrev released : Ring
    released = record r { read_index = advance r.capacity r.read_index amt }

    released-IsValid : IsValid released
    released-IsValid = ground arith

    size-released : size released + amt ≡ size r
    size-released = ground arith

    producer-released : (p : Producer) → ProducerInv r p → ProducerInv released p
    producer-released idle inv = inv
    producer-released (loaded input sz rd) inv = record {
      inside = inv.inside;
      passed = omega (arith, inv.passed, size-released);
    }
    producer-released (copied input sz) inv = record {
      room = omega (arith, inv.room, size-released);
      longer =
          contents-take_read (published-IsValid input sz inv) amt
            (omega (arith, size-published input sz inv, held))
          ∙ (ap (drop amt) inv.longer
              ∙ (drop-append_le (contents r) (take sz input) amt
                    (omega (arith, held, length-contents v))
                  ∙ ap (λ l. l ++ take sz input) (sym (contents-take_read v amt held))));
    }

-- The bytes that a consumer copies by an old write index are the oldest ones.
Fetched-bytes :
    {r : Ring} (v : IsValid r) (max_read w : ℕ) (output out : List ℕ)
    → Readable r w
    → spread (record r { write_index = w }) (amount_for r max_read w) ≤ length output
    → read_copy r output (amount_for r max_read w) w r.read_index ≡ some out
    → Fetched r out (amount_for r max_read w)
unfolding read_copy get_bytes_written
Fetched-bytes {r} v max_read w output out inv long run = record {
  held = omega (arith, inv.held, few);
  bytes = same ∙ oldest;
}
  where
    amt : ℕ
    amt = amount_for r max_read w

    early : Ring
    early = record r { write_index = w }

    early-IsValid : IsValid early
    early-IsValid = ground (arith, inv.inside)

    few : amt ≤ distance r.capacity r.read_index w
    few = ground (arith, get_bytes_written-eq-size early-IsValid)

    same : take amt out ≡ take amt (contents early)
    same =
        let (out', run', done) = read_copy-Delivers early-IsValid output amt few long in
        let equal : out' ≡ out = cc (sym run' ∙ run) in rw equal at done.bytes

    oldest : take amt (contents early) ≡ take amt (contents r)
    oldest =
        ap (take amt) (
          span-prefix r.buf r.capacity r.read_index w r.write_index v.storage v.read_in inv.inside
            v.write_in inv.held)
        ∙ take-take (contents r) amt (distance r.capacity r.read_index w) few

-- The test of `write` leaves room for `sz` bytes.
pub room_for :
    {r : Ring} (v : IsValid r) (rd : ℕ) (late : Behind r rd) (sz : ℕ)
    → ltb (space_left_for r rd) sz ≡ false
    → sz + distance r.capacity rd r.write_index < r.capacity
unfolding get_bytes_written
room_for {r} v rd late sz fits = ground (arith, late.inside)

Step-Inv : {s t : System} → Inv s → Step s t → Inv t
Step-Inv {s} inv (load_read_index input sz e pos small) = record {
  valid = inv.valid;
  producing = record { inside = inv.valid.read_in; passed = omega arith };
  consuming = inv.consuming;
  in_order = inv.in_order;
}
Step-Inv {s} inv (refuse input sz rd e full) = record {
  valid = inv.valid;
  producing = tt;
  consuming = inv.consuming;
  in_order = inv.in_order;
}
Step-Inv {s} inv (copy_in input sz rd buf e fits long run) =
    let late : Behind s.ring rd = rw e at inv.producing in
    let filled =
      priv_write-Filled inv.valid rd late input sz (room_for inv.valid rd late sz fits) long buf
        run in
    let same : contents (record s.ring { buf = buf }) ≡ contents s.ring =
      refilled inv.valid input sz buf filled in
    record {
      valid = ground (arith, filled.storage);
      producing = record {
        room = filled.room;
        longer = filled.longer ∙ ap (λ l. l ++ take sz input) (sym same);
      };
      consuming = consumer-refilled s.ring buf s.consumer same inv.consuming;
      in_order = ap (λ l. s.received ++ l) same ∙ inv.in_order;
    }
Step-Inv {s} inv (store_write_index input sz e) =
    let pending : Pending s.ring input sz = rw e at inv.producing in
    let moved =
      advance-mod s.ring.write_index sz inv.valid inv.valid.write_in
        (omega (arith, pending.room)) in
    rw moved (record {
      valid = published-IsValid inv.valid input sz pending;
      producing = tt;
      consuming = consumer-published inv.valid input sz pending s.consumer inv.consuming;
      in_order =
          ap (λ l. s.received ++ l) pending.longer
          ∙ (sym (append_assoc s.received (contents s.ring) (take sz input))
              ∙ ap (λ l. l ++ take sz input) inv.in_order);
    })
Step-Inv {s} inv (load_write_index max_read e pos small) = record {
  valid = inv.valid;
  producing = inv.producing;
  consuming = record { inside = inv.valid.write_in; held = omega arith };
  in_order = inv.in_order;
}
Step-Inv {s} inv (copy_out max_read w output out e long run) = record {
  valid = inv.valid;
  producing = inv.producing;
  consuming = Fetched-bytes inv.valid max_read w output out (rw e at inv.consuming) long run;
  in_order = inv.in_order;
}
Step-Inv {s} inv (store_read_index output amt e) =
    let got : Fetched s.ring output amt = rw e at inv.consuming in
    let moved =
      advance-mod s.ring.read_index amt inv.valid inv.valid.read_in
        (omega (arith, got.held, size-lt-capacity inv.valid)) in
    rw moved (record {
      valid = released-IsValid inv.valid amt got.held;
      producing = producer-released inv.valid amt got.held s.producer inv.producing;
      consuming = tt;
      in_order =
          ap (λ l. (s.received ++ take amt output) ++ l) (contents-take_read inv.valid amt got.held)
          ∙ (append_assoc s.received (take amt output) (drop amt (contents s.ring))
              ∙ (ap (λ l. s.received ++ (l ++ drop amt (contents s.ring))) got.bytes
                  ∙ (ap (λ l. s.received ++ l)
                        (take-drop (contents s.ring) amt
                          (omega (arith, got.held, length-contents inv.valid)))
                      ∙ inv.in_order)));
    })

pub Reach-Inv : {r : Ring} {s : System} → IsValid r → contents r ≡ [] → Reach r s → Inv s
Reach-Inv v nothing begin = record { valid = v; producing = tt; consuming = tt; in_order = nothing }
Reach-Inv v nothing (later before step) = Step-Inv (Reach-Inv v nothing before) step

-- In every state that two threads reach from an empty valid ring, in any order of their steps, the
-- bytes that were read, followed by the bytes that the ring holds, are the bytes that were
-- written, in order; the ring is valid.
pub Reach-Fifo :
    {r : Ring} {s : System}
    → IsValid r
    → contents r ≡ []
    → Reach r s
    → IsValid s.ring × (s.received ++ contents s.ring ≡ s.sent)
Reach-Fifo v nothing reached = let inv = Reach-Inv v nothing reached in (inv.valid, inv.in_order)
