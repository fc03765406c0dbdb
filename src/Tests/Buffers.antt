-- ===== src/Tests/Buffers.antt =====
-- Rings of four bytes.
use real_time_library.Base.{
  ℕ, ◌+◌, ◌≤◌, ◌<◌, ◌≡◌, refl, true, false, none, some, List, [], ◌∷◌, arith,
}
use real_time_library.Ring
use real_time_library.Ring.{
  Ring, Contig, AllocResult, get_bytes_written, approx_size, approx_free_bytes, empty, write,
  write_bytes, read, alloc_contig, compound_alloc_contig, read_contig, commit_write, commit_read,
}
use real_time_library.Ring.Inv.{IsValid, contents, size}
use real_time_library.Ring.Write.{one_chunk}
use real_time_library.Ring.Produce.{Appends, write-Appends, write_bytes-Appends}
use real_time_library.Ring.Consume.{Delivers, read-Delivers}
use real_time_library.Ring.Room.{held, in_block}
use real_time_library.Ring.Blocks.{
  compound_alloc_contig_free, commit_write-alloc_contig, contents-commit_read,
}
use real_time_library.Ring.Faults.{write_bytes_overcommits, write_over_reads, read_over_writes}

-- A ring over four bytes with these indices.
abbrev pub ring_at : ℕ → ℕ → Ring
ring_at rd w = record {
  initialized = true;
  buf = 10 ∷ 11 ∷ 12 ∷ 13 ∷ [];
  capacity = 4;
  writable_capacity = 3;
  read_index = rd;
  write_index = w;
}

pub ring_at-IsValid : (rd w : ℕ) → rd < 4 → w < 4 → IsValid (ring_at rd w)
ring_at-IsValid rd w h k = ground arith

-- The second byte is the oldest one that is held.
abbrev plain : Ring
plain = ring_at 1 2

-- The bytes that are held go round the end.
abbrev wrapped : Ring
wrapped = ring_at 3 1

abbrev full : Ring
full = ring_at 2 1

plain-IsValid : IsValid plain
plain-IsValid = ring_at-IsValid 1 2 (omega arith) (omega arith)

wrapped-IsValid : IsValid wrapped
wrapped-IsValid = ring_at-IsValid 3 1 (omega arith) (omega arith)

full-IsValid : IsValid full
full-IsValid = ring_at-IsValid 2 1 (omega arith) (omega arith)

write_round :
    write plain (some (50 ∷ 51 ∷ [])) 2
    ≡ some (true, record plain { buf = 10 ∷ 11 ∷ 50 ∷ 51 ∷ []; write_index = 0 })
unfolding write Ring.copy_and_store Ring.priv_write Ring.memcpy get_bytes_written
write_round = refl

read_round :
    (read wrapped (some (0 ∷ 0 ∷ [])) 2)
    ≡ some (2, some (13 ∷ 10 ∷ []), record wrapped { read_index = 1 })
unfolding read Ring.memcpy get_bytes_written
read_round = refl

write-Appends_example :
    (r' : Ring) × (write plain (some (50 ∷ 51 ∷ [])) 2 ≡ some (true, r'))
    × Appends plain (50 ∷ 51 ∷ []) 2 r'
write-Appends_example = write-Appends (50 ∷ 51 ∷ []) 2 plain-IsValid (omega arith) (omega arith)

write_bytes-Appends_example :
    (r' : Ring) × (write_bytes plain (some (50 ∷ 51 ∷ [])) 2 ≡ some (2, r'))
    × Appends plain (50 ∷ 51 ∷ []) 2 r'
write_bytes-Appends_example =
    write_bytes-Appends (50 ∷ 51 ∷ []) 2 plain-IsValid (omega arith) (omega arith)

read-Delivers_example :
    (out : List ℕ) × (r' : Ring) × (read wrapped (some (0 ∷ 0 ∷ [])) 2 ≡ some (2, some out, r'))
    × Delivers wrapped 2 out r'
read-Delivers_example = read-Delivers (0 ∷ 0 ∷ []) 2 wrapped-IsValid (omega arith)

block : 2 ≤ (alloc_contig plain 2 false).size
unfolding alloc_contig
block = omega arith

commit_write-alloc_contig_example :
    let filled = record plain {
      buf = one_chunk plain.buf (alloc_contig plain 2 false).offset (50 ∷ 51 ∷ []) 2;
    } in
    IsValid (commit_write filled 2) × (contents (commit_write filled 2) ≡ 11 ∷ 50 ∷ 51 ∷ [])
commit_write-alloc_contig_example =
    commit_write-alloc_contig 2 false (50 ∷ 51 ∷ []) 2 plain-IsValid block (omega arith)

contents-commit_read_example :
    IsValid (commit_read wrapped 1) × (contents (commit_read wrapped 1) ≡ 10 ∷ [])
contents-commit_read_example = contents-commit_read 1 wrapped-IsValid (omega arith)

compound_alloc_contig_free_example :
    let a = compound_alloc_contig plain in
    (a.first_buf_sz + a.second_buf_sz + size plain ≡ 3)
    × ((i : ℕ)
        → in_block a.first_buf a.first_buf_sz i ≡ true
        → (i < 4) × (held plain i ≡ false) × (in_block a.second_buf a.second_buf_sz i ≡ false))
    × ((i : ℕ) → in_block a.second_buf a.second_buf_sz i ≡ true → (i < 4) × (held plain i ≡ false))
    × (0 < a.first_buf_sz → a.first_buf ≡ some 2)
    × (0 < a.second_buf_sz → a.second_buf ≡ some 0)
compound_alloc_contig_free_example = compound_alloc_contig_free plain-IsValid

write_bytes_overcommits_example :
    (r' : Ring) × (write_bytes wrapped (some (50 ∷ 51 ∷ 52 ∷ [])) 3 ≡ some (1, r'))
    × (size r' + 4 ≡ 5)
write_bytes_overcommits_example =
    write_bytes_overcommits (50 ∷ 51 ∷ 52 ∷ []) 3 wrapped-IsValid (omega arith) (omega arith)
      (omega arith)

write_over_reads_example : write plain (some (50 ∷ [])) 1 ≡ none
write_over_reads_example =
    write_over_reads (50 ∷ []) 1 plain-IsValid (omega arith) (omega arith) (omega arith) refl
      (omega arith)

read_over_writes_example : read full (some (0 ∷ [])) 1 ≡ none
read_over_writes_example =
    read_over_writes (0 ∷ []) 1 full-IsValid (omega arith) (omega arith) refl (omega arith)
