-- ===== src/Hash.antt =====
-- librtlcpp/include/rtlcpp/hash.hpp: FNV-1a over 32-bit words.
use Prim.Native.Nat.{bit_xor}
use real_time_library.Base.{
  ℕ, ◌*◌, ◌%◌, ◌^◌, ◌<◌, ◌≡◌, refl, List, [], ◌∷◌, ◌++◌, arith, ◌==◌, if◌then◌else◌, Bool, true,
  not, ◌&&◌,
}

abbrev pub fnv1a_32_prime : ℕ
fnv1a_32_prime = 16777619

abbrev pub fnv1a_32_offset : ℕ
fnv1a_32_offset = 2166136261

-- One round of the loop: a word and a byte
abbrev pub round : ℕ → ℕ → ℕ
round rval b = (bit_xor rval b * fnv1a_32_prime) % 2 ^ 32

-- The loop of `fnv1a(buffer, sz)`
unfoldable pub fnv1a_from : ℕ → List ℕ → ℕ
fnv1a_from rval [] = rval
fnv1a_from rval (b ∷ buf) = fnv1a_from (round rval b) buf

-- `fnv1a(buffer, sz)`, and the overloads for `std::string` and for numbers, with the bytes of the
-- object
unfoldable pub fnv1a : List ℕ → ℕ
unfolding fnv1a_from
fnv1a buf = fnv1a_from fnv1a_32_offset buf

-- The loop of `fnv1a(str)`, up to the first zero byte; memory that ends without one gives what is
-- hashed up to there.
unfoldable pub fnv1a_string_from : ℕ → List ℕ → ℕ
fnv1a_string_from rval [] = rval
fnv1a_string_from rval (c ∷ str) =
    let rest = fnv1a_string_from (round rval c) str in if c == 0 then rval else rest

-- `fnv1a(str)`
unfoldable pub fnv1a_string : List ℕ → ℕ
unfolding fnv1a_string_from
fnv1a_string str = fnv1a_string_from fnv1a_32_offset str

-- `fnv1a(uint8_t)`
unfoldable pub fnv1a_byte : ℕ → ℕ
fnv1a_byte num = (bit_xor num fnv1a_32_offset * fnv1a_32_prime) % 2 ^ 32

-- No byte of the buffer is zero.
abbrev pub no_zero : List ℕ → Bool
no_zero [] = true
no_zero (b ∷ buf) = not (b == 0) && no_zero buf

from_append :
    (rval : ℕ) (xs ys : List ℕ) → fnv1a_from rval (xs ++ ys) ≡ fnv1a_from (fnv1a_from rval xs) ys
unfolding fnv1a_from
from_append rval [] ys = refl
from_append rval (x ∷ xs) ys = from_append (round rval x) xs ys

from_bound : (rval : ℕ) (xs : List ℕ) → rval < 2 ^ 32 → fnv1a_from rval xs < 2 ^ 32
unfolding fnv1a_from
from_bound rval [] h = h
from_bound rval (x ∷ xs) h = from_bound (round rval x) xs (omega arith)

-- The hash of a buffer fits 32 bits, and the hash of two buffers in a row goes on from the hash of
-- the first one.
pub fnv1a-append :
    (xs ys : List ℕ) → (fnv1a xs < 2 ^ 32) × (fnv1a (xs ++ ys) ≡ fnv1a_from (fnv1a xs) ys)
unfolding fnv1a
fnv1a-append xs ys =
    (from_bound fnv1a_32_offset xs (omega arith), from_append fnv1a_32_offset xs ys)

string_from :
    (rval : ℕ) (xs rest : List ℕ)
    → no_zero xs ≡ true
    → fnv1a_string_from rval (xs ++ 0 ∷ rest) ≡ fnv1a_from rval xs
unfolding fnv1a_string_from fnv1a_from
string_from rval [] rest h = refl
string_from rval (x ∷ xs) rest h = ground (arith, string_from (round rval x) xs rest)

-- The hash of a string that ends with a zero byte is that of its bytes before the end, so that a
-- `const char*` and a `std::string` with the same text, which has no zero byte, have one hash.
fnv1a_string-eq-fnv1a :
    (text rest : List ℕ) → no_zero text ≡ true → fnv1a_string (text ++ 0 ∷ rest) ≡ fnv1a text
unfolding fnv1a_string fnv1a
fnv1a_string-eq-fnv1a text rest h = string_from fnv1a_32_offset text rest h
