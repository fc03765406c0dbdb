-- ===== src/Primes.antt =====
-- librtlcpp/include/rtlcpp/utility.hpp: the table of bucket counts.
use real_time_library.Base.{ℕ, List, [], ◌∷◌, get_or, leb, if◌then◌else◌}

-- `power_of_two_primes`
abbrev pub power_of_two_primes : List ℕ
power_of_two_primes =
    2 ∷ 2 ∷ 5 ∷ 11 ∷ 17 ∷ 37 ∷ 67 ∷ 131 ∷ 257 ∷ 521 ∷ 1031 ∷ 2053 ∷ 4099 ∷ 8209 ∷ 16411 ∷ 32771
    ∷ 65537 ∷ 131101 ∷ 262147 ∷ 524309 ∷ 1048583 ∷ 2097169 ∷ 4194319 ∷ 8388617 ∷ 16777259 ∷ 33554467
    ∷ 67108879 ∷ 134217757 ∷ 268435459 ∷ 536870923 ∷ 1073741827 ∷ 2147483659 ∷ []

-- `get_prime_power_of_2`
unfoldable pub get_prime_power_of_2 : ℕ → ℕ
get_prime_power_of_2 n = if leb 32 n then 0 else get_or power_of_two_primes n 0
