-- ===== src/Format.antt =====
-- The verbs of `fmt` that the program uses on numbers.
use merged_mining_pool.Common.{
  ℕ, zero, suc, ◌+◌, ◌/◌, ◌%◌, [], ◌∷◌, ◌++◌, ltb, if◌then◌else◌, Bytes,
}

-- `%d` on a number below 10 ^ 20, which every `uint64` is.
abbrev decimal_digits : ℕ → ℕ → Bytes
decimal_digits zero n = []
decimal_digits (suc k) n =
    let front = decimal_digits k (n / 10) in
    if ltb n 10 then (48 + n) ∷ [] else front ++ (48 + n % 10) ∷ []

unfoldable pub decimal : ℕ → Bytes
decimal n = decimal_digits 20 n
