-- ===== src/Target/FromBits.antt =====
-- Which texts `TargetFromBits` takes.
use merged_mining_pool.Common.{◌%◌, ◌≤◌, ◌≡◌, arith, length, Error, err, Bytes}
use merged_mining_pool.Target.{target_from_bits}

-- `TargetFromBits` refuses every text of an even length of eight or more, so the eight digits of
-- compact bits too, with the error that says that the length must be even.
pub target_from_bits-even :
    (bits : Bytes)
    → 8 ≤ length bits
    → length bits % 2 ≡ 0
    → target_from_bits bits ≡ err Error.not_even
unfolding target_from_bits
target_from_bits-even bits h e = ground arith
