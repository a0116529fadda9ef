-- ===== src/Share.antt =====
-- pool/share.go: what a share is worth.
pub mod Weigh
use merged_mining_pool.Common.{
  ◌>>=◌, ℕ, ◌+◌, ◌-◌, ◌/◌, ◌<◌, Bool, true, false, ◌||◌, List, [], ◌∷◌, leb, if◌then◌else◌, length,
  set, replicate, Result, ok, err, panic, or_panic, Bytes,
}
use merged_mining_pool.Common.Int.{ℤ, pos, negsuc}
use merged_mining_pool.Crypto.{Crypto}
use merged_mining_pool.Template.{AuxBlock, Template}
use merged_mining_pool.Encoding.{reverse_hex_bytes}
use merged_mining_pool.Chain.{share_multiplier}
use merged_mining_pool.Target.{Floats, to_big, to_difficulty, target_from_difficulty}
use merged_mining_pool.Block.{BitcoinBlock, chain_of, sum}

pub data ShareStatus : Type 0 where
  share_invalid share_valid share_candidate : ShareStatus

-- `Cmp(x) <= 0`.
abbrev pub at_most : ℕ → ℤ → Bool
at_most s (pos n) = leb s n
at_most s (negsuc n) = false

-- `reverseHexBytes` of package pool panics where that of package bitcoin has an error.
unfoldable pub pool_reverse_hex_bytes : Bytes → Result Bytes
pool_reverse_hex_bytes hex = die (reverse_hex_bytes hex)
  where
    die : Result Bytes → Result Bytes
    die (ok s) = ok s
    die (err e) = panic
    die panic = panic

-- A nil number is dereferenced by `Cmp`.
unfoldable pub aux_target : AuxBlock → Result ℤ
aux_target aux_block = do target ← pool_reverse_hex_bytes aux_block.target; or_panic (to_big target)

-- The loop over the auxiliary blocks from the i-th on.
unfoldable pub weigh_aux : ℕ → List AuxBlock → ℕ → Bool → List Bool → Result (Bool × List Bool)
weigh_aux primary_sum [] i valid_share candidate = ok (valid_share, candidate)
weigh_aux primary_sum (aux_block ∷ rest) i valid_share candidate = do
  target ← aux_target aux_block
  weigh_aux primary_sum rest (i + 1) (at_most primary_sum target || valid_share)
      (if at_most primary_sum target then set candidate (i + 1) true else candidate)

-- An error of `Sum` is logged, and its nil number dereferenced by `Cmp`.
abbrev pub or_nil_number : Result ℕ → Result ℕ
or_nil_number (ok s) = ok s
or_nil_number (err e) = panic
or_nil_number panic = panic

-- The status, the flag of each chain, and the difficulty of the share.
abbrev pub Weighed : Type 0 → Type 0
Weighed F = ShareStatus × List Bool × F

module _ {F B : Type 0} (c : Crypto) (f : Floats F B) where
  -- The last test, for a share that is no candidate.
  abbrev pub judge : ℕ → Bytes → Bool × List Bool → F → Result (Weighed F)
  judge s pool_target (true, candidate) difficulty = ok (share_candidate, candidate, difficulty)
  judge s pool_target (false, candidate) difficulty = do
    pool_target_big ← or_panic (to_big pool_target)
    ok (
        if at_most s pool_target_big
        then (share_valid, candidate, difficulty)
        else (share_invalid, candidate, difficulty))

  abbrev pub weigh : Result ℕ → BitcoinBlock → F → Result (Weighed F)
  weigh summed primary pool_difficulty = do
    t ← or_panic primary.template
    chain ← chain_of primary
    pool_target ← target_from_difficulty f (f.div_whole pool_difficulty (share_multiplier chain))
    share_difficulty ← to_difficulty f pool_target
    s ← or_nil_number summed
    primary_target ← or_panic (to_big t.target)
    let candidate = replicate (length t.aux_blocks + 1) false
    let valid_share = at_most s primary_target
    weighed ←
        weigh_aux s t.aux_blocks 0 valid_share
          (if valid_share then set candidate 0 true else candidate)
    judge s pool_target weighed share_difficulty

  -- `Sum` changes the block: its hash is set.
  unfoldable pub validate_and_weigh_share : BitcoinBlock → F → BitcoinBlock × Result (Weighed F)
  validate_and_weigh_share primary pool_difficulty =
      let (summed_block, summed) = sum c primary in
      (summed_block, weigh summed primary pool_difficulty)
