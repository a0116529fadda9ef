-- ===== src/Examples/Shares.antt =====
-- Runs of the theorems on shares.
use merged_mining_pool.Common.{
  ℕ, ◌*◌, ◌/◌, ◌≡◌, refl, ap, ◌∙◌, some, [], ◌∷◌, map, arith, Result, ok, codes,
}
use merged_mining_pool.Common.Int.{ℤ, pos, negsuc}
use merged_mining_pool.Hex.{hex_encode}
use merged_mining_pool.Template.{AuxBlock, Template}
use merged_mining_pool.Encoding.{reverse_hex_bytes}
use merged_mining_pool.Encoding.VarUint.{le_value-le_bytes}
use merged_mining_pool.Chain.{litecoin, share_multiplier}
use merged_mining_pool.Target.{
  Floats, to_big, parse_digits, text_16, to_difficulty, target_from_difficulty, highest_target,
}
use merged_mining_pool.Target.Text.{to_big-text_16}
use merged_mining_pool.Block.{BitcoinBlock, sum}
use merged_mining_pool.Block.Sum.{sum-le_value}
use merged_mining_pool.Share.{at_most, aux_target, pool_reverse_hex_bytes, validate_and_weigh_share}
use merged_mining_pool.Share.Weigh.{verdict, validate_and_weigh_share-verdict}
use merged_mining_pool.Examples.Toy.{toy, toy-IsCrypto}

-- Whole numbers in the place of floats, whose operations are not code of the repository.
abbrev pub number : ℤ → ℕ
number (pos n) = n
number (negsuc n) = 0

abbrev pub whole : Floats ℕ ℕ
whole = record {
  set_int = number;
  set_float64 = λ x. some x;
  quo = λ x y. x / y;
  to_float64 = λ x. x;
  to_int = λ x. some (pos x);
  zero = 0;
  div_whole = λ x n. x / n;
  mul_whole = λ x n. x * n;
}

abbrev aux_block : AuxBlock
aux_block = record {
  hash = [];
  other_hash = [];
  chain_id = pos 98;
  previous_block_hash = [];
  coinbase_hash = [];
  coinbase_value = 0;
  bits = [];
  height = 0;
  target = codes "0010";
  target2 = [];
}

abbrev template : Template
template = record {
  version = 1;
  prev_block_hash = [];
  height = 300;
  coin_base_value = 1000;
  default_witness_commitment = [];
  bits = [];
  target = codes "0500";
  transactions = [];
  current_time = 0;
  mimble_wimble = [];
  aux_blocks = aux_block ∷ [];
}

abbrev block : BitcoinBlock
block = record {
  template = some template;
  reverse_prev_block_hash = [];
  coinbase_initial_hex = [];
  coinbase_final_hex = [];
  merkle_steps_hex = [];
  coinbase = [];
  header = hex_encode (7 ∷ 5 ∷ []);
  hash = [];
  chain = some litecoin;
}

abbrev pool : ℕ
pool = number highest_target / (131072 / 65536)

pool_target_made :
    target_from_difficulty whole (131072 / share_multiplier litecoin)
    ≡ ok (text_16 (some (pos pool)))
unfolding target_from_difficulty share_multiplier
pool_target_made = refl

pool_read : to_big (text_16 (some (pos pool))) ≡ some (pos pool)
pool_read = to_big-text_16 pool (omega arith)

difficulty_made :
    to_difficulty whole (text_16 (some (pos pool))) ≡ ok (number highest_target / pool)
unfolding to_difficulty
difficulty_made = rw pool_read

digest_read : (sum toy block).1 ≡ ok 1287
digest_read =
    ap (λ (r : BitcoinBlock × Result ℕ). r.1)
      (sum-le_value toy toy-IsCrypto block litecoin 7 (5 ∷ []) refl refl
        (omega arith, (omega arith, tt)))
    ∙ ap ok (le_value-le_bytes 32 1287 (omega arith))

primary_read : to_big (codes "0500") ≡ some (pos 1280)
unfolding to_big parse_digits merged_mining_pool.Hex.hex_value
primary_read = refl

aux_read : aux_target aux_block ≡ ok (pos 4096)
unfolding aux_target pool_reverse_hex_bytes reverse_hex_bytes to_big parse_digits
    merged_mining_pool.Hex.hex_value
aux_read = refl

validate_and_weigh_share-verdict_example : validate_and_weigh_share toy whole block 131072 ≡ (
  (sum toy block).0,
  ok (
    verdict 1287 (pos 1280 ∷ pos 4096 ∷ []) (pos pool),
    map (at_most 1287) (pos 1280 ∷ pos 4096 ∷ []),
    number highest_target / pool,
  ),
)
validate_and_weigh_share-verdict_example =
    validate_and_weigh_share-verdict toy whole block 131072 template litecoin
      (text_16 (some (pos pool))) (number highest_target / pool) 1287 (pos 1280) (pos pool)
      (pos 4096 ∷ []) refl refl pool_target_made difficulty_made digest_read primary_read pool_read
      (aux_read, tt)
