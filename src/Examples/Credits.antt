-- ===== src/Examples/Credits.antt =====
-- Runs of the theorems on what is credited and paid.
use merged_mining_pool.Common.{
  ℕ, zero, suc, ◌<◌, ◌≡◌, refl, ap, ◌≢◌, ◌⊎◌, true, false, Option, none, some, List, [], ◌∷◌, arith,
  length, get_elem?, replicate, ok, Bytes, codes,
}
use merged_mining_pool.Template.{Template}
use merged_mining_pool.Chain.{litecoin}
use merged_mining_pool.Block.{BitcoinBlock, Item, Work, make_header}
use merged_mining_pool.Target.{highest_target}
use merged_mining_pool.Share.{ShareStatus, share_valid, validate_and_weigh_share}
use merged_mining_pool.Intake.{
  StratumClient, Config, Intake, Nodes, Judged, judge_work, share_of, credit, text_at,
  recieve_work_from_client,
}
use merged_mining_pool.Intake.Replay.{recieve_all, credits, recieve_all-credits}
use merged_mining_pool.Intake.Credit.{Credits, recieve_work_from_client-Credits}
use merged_mining_pool.Rows.{Balance}
use merged_mining_pool.Payouts.Payer.{find_balance_address}
use merged_mining_pool.Payouts.Addresses.{find_balance_address-join_by}
use merged_mining_pool.Examples.Toy.{toy}
use merged_mining_pool.Examples.Shares.{whole}

abbrev pub template : Template
template = record {
  version = 1;
  prev_block_hash = replicate 64 b'0';
  height = 300;
  coin_base_value = 1000;
  default_witness_commitment = [];
  bits = codes "00000000";
  target = codes "00";
  transactions = [];
  current_time = 0;
  mimble_wimble = [];
  aux_blocks = [];
}

abbrev pub block : BitcoinBlock
block = record {
  template = some template;
  reverse_prev_block_hash = [];
  coinbase_initial_hex = codes "0a";
  coinbase_final_hex = codes "0c";
  merkle_steps_hex = [];
  coinbase = [];
  header = [];
  hash = [];
  chain = some litecoin;
}

abbrev work : Work
work =
    Item.text (codes "A.rig")
    ∷ Item.text (codes "1")
    ∷ Item.text (codes "0b")
    ∷ Item.text (codes "00000000")
    ∷ Item.text (codes "00000000")
    ∷ []

abbrev client : StratumClient
client = record {
  ip = codes "::1";
  login = [];
  extranonce1 = codes "01";
  user_agent = [];
  session_id = [];
}

abbrev pub config : Config ℕ
config = record {
  pool_name = codes "pool";
  block_chain_order = codes "litecoin" ∷ [];
  pool_difficulty = 131072;
}

abbrev pub nodes : Nodes
nodes = record {
  stores_block = λ chain height. true;
  submit_block = λ b. record { success = true; failed = false };
  submit_aux_block = λ n h p. record { success = true; failed = false };
}

abbrev pub empty : Intake ℕ
empty = record { share_buffer = []; blocks = [] }

recieve_work_from_client-Credits_example :
    let (s', r) = recieve_work_from_client toy whole nodes 7 config block work client empty in
    ((s' ≡ empty) × (r ≢ ok tt))
    ⊎ Credits toy whole nodes 7 config client
        (judge_work toy whole nodes 7 config block work client)
        empty
        s'
recieve_work_from_client-Credits_example =
    recieve_work_from_client-Credits toy whole nodes 7 config client block work empty

abbrev judged : Judged ℕ
judged = record {
  block =
      (validate_and_weigh_share toy whole
        (make_header toy (codes "010b") (codes "00000000") (codes "00000000") block).0 131072).0;
  template = template;
  miner = codes "A";
  rig = codes "rig";
  status = share_valid;
  candidate = false ∷ [];
  difficulty = 2;
  block_difficulty = 0;
}

work-judged : judge_work toy whole nodes 7 config block work client ≡ ok judged
unfolding judge_work text_at make_header validate_and_weigh_share
    merged_mining_pool.Block.coinbase_hashed merged_mining_pool.Block.chain_of
    merged_mining_pool.Chain.coinbase_digest merged_mining_pool.Crypto.double_sha256
    merged_mining_pool.Hex.hex_decode merged_mining_pool.Coinbase.serialize_coinbase
    merged_mining_pool.Merkle.make_header_merkle_root merged_mining_pool.Hex.hex_encode
    merged_mining_pool.Encoding.le_bytes merged_mining_pool.Encoding.reverse_go
    merged_mining_pool.Merkle.merkle_root_loop merged_mining_pool.Header.block_header
    merged_mining_pool.Header.version_bytes merged_mining_pool.Target.target_from_difficulty
    merged_mining_pool.Target.to_difficulty merged_mining_pool.Target.to_big
    merged_mining_pool.Target.text_16 merged_mining_pool.Chain.share_multiplier
    merged_mining_pool.Target.parse_digits merged_mining_pool.Block.sum
    merged_mining_pool.Chain.header_digest merged_mining_pool.Crypto.scrypt_digest
    merged_mining_pool.Encoding.four_little_endian_bytes
    merged_mining_pool.Encoding.reverse_hex_bytes merged_mining_pool.Hex.hex_decode_prefix
    merged_mining_pool.Hex.hex_digit merged_mining_pool.Hex.hex_value
    merged_mining_pool.Share.weigh_aux
work-judged = refl

-- The same work, sent twice.
abbrev both : List (BitcoinBlock × Work)
both = (block, work) ∷ (block, work) ∷ []

abbrev credited_twice : Intake ℕ
credited_twice = record empty {
  share_buffer =
      share_of toy whole nodes 7 config client judged
      ∷ share_of toy whole nodes 7 config client judged
      ∷ [];
}

both_recieved : recieve_all toy whole nodes 7 config client both empty ≡ ok credited_twice
unfolding recieve_work_from_client credit
both_recieved = rw work-judged refl

recieve_all-credits_example :
    credited_twice.share_buffer ≡ credits toy whole nodes 7 config client both
recieve_all-credits_example =
    recieve_all-credits toy whole nodes 7 config client both empty {s' = credited_twice}
      both_recieved

abbrev balance : Balance ℕ
balance = record {
  pool_id = [];
  chain = codes "bellscoin";
  address = codes "Labc-Bxyz";
  amount = 5;
  created = 0;
  updated = 0;
}

abbrev size : Option Bytes → ℕ
size none = 0
size (some s) = length s

litecoin_first :
    (k : ℕ)
    → k < 1
    → get_elem? (codes "litecoin" ∷ codes "bellscoin" ∷ []) k ≢ some (codes "bellscoin")
litecoin_first zero h e = absurd (omega (arith, ap size e))
litecoin_first (suc k) h e = absurd (omega arith)

find_balance_address-join_by_example :
    find_balance_address balance (codes "litecoin" ∷ codes "bellscoin" ∷ []) ≡ ok (codes "Bxyz")
find_balance_address-join_by_example =
    find_balance_address-join_by balance (codes "litecoin" ∷ codes "bellscoin" ∷ []) (codes "Labc")
      (codes "Bxyz") [] 1 {address = codes "Bxyz"} (omega arith) (ground arith) refl refl
      litecoin_first refl
