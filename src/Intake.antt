-- ===== src/Intake.antt =====
-- pool/work.go, recieveWorkFromClient, with the submissions of pool/nodes.go. What a node
-- answers is a parameter.
pub mod Credit
pub mod Replay
use merged_mining_pool.Common.{
  ℕ, zero, suc, ◌+◌, ◌-◌, ◌/◌, Bool, true, false, not, ◌&&◌, none, List, [], ◌∷◌, ◌++◌, ◌==◌,
  if◌then◌else◌, get_elem?, drop, Error, Result, ok, err, panic, ◌>>=◌, or_panic, or_error, Bytes,
  codes,
}
use merged_mining_pool.Common.{split}
use merged_mining_pool.Crypto.{Crypto}
use merged_mining_pool.Template.{AuxBlock, Template}
use merged_mining_pool.Chain.{get_chain, share_multiplier}
use merged_mining_pool.Format.{decimal}
use merged_mining_pool.Rows.{Share, Found, status_pending}
use merged_mining_pool.Target.{Floats, to_difficulty}
use merged_mining_pool.Block.{
  BitcoinBlock, Item, Work, chain_of, make_header, header_hashed, coinbase_hashed, submit,
  make_aux_pow, serialize_aux_pow,
}
use merged_mining_pool.Share.{
  ShareStatus, share_invalid, share_valid, share_candidate, Weighed, pool_reverse_hex_bytes,
  validate_and_weigh_share,
}

-- The connection of a client is left out.
pub record StratumClient : Type 0 where
  pub ip : Bytes
  pub login : Bytes
  pub extranonce1 : Bytes
  pub user_agent : Bytes
  pub session_id : Bytes

pub record Config (F : Type 0) : Type 0 where
  pub pool_name : Bytes
  pub block_chain_order : List Bytes
  pub pool_difficulty : F

-- What the handler changes: the share buffer, and the rows it inserts into the table of blocks.
pub record Intake (F : Type 0) : Type 0 where
  pub share_buffer : List (Share F)
  pub blocks : List (Found F)

-- A node's answer: the flag, and whether there is an error.
pub record Answer : Type 0 where
  pub success : Bool
  pub failed : Bool

-- The node of the primary chain, the nodes of the auxiliary chains by their number, and whether the
-- database takes the row of a block, by its chain and height: it refuses a second one of the same.
pub record Nodes : Type 0 where
  pub stores_block : Bytes → ℕ → Bool
  pub submit_block : Bytes → Answer
  pub submit_aux_block : ℕ → Bytes → Bytes → Answer

-- `share[i].(string)`.
unfoldable pub text_at : Work → ℕ → Result Bytes
text_at work i = or_panic (get_elem? work i) >>= assert
  where
    assert : Item → Result Bytes
    assert (Item.text s) = ok s
    assert _ = panic

-- A refusal without an error dereferences the nil error.
unfoldable pub submit_block_to_chain : Nodes → BitcoinBlock → Result (Unit {0})
submit_block_to_chain nodes b = do
  submission ← submit b
  let answer = nodes.submit_block submission
  if answer.success && not answer.failed
      then ok tt
      else if answer.failed
      then err Error.node_rejection
      else panic

abbrev text_of : Result Bytes → Result Bytes
text_of (ok s) = ok s
text_of (err e) = ok []
text_of panic = panic

abbrev pub count_true : List Bool → ℕ
count_true [] = 0
count_true (true ∷ bs) = suc (count_true bs)
count_true (false ∷ bs) = count_true bs

-- What the handler knows of a share once it is weighed.
pub record Judged (F : Type 0) : Type 0 where
  pub block : BitcoinBlock
  pub template : Template
  pub miner : Bytes
  pub rig : Bytes
  pub status : ShareStatus
  pub candidate : List Bool
  pub difficulty : F
  pub block_difficulty : F

module _ {F B : Type 0} (c : Crypto) (f : Floats F B) (nodes : Nodes) (now : ℕ) where
  unfoldable pub submit_aux_block : ℕ → BitcoinBlock → Result (Unit {0})
  submit_aux_block n primary_block = do
    auxpow ← make_aux_pow c primary_block n
    t ← or_panic primary_block.template
    aux ← or_panic (if n == 0 then none else get_elem? t.aux_blocks (n - 1))
    proof ← serialize_aux_pow auxpow
    let answer = nodes.submit_aux_block n aux.hash proof
    if answer.success
        then (if answer.failed then err Error.node_rejection else ok tt)
        else if answer.failed
        then err Error.node_rejection
        else panic

  -- The fields that the code does not set keep Go's zero values.
  abbrev found_block : Config F → Judged F → Bytes → ℕ → F → Bytes → Bytes → Found F
  found_block config j chain height difficulty confirmation hash = record {
    id = 0;
    pool_id = config.pool_name;
    chain = chain;
    block_height = height;
    network_difficulty = difficulty;
    status = status_pending;
    kind = decimal (count_true j.candidate) ++ codes " candidates";
    confirmation_progress = f.zero;
    effort = f.zero;
    transaction_confirmation_data = confirmation;
    miner = j.miner;
    reward = f.zero;
    source = [];
    hash = hash;
    created = now;
  }

  -- The difficulty of the block is taken before the test for an invalid share: the weighing has read
  -- the same target.
  abbrev judged_of :
      BitcoinBlock × Result (Weighed F) → Template → Bytes → Bytes → Result (Judged F)
  judged_of (block, weighed) t miner rig = do
    (status, candidate, difficulty) ← weighed
    chain ← chain_of block
    block_difficulty ← to_difficulty f t.target
    ok record {
      block = block;
      template = t;
      miner = miner;
      rig = rig;
      status = status;
      candidate = candidate;
      difficulty = difficulty;
      block_difficulty = f.mul_whole block_difficulty (share_multiplier chain);
    }

  abbrev weighed_of :
      Config F → BitcoinBlock × Result Bytes → Template → Bytes → Bytes → Result (Judged F)
  weighed_of config (block, made) t miner rig = do
    header ← made
    judged_of (validate_and_weigh_share c f block config.pool_difficulty) t miner rig

  -- Up to the test for an invalid share; this part changes nothing but its copy of the block.
  unfoldable pub judge_work : Config F → BitcoinBlock → Work → StratumClient → Result (Judged F)
  judge_work config primary share client = do
    t ← or_error primary.template Error.template_not_set
    worker ← text_at share 0
    let parts = split worker b'.'
    miner ← or_error (get_elem? parts 0) Error.invalid_miner_address
    rig ← or_error (get_elem? parts 1) Error.invalid_miner_address
    nonce ← text_at share 4
    extranonce2 ← text_at share 2
    nonce_time ← text_at share 3
    weighed_of config (make_header c (client.extranonce1 ++ extranonce2) nonce nonce_time primary) t
        miner rig

  abbrev pub share_of : Config F → StratumClient → Judged F → Share F
  share_of config client j = record {
    pool_id = config.pool_name;
    block_height = j.template.height;
    miner = j.miner;
    worker = j.rig;
    user_agent = client.user_agent;
    difficulty = j.difficulty;
    network_difficulty = j.block_difficulty;
    ip_address = client.ip;
    created = now;
  }

  -- The block of the primary chain: its hashes are empty where the code logs an error.
  unfoldable pub primary_found : Config F → Judged F → Result (Found F)
  primary_found config j = do
    name ← or_panic (get_elem? config.block_chain_order 0)
    hash ← text_of (header_hashed c j.block)
    confirmation ← text_of (coinbase_hashed c j.block)
    ok (found_block config j name j.template.height j.block_difficulty confirmation hash)

  unfoldable pub aux_found : Config F → Judged F → Bytes → AuxBlock → Result (Found F)
  aux_found config j name aux = do
    target ← pool_reverse_hex_bytes aux.target
    aux_difficulty ← to_difficulty f target
    chain ← get_chain name
    confirmation ← pool_reverse_hex_bytes aux.coinbase_hash
    ok (
        found_block config j name aux.height (f.mul_whole aux_difficulty (share_multiplier chain))
          confirmation aux.hash)

  -- An error of an insertion is only logged.
  unfoldable pub insert_found : Found F → List (Found F) → List (Found F)
  insert_found block blocks =
      if nodes.stores_block block.chain block.block_height then blocks ++ block ∷ [] else blocks

  -- A rejected auxiliary block is only logged.
  abbrev after_submit :
      Result (Unit {0}) → Result (Found F) → List (Found F) → Result (List (Found F))
  after_submit (ok u) found blocks = found >>= λ block. ok (insert_found block blocks)
  after_submit (err e) found blocks = ok blocks
  after_submit panic found blocks = panic

  -- The loop over the auxiliary chains, from the i-th on. The auxiliary blocks of the pool are those of
  -- its template.
  unfoldable pub aux_loop :
      Config F → Judged F → List Bytes → ℕ → List (Found F) → Result (List (Found F))
  aux_loop config j [] i blocks = ok blocks
  aux_loop config j (name ∷ rest) i blocks = do
    aux ← or_panic (get_elem? j.template.aux_blocks (i - 1))
    is_candidate ← or_panic (get_elem? j.candidate i)
    next ←
        if is_candidate
        then after_submit (submit_aux_block i j.block) (aux_found config j name aux) blocks
        else ok blocks
    aux_loop config j rest (i + 1) next

  -- The table of blocks behind the submissions for the primary chain and the auxiliary chains.
  unfoldable pub submitted_blocks : Config F → Judged F → List (Found F) → Result (List (Found F))
  submitted_blocks config j blocks = do
    is_candidate ← or_panic (get_elem? j.candidate 0)
    next ←
        if is_candidate
        then (do
          u ← submit_block_to_chain nodes j.block
          block ← primary_found config j
          ok (insert_found block blocks))
        else ok blocks
    aux_loop config j (drop 1 config.block_chain_order) 1 next

  abbrev pub with_blocks : Intake F → List (Found F) → Result (Intake F)
  with_blocks s blocks = ok (record s { blocks = blocks })

  unfoldable pub submit_candidates : Config F → Judged F → Intake F → Result (Intake F)
  submit_candidates config j s = submitted_blocks config j s.blocks >>= with_blocks s

  -- An error leaves the state before the submissions. A panic ends the program, and what it leaves
  -- in the table is not told.
  abbrev pub or_kept : Intake F → Result (Intake F) → Intake F × Result (Unit {0})
  or_kept s (ok s') = (s', ok tt)
  or_kept s (err e) = (s, err e)
  or_kept s panic = (s, panic)

  unfoldable pub credit : Config F → StratumClient → Judged F → Intake F → Intake F
  credit config client j s = record s {
    share_buffer = s.share_buffer ++ share_of config client j ∷ [];
  }

  -- The handler's three endings, by the status of the share.
  abbrev pub settle :
      ShareStatus → Config F → StratumClient → Judged F → Intake F → Intake F × Result (Unit {0})
  settle share_invalid config client j s = (s, err Error.invalid_share)
  settle share_valid config client j s = (credit config client j s, ok tt)
  settle share_candidate config client j s =
      let credited = credit config client j s in
      or_kept credited (submit_candidates config j credited)

  abbrev pub settled :
      Config F → StratumClient → Intake F → Result (Judged F) → Intake F × Result (Unit {0})
  settled config client s (ok j) = settle j.status config client j s
  settled config client s (err e) = (s, err e)
  settled config client s panic = (s, panic)

  unfoldable pub recieve_work_from_client :
      Config F → BitcoinBlock → Work → StratumClient → Intake F → Intake F × Result (Unit {0})
  recieve_work_from_client config primary share client s =
      settled config client s (judge_work config primary share client)
