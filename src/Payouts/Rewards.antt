-- ===== src/Payouts/Rewards.antt =====
-- payouts/rewards.go, and unlockBlocks of payouts/unlock.go.
use merged_mining_pool.Common.{
  ℕ, none, some, Option, List, [], ◌∷◌, ◌++◌, if◌then◌else◌, get_elem?, Error, ok, or_panic,
  or_error, Bytes, codes, bytes_eq,
}
use merged_mining_pool.Format.{decimal}
use merged_mining_pool.Rows.{Found, status_pending, status_orphaned, status_confirmed}
use merged_mining_pool.Storage.{Amounts, Action, ◌>>=◌, lift}
use merged_mining_pool.Storage.Balances.{add_amount}
use merged_mining_pool.Storage.Blocks.{pending_blocks_for_pool, block_before}
use merged_mining_pool.Storage.Shares.{get_effective_accumulated_share_difficulty_between}
use merged_mining_pool.Payouts.Setup.{Recipient, PayoutConfig, Remote}
use merged_mining_pool.Payouts.Schemes.{payout_scheme_factory, update_miner_balances}
use merged_mining_pool.Payouts.Classify.{classify_blocks}

abbrev pub created_or : {F : Type 0} → ℕ → Option (Found F) → ℕ
created_or from none = from
created_or from (some b) = b.created

module _ {F : Type 0} (m : Amounts F) where
  -- `from` keeps its value where there is no block before.
  unfoldable pub effort_loop : Bytes → ℕ → List (Found F) → Action F (List (Found F))
  effort_loop pool_id from [] = lift (ok [])
  effort_loop pool_id from (block ∷ blocks) = do
    last_block ←
        block_before pool_id (status_confirmed ∷ status_orphaned ∷ status_pending ∷ [])
          block.created
    effort ←
        get_effective_accumulated_share_difficulty_between m pool_id (created_or from last_block)
          block.created
    rest ← effort_loop pool_id (created_or from last_block) blocks
    lift (ok (record block { effort = effort } ∷ rest))

  unfoldable pub calculate_block_effort : Bytes → List (Found F) → Action F (List (Found F))
  calculate_block_effort pool_id blocks = effort_loop pool_id 0 blocks

  unfoldable pub unlock_blocks : Bytes → (Bytes → Option (Remote F)) → Action F (List (Found F))
  unlock_blocks pool_id managers = do
    pending ← pending_blocks_for_pool pool_id
    blocks ← lift (classify_blocks m managers pending)
    calculate_block_effort pool_id blocks

  -- A recipient that is the node's own reward address is not credited.
  abbrev pub credit_recipient : PayoutConfig F → Found F → Bytes → F → Bytes → Action F (Unit {0})
  credit_recipient config confirmed address amount reward_to =
      if bytes_eq address reward_to
      then lift (ok tt)
      else add_amount m
          (record { pool_id = config.pool_name; chain = confirmed.chain; address = address })
          (codes "Reward for block " ++ decimal confirmed.block_height) amount

  unfoldable pub pool_reward_loop :
      PayoutConfig F → Found F → ℕ → List (Recipient F) → F → Action F F
  pool_reward_loop config confirmed index [] remaining = lift (ok remaining)
  pool_reward_loop config confirmed index (recipient ∷ recipients) remaining = do
    reward_addresses ←
        lift (or_error (config.blockchain_nodes confirmed.chain) Error.no_blockchain_node)
    reward_to ← lift (or_panic (get_elem? reward_addresses index))
    u ←
        credit_recipient config confirmed recipient.address
          (m.mul recipient.percentage confirmed.reward) reward_to
    pool_reward_loop config confirmed index recipients
        (m.sub remaining (m.mul recipient.percentage confirmed.reward))

  unfoldable pub calculate_pool_reward : Found F → PayoutConfig F → Remote F → Action F F
  calculate_pool_reward confirmed config node = do
    payout ← lift (or_error (config.chains confirmed.chain) Error.no_payout_config)
    pool_reward_loop config confirmed node.index payout.pool_reward_recipients confirmed.reward

  unfoldable pub calculate_miner_rewards : F → Found F → PayoutConfig F → Action F ℕ
  calculate_miner_rewards remaining_reward confirmed config = do
    scheme ← lift (payout_scheme_factory config.scheme)
    update_miner_balances m scheme config.pool_name remaining_reward confirmed

  unfoldable pub calculate_block_rewards : Found F → PayoutConfig F → Remote F → Action F ℕ
  calculate_block_rewards confirmed config node = do
    remaining_reward ← calculate_pool_reward confirmed config node
    calculate_miner_rewards remaining_reward confirmed config
