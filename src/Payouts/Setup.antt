-- ===== src/Payouts/Setup.antt =====
-- What the payouts are given: the configuration of config/config.go, and the nodes.
use merged_mining_pool.Common.{ℕ, Option, List, Result, Bytes}

pub record Recipient (F : Type 0) : Type 0 where
  pub address : Bytes
  pub percentage : F

pub record ChainPayout (F : Type 0) : Type 0 where
  pub miner_minimum_payment : F
  pub pool_reward_recipients : List (Recipient F)

-- `blockchain_nodes` gives the reward address of each node of a chain, and `payment_threshold` the
-- miners' own thresholds in the table of settings.
pub record PayoutConfig (F : Type 0) : Type 0 where
  pub pool_name : Bytes
  pub block_chain_order : List Bytes
  pub scheme : Bytes
  pub chains : Bytes → Option (ChainPayout F)
  pub blockchain_nodes : Bytes → Option (List Bytes)
  pub payment_threshold : Bytes → Option F

-- `Transaction` of rpc/transactions.go, with the categories of its details.
pub record WalletTransaction (F : Type 0) : Type 0 where
  pub amount : F
  pub confirmations : ℕ
  pub categories : List Bytes

-- The active node of a chain's manager: its index, and its answers.
pub record Remote (F : Type 0) : Type 0 where
  pub index : ℕ
  pub get_block_by_hash : Bytes → Result (List Bytes)
  pub get_transaction : Bytes → Result (WalletTransaction F)
  pub send_many : List (Bytes × F) → Result Bytes
