-- ===== src/Template.antt =====
-- bitcoin/template.go and the data of bitcoin/auxBlock.go.
use merged_mining_pool.Common.{ℕ, List, Bytes}
use merged_mining_pool.Common.Int.{ℤ}

pub record Transaction : Type 0 where
  pub data_hex : Bytes
  pub id : Bytes
  pub fee : ℕ

pub record AuxBlock : Type 0 where
  pub hash : Bytes
  pub other_hash : Bytes
  pub chain_id : ℤ
  pub previous_block_hash : Bytes
  pub coinbase_hash : Bytes
  pub coinbase_value : ℕ
  pub bits : Bytes
  pub height : ℕ
  pub target : Bytes
  pub target2 : Bytes

-- Texts are hex unless the name says otherwise; `uint` is 64 bits wide.
pub record Template : Type 0 where
  pub version : ℕ
  pub prev_block_hash : Bytes
  pub height : ℕ
  pub coin_base_value : ℕ
  pub default_witness_commitment : Bytes
  pub bits : Bytes
  pub target : Bytes
  pub transactions : List Transaction
  pub current_time : ℕ
  pub mimble_wimble : Bytes
  pub aux_blocks : List AuxBlock
