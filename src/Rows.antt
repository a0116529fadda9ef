-- ===== src/Rows.antt =====
-- The rows of the database: persistence/share.go, found.go, balance.go and payment.go. Times are
-- numbers, zero for Go's zero time; `F` stands for floats of both widths.
use merged_mining_pool.Common.{ℕ, Bytes, codes}

pub record Share (F : Type 0) : Type 0 where
  pub pool_id : Bytes
  pub block_height : ℕ
  pub miner : Bytes
  pub worker : Bytes
  pub user_agent : Bytes
  pub difficulty : F
  pub network_difficulty : F
  pub ip_address : Bytes
  pub created : ℕ

abbrev pub status_pending : Bytes
status_pending = codes "pending"

abbrev pub status_orphaned : Bytes
status_orphaned = codes "orphaned"

abbrev pub status_confirmed : Bytes
status_confirmed = codes "confirmed"

-- The field `Type` is `kind` here.
pub record Found (F : Type 0) : Type 0 where
  pub id : ℕ
  pub pool_id : Bytes
  pub chain : Bytes
  pub block_height : ℕ
  pub network_difficulty : F
  pub status : Bytes
  pub kind : Bytes
  pub confirmation_progress : F
  pub effort : F
  pub transaction_confirmation_data : Bytes
  pub miner : Bytes
  pub reward : F
  pub source : Bytes
  pub hash : Bytes
  pub created : ℕ

pub record Balance (F : Type 0) : Type 0 where
  pub pool_id : Bytes
  pub chain : Bytes
  pub address : Bytes
  pub amount : F
  pub created : ℕ
  pub updated : ℕ

-- The number of the row is left to the database.
pub record BalanceChange (F : Type 0) : Type 0 where
  pub pool_id : Bytes
  pub chain : Bytes
  pub address : Bytes
  pub amount : F
  pub usage : Bytes
  pub created : ℕ

pub record Payment (F : Type 0) : Type 0 where
  pub pool_id : Bytes
  pub chain : Bytes
  pub address : Bytes
  pub amount : F
  pub created : ℕ
  pub transaction_confirmation_data : Bytes
