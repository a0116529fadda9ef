-- ===== src/Storage/Shares.antt =====
-- persistence/share.go. The order of the rows of one time is the database's choice.
use merged_mining_pool.Common.{
  ℕ, Bool, not, ◌&&◌, List, [], ◌∷◌, ltb, leb, if◌then◌else◌, length, take, Error, Result, Bytes,
  bytes_eq,
}
use merged_mining_pool.Rows.{Share}
use merged_mining_pool.Storage.{Amounts, Action, ◌>>=◌, gets, modify, statement, query}
use merged_mining_pool.Storage.Balances.{keep}

module _ {F : Type 0} where
  -- A new row in front of all that are not newer.
  unfoldable pub place : Share F → List (Share F) → List (Share F)
  place s [] = s ∷ []
  place s (t ∷ ts) = if leb t.created s.created then s ∷ t ∷ ts else t ∷ place s ts

  unfoldable pub place_all : List (Share F) → List (Share F) → List (Share F)
  place_all [] table = table
  place_all (s ∷ ss) table = place_all ss (place s table)

  -- All rows in one transaction.
  unfoldable pub insert_batch : List (Share F) → Action F (Unit {0})
  insert_batch shares = do
    u ← statement
    modify (λ d. record d { shares = place_all shares d.shares })

  abbrev pub in_pool : Bytes → Share F → Bool
  in_pool pool_id s = bytes_eq s.pool_id pool_id

  -- `created < before`, or `created <= before`.
  abbrev pub earlier : ℕ → Bool → Share F → Bool
  earlier before inclusive s = if inclusive then leb s.created before else ltb s.created before

  unfoldable pub get_shares_before : Bytes → ℕ → Bool → ℕ → Action F (List (Share F))
  get_shares_before pool_id before inclusive page_size =
      query
        λ d. take page_size (keep (λ s. in_pool pool_id s && earlier before inclusive s) d.shares)

  -- The query compares with `<`, whatever `inclusive` says.
  unfoldable pub count_shares_before : Bytes → ℕ → Bool → Action F ℕ
  count_shares_before pool_id before inclusive = do
    u ← statement
    gets λ d. length (keep (λ s. in_pool pool_id s && ltb s.created before) d.shares)

  abbrev by_miner : Bytes → Bytes → Share F → Bool
  by_miner pool_id miner s = in_pool pool_id s && bytes_eq s.miner miner

  unfoldable pub count_shares_by_miner : Bytes → Bytes → Action F ℕ
  count_shares_by_miner pool_id miner = do
    u ← statement
    gets λ d. length (keep (by_miner pool_id miner) d.shares)

  unfoldable pub delete_shares_by_miner : Bytes → Bytes → Action F (Unit {0})
  delete_shares_by_miner pool_id miner = do
    u ← statement
    modify λ d. record d { shares = keep (λ s. not (by_miner pool_id miner s)) d.shares }

  unfoldable pub delete_shares_before : Bytes → ℕ → Action F (Unit {0})
  delete_shares_before pool_id before = do
    u ← statement
    modify λ d. record d {
      shares = keep (λ s. not (in_pool pool_id s && ltb s.created before)) d.shares;
    }

  -- `created > start AND created < end`.
  abbrev pub within : Bytes → ℕ → ℕ → Share F → Bool
  within pool_id start end s = in_pool pool_id s && (ltb start s.created && ltb s.created end)

module _ {F : Type 0} (m : Amounts F) where
  abbrev pub sum_by : (Share F → F) → F → List (Share F) → F
  sum_by value total [] = total
  sum_by value total (s ∷ ss) = sum_by value (m.add total (value s)) ss

  -- The sum of no rows is NULL, which cannot be scanned into a number.
  abbrev sum_or_null : (Share F → F) → List (Share F) → Action F F
  sum_or_null value [] d = (Result.err Error.database_error, d)
  sum_or_null value (s ∷ ss) d = (Result.ok (sum_by value (value s) ss), d)

  unfoldable pub get_effort_between_created : Bytes → F → ℕ → ℕ → Action F F
  get_effort_between_created pool_id share_const start end = do
    u ← statement
    rows ← gets (λ d. keep (within pool_id start end) d.shares)
    sum_or_null (λ s. m.div (m.mul s.difficulty share_const) s.network_difficulty) rows

  unfoldable pub get_accumulated_share_difficulty_between : Bytes → ℕ → ℕ → Action F F
  get_accumulated_share_difficulty_between pool_id start end = do
    u ← statement
    rows ← gets (λ d. keep (within pool_id start end) d.shares)
    sum_or_null (λ s. s.difficulty) rows

  -- `coalesce(SUM(…), 0)`.
  unfoldable pub get_effective_accumulated_share_difficulty_between : Bytes → ℕ → ℕ → Action F F
  get_effective_accumulated_share_difficulty_between pool_id start end = do
    u ← statement
    gets λ d.
        sum_by (λ s. m.div s.difficulty s.network_difficulty) m.zero
          (keep (within pool_id start end) d.shares)
