-- ===== src/Storage/Blocks.antt =====
-- persistence/found.go.
use merged_mining_pool.Common.{
  ℕ, suc, ◌+◌, Bool, true, false, not, ◌&&◌, ◌||◌, Option, none, some, List, [], ◌∷◌, ◌++◌, map,
  ltb, leb, ◌==◌, if◌then◌else◌, length, Error, ok, err, Bytes, bytes_eq,
}
use merged_mining_pool.Rows.{Found, status_pending, status_confirmed}
use merged_mining_pool.Storage.{Amounts, Action, ◌>>=◌, gets, modify, statement, query}
use merged_mining_pool.Storage.Balances.{keep}

module _ {F : Type 0} where
  abbrev pub is_pending : Found F → Bool
  is_pending b = bytes_eq b.status status_pending

  -- `GetConfirmed`.
  unfoldable pub get_confirmed : List (Found F) → List (Found F)
  get_confirmed blocks = keep (λ b. bytes_eq b.status status_confirmed) blocks

  -- The columns that `Update` sets, on the row of the block's number.
  abbrev pub updated_row : Found F → Found F → Found F
  updated_row block row =
      if row.id == block.id
      then record row {
        block_height = block.block_height;
        status = block.status;
        kind = block.kind;
        reward = block.reward;
        effort = block.effort;
        confirmation_progress = block.confirmation_progress;
        hash = block.hash;
      }
      else row

  abbrev pub has_row : Found F → List (Found F) → Bool
  has_row block [] = false
  has_row block (row ∷ rows) = row.id == block.id || has_row block rows

  abbrev pub rows_affected : Bool → Action F (Unit {0})
  rows_affected true d = (ok tt, d)
  rows_affected false d = (err Error.no_update, d)

  unfoldable pub update_block : Found F → Action F (Unit {0})
  update_block block = do
    u ← statement
    found ← gets (λ d. has_row block d.blocks)
    v ← modify (λ d. record d { blocks = map (updated_row block) d.blocks })
    rows_affected found

  unfoldable pub delete_block : Found F → Action F (Unit {0})
  delete_block block = do
    u ← statement
    modify (λ d. record d { blocks = keep (λ row. not (row.id == block.id)) d.blocks })

  unfoldable pub pending_blocks_for_pool : Bytes → Action F (List (Found F))
  pending_blocks_for_pool pool_id =
      query (λ d. keep (λ b. bytes_eq b.pool_id pool_id && is_pending b) d.blocks)

  abbrev in_statuses : List Bytes → Found F → Bool
  in_statuses [] b = false
  in_statuses (s ∷ ss) b = bytes_eq b.status s || in_statuses ss b

  -- The newest row, the first of those of one time.
  abbrev newer : Found F → Option (Found F) → Option (Found F)
  newer b none = some b
  newer b (some c) = if ltb b.created c.created then some c else some b

  abbrev pub newest : List (Found F) → Option (Found F)
  newest [] = none
  newest (b ∷ bs) = newer b (newest bs)

  unfoldable pub block_before : Bytes → List Bytes → ℕ → Action F (Option (Found F))
  block_before pool_id statuses before = do
    u ← statement
    gets λ d. newest (
        keep (λ b. bytes_eq b.pool_id pool_id && (in_statuses statuses b && ltb b.created before))
          d.blocks)

  unfoldable pub pool_block_count : Bytes → Action F ℕ
  pool_block_count pool_id = do
    u ← statement
    gets (λ d. length (keep (λ b. bytes_eq b.pool_id pool_id) d.blocks))

  -- `now() - INTERVAL '1 HOURS'`, in seconds.
  unfoldable pub pool_blocks_per_hour : Bytes → Action F ℕ
  pool_blocks_per_hour pool_id = do
    u ← statement
    gets λ d.
        length (keep (λ b. bytes_eq b.pool_id pool_id && leb d.now (b.created + 3600)) d.blocks)

  abbrev created_of : Option (Found F) → Action F ℕ
  created_of none d = (err Error.database_error, d)
  created_of (some b) d = (ok b.created, d)

  -- A pool without blocks gives the error of a scan without rows.
  unfoldable pub pool_last_block_time : Bytes → Action F ℕ
  pool_last_block_time pool_id = do
    u ← statement
    last ← gets (λ d. newest (keep (λ b. bytes_eq b.pool_id pool_id) d.blocks))
    created_of last

module _ {F : Type 0} (m : Amounts F) where
  -- `roundToThreeDigits`.
  unfoldable pub round_to_three_digits : F → F
  round_to_three_digits x = m.div (m.round (m.mul x m.thousand)) m.thousand

  -- The database numbers the row.
  unfoldable pub insert_block : Found F → Action F (Unit {0})
  insert_block block = do
    u ← statement
    modify λ d. record d {
      blocks =
          d.blocks
          ++ record block {
            id = d.next_id;
            network_difficulty = round_to_three_digits block.network_difficulty;
          }
            ∷ [];
      next_id = suc d.next_id;
    }
