-- ===== src/Payouts/Rounds.antt =====
-- payouts/manager.go: a pass of the loop that unlocks, rewards, saves and pays.
use merged_mining_pool.Common.{none, some, Option, List, [], ◌∷◌, Result, ok, err, panic, Bytes}
use merged_mining_pool.Rows.{Found}
use merged_mining_pool.Storage.{Amounts, Database, Action, ◌>>=◌, lift}
use merged_mining_pool.Storage.Blocks.{get_confirmed, update_block}
use merged_mining_pool.Storage.Shares.{delete_shares_before}
use merged_mining_pool.Payouts.Setup.{PayoutConfig, Remote}
use merged_mining_pool.Payouts.Rewards.{unlock_blocks, calculate_block_rewards}
use merged_mining_pool.Payouts.Payments.{payout_balances}

-- An error is only logged.
abbrev pub logged : {F A : Type 0} → Result A × Database F → Result (Option A) × Database F
logged (ok a, d) = (ok (some a), d)
logged (err e, d) = (ok none, d)
logged (panic, d) = (panic, d)

abbrev pub attempt : {F A : Type 0} → Action F A → Action F (Option A)
attempt m d = logged (m d)

abbrev pub if_some : {F A : Type 0} → Option A → (A → Action F (Unit {0})) → Action F (Unit {0})
if_some none f = lift (ok tt)
if_some (some a) f = f a

abbrev pub or_stop : {A : Type 0} → Option A → Result A
or_stop none = panic
or_stop (some a) = ok a

module _ {F : Type 0} (m : Amounts F) (config : PayoutConfig F)
    (managers : Bytes → Option (Remote F)) where
  -- A block whose rewards fail stays confirmed, and is passed over.
  unfoldable pub reward_confirmed : List (Found F) → Action F (Unit {0})
  reward_confirmed [] = lift (ok tt)
  reward_confirmed (confirmed ∷ blocks) = do
    node ← lift (or_stop (managers confirmed.chain))
    cutoff ← attempt (calculate_block_rewards m confirmed config node)
    u ← if_some cutoff λ cutoff_time. do
      done ← attempt (delete_shares_before config.pool_name cutoff_time)
      lift (ok tt)
    reward_confirmed blocks

  unfoldable pub save_blocks : List (Found F) → Action F (Unit {0})
  save_blocks [] = lift (ok tt)
  save_blocks (block ∷ blocks) = do u ← attempt (update_block block); save_blocks blocks

  unfoldable pub run_pass : Action F (Unit {0})
  run_pass = do
    unlocked ← attempt (unlock_blocks m config.pool_name managers)
    if_some unlocked λ blocks. do
      u ← reward_confirmed (get_confirmed blocks)
      v ← save_blocks blocks
      w ← attempt (payout_balances m config managers)
      lift (ok tt)
