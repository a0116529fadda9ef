-- ===== src/Payouts/Frames/Passing.antt =====
-- A pass of the loop respects such a relation, if saving the unlocked blocks does.
use merged_mining_pool.Common.{◌≡◌, refl, Option, List, [], ◌∷◌, All, Result, ok, err, panic, Bytes}
use merged_mining_pool.Rows.{Found}
use merged_mining_pool.Storage.{Amounts, Database, Action, continue_with, ◌>>=◌, lift}
use merged_mining_pool.Storage.Blocks.{get_confirmed, update_block}
use merged_mining_pool.Payouts.Setup.{PayoutConfig, Remote}
use merged_mining_pool.Payouts.Rewards.{unlock_blocks}
use merged_mining_pool.Payouts.Payments.{payout_balances}
use merged_mining_pool.Payouts.Rounds.{
  logged, attempt, if_some, reward_confirmed, save_blocks, run_pass,
}
use merged_mining_pool.Payouts.Frames.{Frames, PayoutFrame, >>=-Frames, lift-Frames, attempt-Frames}
use merged_mining_pool.Payouts.Frames.Rewarding.{unlock_blocks-Frames, reward_confirmed-Frames}
use merged_mining_pool.Payouts.Frames.Paying.{payout_balances-Frames}

module _ {F : Type 0} (m : Amounts F) (p : PayoutFrame m) (config : PayoutConfig F)
    (managers : Bytes → Option (Remote F)) where
  save_blocks-Frames :
      (bs : List (Found F))
      → All (λ (b : Found F). Frames p.frame (update_block b)) bs
      → Frames p.frame (save_blocks m config managers bs)
  unfolding save_blocks
  save_blocks-Frames [] h = lift-Frames (ok tt)
  save_blocks-Frames (b ∷ bs) (h, hs) =
      >>=-Frames (attempt (update_block b)) _ (attempt-Frames (update_block b) h)
        λ u. save_blocks-Frames bs hs

  -- What follows the unlocking.
  abbrev after_unlock : List (Found F) → Action F (Unit {0})
  after_unlock blocks = do
    u ← reward_confirmed m config managers (get_confirmed blocks)
    v ← save_blocks m config managers blocks
    w ← attempt (payout_balances m config managers)
    lift (ok tt)

  after_unlock-Frames :
      (bs : List (Found F))
      → All (λ (b : Found F). Frames p.frame (update_block b)) bs
      → Frames p.frame (after_unlock bs)
  after_unlock-Frames bs h =
      >>=-Frames (reward_confirmed m config managers (get_confirmed bs)) _
        (reward_confirmed-Frames m p config managers (get_confirmed bs))
        λ u. >>=-Frames (save_blocks m config managers bs) _ (save_blocks-Frames bs h) λ v.
          >>=-Frames (attempt (payout_balances m config managers)) _
            (attempt-Frames (payout_balances m config managers)
              (payout_balances-Frames m p config managers))
            λ w. lift-Frames (ok tt)

  pub run_pass-related :
      (d : Database F)
      → ((bs : List (Found F)) (e : Database F)
          → unlock_blocks m config.pool_name managers d ≡ (ok bs, e)
          → All (λ (b : Found F). Frames p.frame (update_block b)) bs)
      → p.frame.related d (run_pass m config managers d).1
  unfolding run_pass
  run_pass-related d saved =
      by_result (unlock_blocks m config.pool_name managers d)
        ((unlock_blocks-Frames m p config.pool_name managers).keeps d) saved
    where
      by_result :
          (r : Result (List (Found F)) × Database F)
          → p.frame.related d r.1
          → ((bs : List (Found F)) (e : Database F)
              → r ≡ (ok bs, e)
              → All (λ (b : Found F). Frames p.frame (update_block b)) bs)
          → p.frame.related d
              (continue_with (λ unlocked. if_some unlocked after_unlock) (logged r)).1
      by_result (ok bs, e) h saved =
          p.frame.follows h ((after_unlock-Frames bs (saved bs e refl)).keeps e)
      by_result (err x, e) h saved = h
      by_result (panic, e) h saved = h
