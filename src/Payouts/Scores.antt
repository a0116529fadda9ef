-- ===== src/Payouts/Scores.antt =====
-- What PPLNS awards to a history whose shares are all below the window: full scores or nothing.
use merged_mining_pool.Common.{
  ◌≡◌, refl, ap, ◌∙◌, inl, inr, Bool, true, false, ◌||◌, List, [], ◌∷◌, ◌++◌, if◌then◌else◌,
  Bool-cases, All, Error, Result, ok, err, Bytes, codes,
}
use merged_mining_pool.Format.{decimal}
use merged_mining_pool.Rows.{Share, Found}
use merged_mining_pool.Storage.{Amounts, Database, continue_with, lift}
use merged_mining_pool.Storage.Balances.{keep}
use merged_mining_pool.Storage.Shares.{in_pool}
use merged_mining_pool.Storage.Paging.{IsStrict}
use merged_mining_pool.Payouts.Tally.{
  each_share, PplnsTally, add_at, window, score_of, pplns_awarded, pplns_step,
}
use merged_mining_pool.Payouts.Schemes.{award_all, pplns_update_miner_balances}
use merged_mining_pool.Payouts.Pages.{history}
use merged_mining_pool.Payouts.Whole.{StaysBelow, pplns_update_miner_balances-each_share}

All-keep : {A : Type 0} (P : A → Type 0) (p : A → Bool) (xs : List A) → All P xs → All P (keep p xs)
All-keep P p [] h = tt
All-keep P p (x ∷ xs) (h, hs) = elim (Bool-cases (p x)) [
  | inl e ↦ rw e (h, All-keep P p xs hs)
  | inr e ↦ rw e (All-keep P p xs hs)
]

module _ {F : Type 0} (m : Amounts F) (block_reward : F) where
  -- The award to a share of full score.
  abbrev pub full_reward : Share F → F
  full_reward x = m.div (m.mul (score_of m x) block_reward) (window m)

  -- At some share nothing is left of the reward.
  abbrev pub runs_out : F → List (Share F) → Bool
  runs_out remaining [] = false
  runs_out remaining (x ∷ xs) =
      let left = m.sub remaining (full_reward x) in m.at_most left m.zero || runs_out left xs

  abbrev left_of : F → List (Share F) → F
  left_of remaining [] = remaining
  left_of remaining (x ∷ xs) = left_of (m.sub remaining (full_reward x)) xs

  -- Every share at its full score, summed for each miner.
  abbrev pub full_rewards : List (Bytes × F) → List (Share F) → List (Bytes × F)
  full_rewards rewards [] = rewards
  full_rewards rewards (x ∷ xs) = full_rewards (add_at m x.miner (full_reward x) rewards) xs

  abbrev open_tally : F → List (Bytes × F) → PplnsTally F
  open_tally remaining rewards = record {
    remaining_reward = remaining;
    accumulated_score = m.zero;
    miner_rewards = rewards;
    cutoff_time = 0;
    done = false;
  }

  all_or_nothing : F → List (Bytes × F) → List (Share F) → Result (PplnsTally F)
  all_or_nothing remaining rewards xs =
      if runs_out remaining xs
      then err Error.payout_overflow
      else ok (open_tally (left_of remaining xs) (full_rewards rewards xs))

  pplns_awarded-below :
      (remaining : F) (rewards : List (Bytes × F)) (x : Share F)
      → StaysBelow m x
      → pplns_awarded m block_reward (open_tally remaining rewards) x
        ≡ open_tally (m.sub remaining (full_reward x)) (add_at m x.miner (full_reward x) rewards)
  pplns_awarded-below remaining rewards x below = ap by_reach below
    where
      by_reach : Bool → PplnsTally F
      by_reach reached =
          let reward =
            m.div (m.mul (if reached then m.sub (window m) m.zero else score_of m x) block_reward)
              (window m) in
          record {
            remaining_reward = m.sub remaining reward;
            accumulated_score = m.zero;
            miner_rewards = add_at m x.miner reward rewards;
            cutoff_time = if reached then x.created else 0;
            done = reached || false;
          }

  pplns_step-below :
      (remaining : F) (rewards : List (Bytes × F)) (x : Share F)
      → StaysBelow m x
      → let left = m.sub remaining (full_reward x) in
        pplns_step m block_reward (open_tally remaining rewards) x ≡ (
          if m.at_most left m.zero
          then err Error.payout_overflow
          else ok (open_tally left (add_at m x.miner (full_reward x) rewards)))
  unfolding pplns_step
  pplns_step-below remaining rewards x below =
      ap
        (λ (t : PplnsTally F).
          if m.at_most t.remaining_reward m.zero then err Error.payout_overflow else ok t)
        (pplns_awarded-below remaining rewards x below)

  each_share-all_or_nothing :
      (remaining : F) (rewards : List (Bytes × F)) (xs : List (Share F))
      → All (StaysBelow m) xs
      → each_share (pplns_step m block_reward) (open_tally remaining rewards) xs
        ≡ all_or_nothing remaining rewards xs
  unfolding each_share all_or_nothing
  each_share-all_or_nothing remaining rewards [] h = refl
  each_share-all_or_nothing remaining rewards (x ∷ xs) (h, hs) =
      rw (pplns_step-below remaining rewards x h)
        (elim (Bool-cases (m.at_most (m.sub remaining (full_reward x)) m.zero)) [
          | inl gone ↦ rw gone refl
          | inr kept ↦ rw kept (
              each_share-all_or_nothing (m.sub remaining (full_reward x))
                (add_at m x.miner (full_reward x) rewards) xs hs)
        ])

  -- With a database that answers, shares of different times in the pool, and no share whose score
  -- alone reaches the window, PPLNS takes every share of the pool up to the block's time at its full
  -- score, however many there are: if this uses the reward up at some share, it fails and awards
  -- nobody anything; and else it awards every miner the sum of the shares, and the time before which
  -- shares are no longer needed is zero.
  pub pplns_update_miner_balances-full_rewards :
      (pool_id : Bytes) (confirmed : Found F) (d : Database F)
      → d.outages ≡ []
      → IsStrict (keep (in_pool pool_id) d.shares)
      → All (StaysBelow m) d.shares
      → let shares = history pool_id confirmed.created true d in
        pplns_update_miner_balances m pool_id block_reward confirmed d ≡ (
          if runs_out block_reward shares
          then (err Error.payout_overflow, d)
          else continue_with
              (λ u. lift (ok 0))
              (award_all m pool_id confirmed.chain
                (codes "PPLNS REWARD FOR BLOCK " ++ decimal confirmed.block_height)
                (full_rewards [] shares)
                d))
  unfolding all_or_nothing
  pplns_update_miner_balances-full_rewards pool_id confirmed d up strict below =
      pplns_update_miner_balances-each_share m pool_id block_reward confirmed d up strict below
      ∙ (let shares = history pool_id confirmed.created true d in
          rw
            (each_share-all_or_nothing block_reward [] shares
              (All-keep (StaysBelow m) _ d.shares below))
            (elim (Bool-cases (runs_out block_reward shares)) [
              | inl out ↦ rw out refl
              | inr enough ↦ rw enough refl
            ]))
