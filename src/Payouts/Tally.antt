-- ===== src/Payouts/Tally.antt =====
-- What the schemes of payouts/pplns.go and payouts/prop.go do with one share.
use merged_mining_pool.Common.{
  ℕ, Bool, ◌||◌, List, [], ◌∷◌, ltb, ◌==◌, if◌then◌else◌, Error, Result, ok, err, ◌>>=◌, Bytes,
  bytes_eq,
}
use merged_mining_pool.Rows.{Share}
use merged_mining_pool.Storage.{Amounts}

-- The inner loop over the shares of a page.
unfoldable pub each_share :
    {F S : Type 0} → (S → Share F → Result S) → S → List (Share F) → Result S
each_share step s [] = ok s
each_share step s (share ∷ shares) = step s share >>= λ s'. each_share step s' shares

pub record PplnsTally (F : Type 0) : Type 0 where
  pub remaining_reward : F
  pub accumulated_score : F
  pub miner_rewards : List (Bytes × F)
  pub cutoff_time : ℕ
  pub done : Bool

pub record PropTally (F : Type 0) : Type 0 where
  pub miner_shares : List (Bytes × F)
  pub miner_scores : List (Bytes × F)
  pub accumulated_score : F
  pub cutoff_time : ℕ

module _ {F : Type 0} (m : Amounts F) where
  -- `rewards[miner] += x` on a Go map; its entries stand in the order in which the keys came.
  unfoldable pub add_at : Bytes → F → List (Bytes × F) → List (Bytes × F)
  add_at miner x [] = (miner, m.add m.zero x) ∷ []
  add_at miner x ((k, v) ∷ rest) =
      if bytes_eq k miner then (k, m.add v x) ∷ rest else (k, v) ∷ add_at miner x rest

  -- `NWindow`.
  abbrev pub window : F
  window = m.whole 2

  abbrev pub score_of : Share F → F
  score_of share = m.div share.difficulty share.network_difficulty

  abbrev pub reaches_window : PplnsTally F → Share F → Bool
  reaches_window t share = m.at_most window (m.add t.accumulated_score (score_of share))

  -- The award to a share, whose score is cut off at the window.
  abbrev pub pplns_reward : F → PplnsTally F → Share F → F
  pplns_reward block_reward t share =
      m.div
        (m.mul (if reaches_window t share then m.sub window t.accumulated_score else score_of share)
          block_reward)
        window

  -- A share that reaches the window ends the outer loop; the inner loop goes on.
  abbrev pub pplns_awarded : F → PplnsTally F → Share F → PplnsTally F
  pplns_awarded block_reward t share = record t {
    remaining_reward = m.sub t.remaining_reward (pplns_reward block_reward t share);
    miner_rewards = add_at share.miner (pplns_reward block_reward t share) t.miner_rewards;
    cutoff_time = if reaches_window t share then share.created else t.cutoff_time;
    done = reaches_window t share || t.done;
  }

  unfoldable pub pplns_step : F → PplnsTally F → Share F → Result (PplnsTally F)
  pplns_step block_reward t share =
      let t' = pplns_awarded block_reward t share in
      if m.at_most t'.remaining_reward m.zero then err Error.payout_overflow else ok t'

  unfoldable pub prop_step : PropTally F → Share F → Result (PropTally F)
  prop_step t share = ok record {
    miner_shares = add_at share.miner share.difficulty t.miner_shares;
    miner_scores = add_at share.miner (score_of share) t.miner_scores;
    accumulated_score = m.add t.accumulated_score (score_of share);
    cutoff_time =
        if t.cutoff_time == 0 || ltb t.cutoff_time share.created
        then share.created
        else t.cutoff_time;
  }

  -- The loop over the scores: what is left of the reward, and the reward of each miner.
  unfoldable pub prop_rewards : F → List (Bytes × F) → F → List (Bytes × F) → F × List (Bytes × F)
  prop_rewards per_point [] remaining rewards = (remaining, rewards)
  prop_rewards per_point ((miner, score) ∷ scores) remaining rewards =
      prop_rewards per_point scores (m.sub remaining (m.mul score per_point))
        (add_at miner (m.mul score per_point) rewards)
