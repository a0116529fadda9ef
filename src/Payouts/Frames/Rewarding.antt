-- ===== src/Payouts/Frames/Rewarding.antt =====
-- Unlocking and rewarding respect such a relation.
use merged_mining_pool.Common.{
  ℕ, ◌+◌, true, false, Option, none, some, List, [], ◌∷◌, ◌++◌, length, get_elem?, Error, ok,
  or_panic, or_error, Bytes, bytes_eq, codes,
}
use merged_mining_pool.Rows.{Found, status_pending, status_orphaned, status_confirmed}
use merged_mining_pool.Storage.{Amounts, Action, ◌>>=◌, lift, gets}
use merged_mining_pool.Storage.Balances.{Account, add_amount}
use merged_mining_pool.Storage.Shares.{
  delete_shares_before, get_effective_accumulated_share_difficulty_between,
}
use merged_mining_pool.Storage.Blocks.{pending_blocks_for_pool, block_before}
use merged_mining_pool.Format.{decimal}
use merged_mining_pool.Payouts.Setup.{Recipient, PayoutConfig, Remote}
use merged_mining_pool.Payouts.Tally.{PplnsTally, PropTally, pplns_step, prop_step, prop_rewards}
use merged_mining_pool.Payouts.Schemes.{
  page_loop, award_all, pplns_start, pplns_awards, prop_start, prop_awards, full_page, overflow_if,
  payout_scheme_factory, pplns_update_miner_balances, prop_update_miner_balances,
  solo_update_miner_balances, Scheme, prop, pplns, solo, update_miner_balances,
}
use merged_mining_pool.Payouts.Rewards.{
  created_or, effort_loop, calculate_block_effort, unlock_blocks, credit_recipient,
  pool_reward_loop, calculate_pool_reward, calculate_miner_rewards, calculate_block_rewards,
}
use merged_mining_pool.Payouts.Rounds.{attempt, if_some, or_stop, reward_confirmed}
use merged_mining_pool.Payouts.Frames.{
  Frames, PayoutFrame, >>=-Frames, lift-Frames, gets-Frames, query-Frames, rows-Frames,
  attempt-Frames, if-Frames, page_loop-Frames, change-Frames,
}

module _ {F : Type 0} (m : Amounts F) (p : PayoutFrame m) where
  award_all-Frames :
      (pool_id chain usage : Bytes) (rewards : List (Bytes × F))
      → Frames p.frame (award_all m pool_id chain usage rewards)
  unfolding award_all
  award_all-Frames pool_id chain usage [] = lift-Frames (ok tt)
  award_all-Frames pool_id chain usage ((miner, reward) ∷ rewards) =
      let account : Account = record { pool_id = pool_id; chain = chain; address = miner } in
      >>=-Frames (add_amount m account usage reward) _ (p.credits account usage reward)
        λ u. award_all-Frames pool_id chain usage rewards

  pplns_awards-Frames :
      (pool_id : Bytes) (confirmed : Found F) (t : PplnsTally F)
      → Frames p.frame (pplns_awards m pool_id confirmed t)
  pplns_awards-Frames pool_id confirmed t =
      let usage = codes "PPLNS REWARD FOR BLOCK " ++ decimal confirmed.block_height in
      >>=-Frames (award_all m pool_id confirmed.chain usage t.miner_rewards) _
        (award_all-Frames pool_id confirmed.chain usage t.miner_rewards)
        λ u. lift-Frames (ok t.cutoff_time)

  prop_awards-Frames :
      (pool_id : Bytes) (block_reward : F) (confirmed : Found F) (t : PropTally F)
      → Frames p.frame (prop_awards m pool_id block_reward confirmed t)
  prop_awards-Frames pool_id block_reward confirmed t =
      let usage = codes "PROP REWARD FOR BLOCK " ++ decimal confirmed.block_height in
      let shared =
        prop_rewards m (m.div block_reward t.accumulated_score) t.miner_scores block_reward [] in
      >>=-Frames (lift (overflow_if (m.at_most shared.0 m.zero))) _
        (lift-Frames (overflow_if (m.at_most shared.0 m.zero)))
        λ v.
          >>=-Frames (award_all m pool_id confirmed.chain usage shared.1) _
            (award_all-Frames pool_id confirmed.chain usage shared.1)
            λ u. lift-Frames (ok t.cutoff_time)

  update_miner_balances-Frames :
      (scheme : Scheme) (pool_id : Bytes) (reward : F) (confirmed : Found F)
      → Frames p.frame (update_miner_balances m scheme pool_id reward confirmed)
  unfolding pplns_update_miner_balances prop_update_miner_balances solo_update_miner_balances
  update_miner_balances-Frames prop pool_id reward confirmed =
      >>=-Frames (gets (λ d. length d.shares + 1)) _ (gets-Frames (λ d. length d.shares + 1))
        λ rounds.
          >>=-Frames
            (page_loop (prop_step m) (λ t. false) pool_id full_page rounds confirmed.created true
              (prop_start m))
            _
            (page_loop-Frames (prop_step m) (λ t. false) pool_id full_page rounds confirmed.created
              true (prop_start m))
            (prop_awards-Frames pool_id reward confirmed)
  update_miner_balances-Frames pplns pool_id reward confirmed =
      let step = pplns_step m reward in
      >>=-Frames (gets (λ d. length d.shares + 1)) _ (gets-Frames (λ d. length d.shares + 1))
        λ rounds.
          >>=-Frames
            (page_loop step (λ t. t.done) pool_id full_page rounds confirmed.created true
              (pplns_start m reward))
            _
            (page_loop-Frames step (λ t. t.done) pool_id full_page rounds confirmed.created true
              (pplns_start m reward))
            (pplns_awards-Frames pool_id confirmed)
  update_miner_balances-Frames solo pool_id reward confirmed =
      let account : Account = record {
        pool_id = pool_id;
        chain = confirmed.chain;
        address = confirmed.miner;
      } in
      let usage = codes "SOLO REWARD FOR BLOCK " ++ decimal confirmed.block_height in
      >>=-Frames (add_amount m account usage reward) _ (p.credits account usage reward)
        λ u. lift-Frames (ok confirmed.created)

  effort_loop-Frames :
      (pool_id : Bytes) (from : ℕ) (blocks : List (Found F))
      → Frames p.frame (effort_loop m pool_id from blocks)
  unfolding effort_loop block_before get_effective_accumulated_share_difficulty_between
  effort_loop-Frames pool_id from [] = lift-Frames (ok [])
  effort_loop-Frames pool_id from (block ∷ blocks) =
      >>=-Frames
        (block_before pool_id (status_confirmed ∷ status_orphaned ∷ status_pending ∷ [])
          block.created)
        _ (query-Frames _)
        λ last.
          >>=-Frames
            (get_effective_accumulated_share_difficulty_between m pool_id (created_or from last)
              block.created)
            _ (query-Frames _)
            λ effort.
              >>=-Frames (effort_loop m pool_id (created_or from last) blocks) _
                (effort_loop-Frames pool_id (created_or from last) blocks)
                λ rest. lift-Frames (ok (record block { effort = effort } ∷ rest))

  pub unlock_blocks-Frames :
      (pool_id : Bytes) (managers : Bytes → Option (Remote F))
      → Frames p.frame (unlock_blocks m pool_id managers)
  unfolding unlock_blocks pending_blocks_for_pool calculate_block_effort
  unlock_blocks-Frames pool_id managers =
      >>=-Frames (pending_blocks_for_pool pool_id) _ (rows-Frames _) λ pending.
        >>=-Frames (lift _) _ (lift-Frames _) λ blocks. effort_loop-Frames pool_id 0 blocks

  pool_reward_loop-Frames :
      (config : PayoutConfig F) (confirmed : Found F) (index : ℕ) (recipients : List (Recipient F))
      (remaining : F)
      → Frames p.frame (pool_reward_loop m config confirmed index recipients remaining)
  unfolding pool_reward_loop
  pool_reward_loop-Frames config confirmed index [] remaining = lift-Frames (ok remaining)
  pool_reward_loop-Frames config confirmed index (r ∷ rs) remaining =
      let amount = m.mul r.percentage confirmed.reward in
      let account : Account = record {
        pool_id = config.pool_name;
        chain = confirmed.chain;
        address = r.address;
      } in
      let usage = codes "Reward for block " ++ decimal confirmed.block_height in
      >>=-Frames
        (lift (or_error (config.blockchain_nodes confirmed.chain) Error.no_blockchain_node)) _
        (lift-Frames (or_error (config.blockchain_nodes confirmed.chain) Error.no_blockchain_node))
        λ addresses.
          >>=-Frames (lift (or_panic (get_elem? addresses index))) _
            (lift-Frames (or_panic (get_elem? addresses index)))
            λ reward_to.
              >>=-Frames (credit_recipient m config confirmed r.address amount reward_to) _
                (if-Frames (bytes_eq r.address reward_to) (lift (ok tt))
                  (add_amount m account usage amount) (lift-Frames (ok tt))
                  (p.credits account usage amount))
                λ u. pool_reward_loop-Frames config confirmed index rs (m.sub remaining amount)

  calculate_pool_reward-Frames :
      (confirmed : Found F) (config : PayoutConfig F) (node : Remote F)
      → Frames p.frame (calculate_pool_reward m confirmed config node)
  unfolding calculate_pool_reward
  calculate_pool_reward-Frames confirmed config node =
      >>=-Frames (lift (or_error (config.chains confirmed.chain) Error.no_payout_config)) _
        (lift-Frames (or_error (config.chains confirmed.chain) Error.no_payout_config))
        λ payout.
          pool_reward_loop-Frames config confirmed node.index payout.pool_reward_recipients
            confirmed.reward

  calculate_miner_rewards-Frames :
      (remaining : F) (confirmed : Found F) (config : PayoutConfig F)
      → Frames p.frame (calculate_miner_rewards m remaining confirmed config)
  unfolding calculate_miner_rewards
  calculate_miner_rewards-Frames remaining confirmed config =
      >>=-Frames (lift (payout_scheme_factory config.scheme)) _
        (lift-Frames (payout_scheme_factory config.scheme))
        λ scheme. update_miner_balances-Frames scheme config.pool_name remaining confirmed

  calculate_block_rewards-Frames :
      (confirmed : Found F) (config : PayoutConfig F) (node : Remote F)
      → Frames p.frame (calculate_block_rewards m confirmed config node)
  unfolding calculate_block_rewards
  calculate_block_rewards-Frames confirmed config node =
      >>=-Frames (calculate_pool_reward m confirmed config node) _
        (calculate_pool_reward-Frames confirmed config node)
        λ remaining. calculate_miner_rewards-Frames remaining confirmed config

  delete_shares_before-Frames :
      (pool_id : Bytes) (before : ℕ) → Frames p.frame (delete_shares_before pool_id before)
  unfolding delete_shares_before
  delete_shares_before-Frames pool_id before = change-Frames _ (λ d. p.clears _ d)

  clear_shares : PayoutConfig F → Option ℕ → Action F (Unit {0})
  clear_shares config cutoff =
      if_some cutoff λ t. attempt (delete_shares_before config.pool_name t) >>= λ done. lift (ok tt)

  clear_shares-Frames :
      (config : PayoutConfig F) (cutoff : Option ℕ) → Frames p.frame (clear_shares config cutoff)
  unfolding clear_shares
  clear_shares-Frames config none = lift-Frames (ok tt)
  clear_shares-Frames config (some t) =
      >>=-Frames (attempt (delete_shares_before config.pool_name t)) _
        (attempt-Frames (delete_shares_before config.pool_name t)
          (delete_shares_before-Frames config.pool_name t))
        λ done. lift-Frames (ok tt)

  pub reward_confirmed-Frames :
      (config : PayoutConfig F) (managers : Bytes → Option (Remote F)) (blocks : List (Found F))
      → Frames p.frame (reward_confirmed m config managers blocks)
  unfolding reward_confirmed clear_shares
  reward_confirmed-Frames config managers [] = lift-Frames (ok tt)
  reward_confirmed-Frames config managers (confirmed ∷ blocks) =
      >>=-Frames (lift (or_stop (managers confirmed.chain))) _
        (lift-Frames (or_stop (managers confirmed.chain)))
        λ node.
          >>=-Frames (attempt (calculate_block_rewards m confirmed config node)) _
            (attempt-Frames (calculate_block_rewards m confirmed config node)
              (calculate_block_rewards-Frames confirmed config node))
            λ cutoff.
              >>=-Frames (clear_shares config cutoff) _ (clear_shares-Frames config cutoff)
                λ u. reward_confirmed-Frames config managers blocks
