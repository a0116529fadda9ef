-- ===== src/Payouts/Frames/Paying.antt =====
-- Paying respects such a relation.
use merged_mining_pool.Common.{Option, List, [], ◌∷◌, ◌++◌, Error, ok, or_error, Bytes, codes}
use merged_mining_pool.Rows.{Balance}
use merged_mining_pool.Storage.{Amounts, lift, gets, modify}
use merged_mining_pool.Storage.Balances.{
  Account, add_amount, insert_payment, get_pool_balances_over_threshold,
}
use merged_mining_pool.Payouts.Payer.{find_balance_address}
use merged_mining_pool.Payouts.Setup.{PayoutConfig, Remote}
use merged_mining_pool.Payouts.Payments.{
  map_get, map_set, add_payment, group_balances, send_all, bitcoin_try_many_payments, due_balances,
  record_payments, payout_balances,
}
use merged_mining_pool.Payouts.Frames.{
  Frames, PayoutFrame, >>=-Frames, lift-Frames, gets-Frames, rows-Frames, modify-Frames,
  change-Frames,
}

module _ {F : Type 0} (m : Amounts F) (p : PayoutFrame m) where
  due_balances-Frames :
      (config : PayoutConfig F) (chains : List Bytes)
      → Frames p.frame (due_balances m config chains)
  unfolding due_balances get_pool_balances_over_threshold
  due_balances-Frames config [] = lift-Frames (ok [])
  due_balances-Frames config (chain ∷ chains) =
      >>=-Frames (lift (or_error (config.chains chain) Error.no_payout_config)) _
        (lift-Frames (or_error (config.chains chain) Error.no_payout_config))
        λ payout.
          >>=-Frames
            (get_pool_balances_over_threshold m config.payment_threshold config.pool_name chain
              payout.miner_minimum_payment)
            _ (rows-Frames _)
            λ due.
              >>=-Frames (due_balances m config chains) _ (due_balances-Frames config chains)
                λ rest. lift-Frames (ok (due ++ rest))

  group_balances-Frames :
      (order : List Bytes) (balances : List (Balance F)) (groups : List (Bytes × List (Bytes × F)))
      → Frames p.frame (group_balances order balances groups)
  unfolding group_balances
  group_balances-Frames order [] groups = lift-Frames (ok groups)
  group_balances-Frames order (b ∷ balances) groups =
      >>=-Frames (lift (find_balance_address b order)) _
        (lift-Frames (find_balance_address b order))
        λ address.
          group_balances-Frames order balances (add_payment b.chain address b.amount groups)

  send_all-Frames :
      (managers : Bytes → Option (Remote F)) (groups : List (Bytes × List (Bytes × F)))
      (confirmations : List (Bytes × Bytes))
      → Frames p.frame (send_all managers groups confirmations)
  unfolding send_all
  send_all-Frames managers [] confirmations = lift-Frames (ok confirmations)
  send_all-Frames managers ((chain, transactions) ∷ groups) confirmations =
      >>=-Frames (lift (or_error (managers chain) Error.no_chain_rpc)) _
        (lift-Frames (or_error (managers chain) Error.no_chain_rpc))
        λ node.
          >>=-Frames (modify (λ d. record d { sent = d.sent ++ (chain, transactions) ∷ [] })) _
            (modify-Frames _ (λ d. p.sends _ d))
            λ u.
              >>=-Frames (lift (node.send_many transactions)) _
                (lift-Frames (node.send_many transactions))
                λ id. send_all-Frames managers groups (map_set chain id confirmations)

  record_payments-Frames :
      (config : PayoutConfig F) (confirmations : List (Bytes × Bytes)) (balances : List (Balance F))
      → Frames p.frame (record_payments m config confirmations balances)
  unfolding record_payments insert_payment
  record_payments-Frames config confirmations [] = lift-Frames (ok tt)
  record_payments-Frames config confirmations (b ∷ balances) =
      let account : Account = record {
        pool_id = config.pool_name;
        chain = b.chain;
        address = b.address;
      } in
      >>=-Frames (lift (or_error (map_get b.chain confirmations) Error.no_confirmation)) _
        (lift-Frames (or_error (map_get b.chain confirmations) Error.no_confirmation))
        λ confirmation.
          >>=-Frames (lift (find_balance_address b config.block_chain_order)) _
            (lift-Frames (find_balance_address b config.block_chain_order))
            λ address. >>=-Frames (gets (λ d. d.now)) _ (gets-Frames (λ d. d.now)) λ now.
              >>=-Frames
                (insert_payment (record {
                  pool_id = b.pool_id;
                  chain = b.chain;
                  address = address;
                  amount = b.amount;
                  created = now;
                  transaction_confirmation_data = confirmation;
                }))
                _ (change-Frames _ (λ d. p.pays _ d))
                λ u.
                  >>=-Frames
                    (add_amount m account (codes "Paid balance to miner")
                      (m.mul b.amount m.minus_one))
                    _
                    (p.credits account (codes "Paid balance to miner") (m.mul b.amount m.minus_one))
                    λ v. record_payments-Frames config confirmations balances

  pub payout_balances-Frames :
      (config : PayoutConfig F) (managers : Bytes → Option (Remote F))
      → Frames p.frame (payout_balances m config managers)
  unfolding payout_balances bitcoin_try_many_payments
  payout_balances-Frames config managers =
      >>=-Frames (due_balances m config config.block_chain_order) _
        (due_balances-Frames config config.block_chain_order)
        λ balances.
          >>=-Frames (bitcoin_try_many_payments balances config managers) _
            (>>=-Frames (group_balances config.block_chain_order balances []) _
              (group_balances-Frames config.block_chain_order balances [])
              λ groups. send_all-Frames managers groups [])
            λ confirmations. record_payments-Frames config confirmations balances
