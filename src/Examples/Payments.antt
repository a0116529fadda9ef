-- ===== src/Examples/Payments.antt =====
-- Runs of the theorems on what is sent and recorded.
use merged_mining_pool.Common.{ℕ, ◌≡◌, refl, List, [], ◌∷◌, ◌++◌, err, Error, Bytes, codes}
use merged_mining_pool.Rows.{Balance, Payment}
use merged_mining_pool.Storage.{Database, statement}
use merged_mining_pool.Storage.Balances.{
  same_account, add_amount, get_balance, insert_balance, update_balance, insert_payment,
  get_pool_balances_over_threshold,
}
use merged_mining_pool.Payouts.Payer.{find_balance_address, chain_index}
use merged_mining_pool.Payouts.Payments.{
  map_get, map_set, group_balances, due_balances, record_payments, payout_balances,
}
use merged_mining_pool.Payouts.Grouping.{sent_amount, last_amount, group_balances-last}
use merged_mining_pool.Payouts.Unrecorded.{with_sent, payout_balances-unrecorded}
use merged_mining_pool.Payouts.Recorded.{Records, record_payments-Records}
use merged_mining_pool.Examples.Ledger.{amounts, owed, database, config, node, broke, nodes}

-- Two balances that are paid to the address A of Litecoin: five and then three.
abbrev two : List (Balance ℕ)
two = owed (codes "A-X") 5 ∷ owed (codes "A-Y") 3 ∷ []

abbrev groups : List (Bytes × List (Bytes × ℕ))
groups = (codes "litecoin", (codes "A", 3) ∷ []) ∷ []

group_balances-last_example :
    sent_amount (codes "litecoin") (codes "A") groups
    ≡ last_amount config.block_chain_order (codes "litecoin") (codes "A") two
unfolding group_balances map_get map_set find_balance_address chain_index
group_balances-last_example =
    group_balances-last config.block_chain_order two database {groups = groups} (codes "litecoin")
      (codes "A") refl

-- A balance on each chain; the node of Dogecoin does not pay.
abbrev both : Database ℕ
both = record database {
  balances = owed (codes "A") 7 ∷ record (owed (codes "B") 9) { chain = codes "dogecoin" } ∷ [];
}

payout_balances-unrecorded_example : payout_balances amounts config nodes both ≡ (
  err Error.not_sent,
  with_sent nodes
      ((codes "litecoin", (codes "A", 7) ∷ []) ∷ (codes "dogecoin", (codes "B", 9) ∷ []) ∷ [])
      both,
)
unfolding group_balances map_get map_set find_balance_address chain_index due_balances statement
    get_pool_balances_over_threshold
payout_balances-unrecorded_example =
    payout_balances-unrecorded amounts config nodes both both.balances
      ((codes "litecoin", (codes "A", 7) ∷ []) ∷ []) (codes "dogecoin") ((codes "B", 9) ∷ []) []
      broke Error.not_sent refl refl ((node, codes "t", refl, refl), tt) refl refl

abbrev confirmations : List (Bytes × Bytes)
confirmations = (codes "litecoin", codes "t") ∷ []

record_payments-Records_example :
    (rows : List (Payment ℕ)) × ((record_payments amounts config confirmations two
        database).1.payments
      ≡ [] ++ rows)
    × Records amounts config confirmations two rows
unfolding record_payments map_get find_balance_address chain_index statement insert_payment
    add_amount get_balance update_balance same_account insert_balance
record_payments-Records_example =
    record_payments-Records amounts config confirmations two database refl
