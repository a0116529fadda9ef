-- ===== src/Payouts/Payments.antt =====
-- payouts/payer.go: what is owed is sent and recorded.
use merged_mining_pool.Common.{
  none, some, Option, List, [], ◌∷◌, ◌++◌, if◌then◌else◌, Error, ok, or_error, Bytes, codes,
  bytes_eq,
}
use merged_mining_pool.Rows.{Balance}
use merged_mining_pool.Storage.{Amounts, Action, ◌>>=◌, lift, gets, modify}
use merged_mining_pool.Storage.Balances.{
  add_amount, insert_payment, get_pool_balances_over_threshold,
}
use merged_mining_pool.Payouts.Setup.{PayoutConfig, Remote}
use merged_mining_pool.Payouts.Payer.{find_balance_address}

-- A Go map from texts, its entries in the order in which the keys came.
module _ {V : Type 0} where
  unfoldable pub map_get : Bytes → List (Bytes × V) → Option V
  map_get key [] = none
  map_get key ((k, v) ∷ m) = if bytes_eq k key then some v else map_get key m

  unfoldable pub map_set : Bytes → V → List (Bytes × V) → List (Bytes × V)
  map_set key value [] = (key, value) ∷ []
  map_set key value ((k, v) ∷ m) =
      if bytes_eq k key then (k, value) ∷ m else (k, v) ∷ map_set key value m

abbrev pub or_no_entries : {V : Type 0} → Option (List V) → List V
or_no_entries none = []
or_no_entries (some entries) = entries

module _ {F : Type 0} where
  abbrev pub add_payment :
      Bytes → Bytes → F → List (Bytes × List (Bytes × F)) → List (Bytes × List (Bytes × F))
  add_payment chain address amount groups =
      map_set chain (map_set address amount (or_no_entries (map_get chain groups))) groups

  -- The payments of each chain; a later balance of an address takes the place of an earlier one.
  unfoldable pub group_balances :
      List Bytes
      → List (Balance F)
      → List (Bytes × List (Bytes × F))
      → Action F (List (Bytes × List (Bytes × F)))
  group_balances order [] groups = lift (ok groups)
  group_balances order (balance ∷ balances) groups = do
    address ← lift (find_balance_address balance order)
    group_balances order balances (add_payment balance.chain address balance.amount groups)

  -- Go ranges over the map in any order; this is the order in which the chains came.
  unfoldable pub send_all :
      (Bytes → Option (Remote F))
      → List (Bytes × List (Bytes × F))
      → List (Bytes × Bytes)
      → Action F (List (Bytes × Bytes))
  send_all managers [] confirmations = lift (ok confirmations)
  send_all managers ((chain, transactions) ∷ groups) confirmations = do
    node ← lift (or_error (managers chain) Error.no_chain_rpc)
    u ← modify (λ d. record d { sent = d.sent ++ (chain, transactions) ∷ [] })
    transaction_id ← lift (node.send_many transactions)
    send_all managers groups (map_set chain transaction_id confirmations)

  unfoldable pub bitcoin_try_many_payments :
      List (Balance F)
      → PayoutConfig F
      → (Bytes → Option (Remote F))
      → Action F (List (Bytes × Bytes))
  bitcoin_try_many_payments balances config managers = do
    groups ← group_balances config.block_chain_order balances []
    send_all managers groups []

module _ {F : Type 0} (m : Amounts F) where
  -- The balances of all chains that are due.
  unfoldable pub due_balances : PayoutConfig F → List Bytes → Action F (List (Balance F))
  due_balances config [] = lift (ok [])
  due_balances config (chain ∷ chains) = do
    payout ← lift (or_error (config.chains chain) Error.no_payout_config)
    due ←
        get_pool_balances_over_threshold m config.payment_threshold config.pool_name chain
          payout.miner_minimum_payment
    rest ← due_balances config chains
    lift (ok (due ++ rest))

  -- Each balance is recorded as paid, and its amount taken off.
  unfoldable pub record_payments :
      PayoutConfig F → List (Bytes × Bytes) → List (Balance F) → Action F (Unit {0})
  record_payments config confirmations [] = lift (ok tt)
  record_payments config confirmations (balance ∷ balances) = do
    confirmation ← lift (or_error (map_get balance.chain confirmations) Error.no_confirmation)
    address ← lift (find_balance_address balance config.block_chain_order)
    now ← gets (λ d. d.now)
    u ← insert_payment (record {
      pool_id = balance.pool_id;
      chain = balance.chain;
      address = address;
      amount = balance.amount;
      created = now;
      transaction_confirmation_data = confirmation;
    })
    v ←
        add_amount m
          (record { pool_id = config.pool_name; chain = balance.chain; address = balance.address })
          (codes "Paid balance to miner") (m.mul balance.amount m.minus_one)
    record_payments config confirmations balances

  unfoldable pub payout_balances :
      PayoutConfig F → (Bytes → Option (Remote F)) → Action F (Unit {0})
  payout_balances config managers = do
    balances ← due_balances config config.block_chain_order
    confirmations ← bitcoin_try_many_payments balances config managers
    record_payments config confirmations balances
