-- ===== src/Payouts/Unrecorded.antt =====
-- What is left when sending fails, and when all is sent and recorded.
use merged_mining_pool.Common.{
  ◌≡◌, refl, ap, ◌∙◌, some, Option, List, [], ◌∷◌, ◌++◌, append_assoc, All, Error, ok, err, Bytes,
}
use merged_mining_pool.Rows.{Balance}
use merged_mining_pool.Storage.{Amounts, Database, continue_with, ◌>>=◌}
use merged_mining_pool.Payouts.Setup.{PayoutConfig, Remote}
use merged_mining_pool.Payouts.Payments.{
  map_set, group_balances, send_all, bitcoin_try_many_payments, due_balances, record_payments,
  payout_balances,
}

module _ {F : Type 0} (managers : Bytes → Option (Remote F)) where
  -- The chain's node takes the payments.
  abbrev pub IsTaken : Bytes × List (Bytes × F) → Type 0
  IsTaken (chain, payments) =
      (node : Remote F) × (id : Bytes) × (managers chain ≡ some node)
      × (node.send_many payments ≡ ok id)

  abbrev pub with_sent : List (Bytes × List (Bytes × F)) → Database F → Database F
  with_sent groups d = record d { sent = d.sent ++ groups }

  send_all-err :
      (front : List (Bytes × List (Bytes × F))) (chain : Bytes) (payments : List (Bytes × F))
      (behind : List (Bytes × List (Bytes × F))) (confirmations : List (Bytes × Bytes))
      (d : Database F) (node : Remote F) (x : Error)
      → All IsTaken front
      → managers chain ≡ some node
      → node.send_many payments ≡ err x
      → send_all managers (front ++ (chain, payments) ∷ behind) confirmations d
        ≡ (err x, with_sent (front ++ (chain, payments) ∷ []) d)
  unfolding send_all
  send_all-err [] chain payments behind confirmations d node x h at failed = rw (at, failed) refl
  send_all-err ((c, ps) ∷ front) chain payments behind confirmations d node x
        ((n, id, at_c, taken), hs) at failed =
      rw (at_c, taken)
        (send_all-err front chain payments behind (map_set c id confirmations)
            (with_sent ((c, ps) ∷ []) d) node x hs at failed
          ∙ ap (λ s. (err x, record d { sent = s }))
              (append_assoc d.sent ((c, ps) ∷ []) (front ++ (chain, payments) ∷ [])))

module _ {F : Type 0} (m : Amounts F) (config : PayoutConfig F)
    (managers : Bytes → Option (Remote F)) where
  -- If the due balances are read and grouped by chain, the nodes of the first groups take their
  -- payments, and the node of the next group answers with an error, then paying ends with that error:
  -- the wallets of all these groups have been told to pay, and nothing else of the database has changed.
  pub payout_balances-unrecorded :
      (d : Database F) (balances : List (Balance F)) (front : List (Bytes × List (Bytes × F)))
      (chain : Bytes) (payments : List (Bytes × F)) (behind : List (Bytes × List (Bytes × F)))
      (node : Remote F) (x : Error)
      → due_balances m config config.block_chain_order d ≡ (ok balances, d)
      → group_balances config.block_chain_order balances [] d
        ≡ (ok (front ++ (chain, payments) ∷ behind), d)
      → All (IsTaken managers) front
      → managers chain ≡ some node
      → node.send_many payments ≡ err x
      → payout_balances m config managers d
        ≡ (err x, with_sent managers (front ++ (chain, payments) ∷ []) d)
  unfolding payout_balances bitcoin_try_many_payments
  payout_balances-unrecorded d balances front chain payments behind node x due grouped taken at
        failed =
      ap
        (continue_with λ bs. bitcoin_try_many_payments bs config managers >>= λ confirmations.
          record_payments m config confirmations bs)
        due
      ∙ ap (continue_with λ confirmations. record_payments m config confirmations balances) (
          ap (continue_with λ groups. send_all managers groups []) grouped
          ∙ send_all-err managers front chain payments behind [] d node x taken at failed)
