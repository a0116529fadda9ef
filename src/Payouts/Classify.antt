-- ===== src/Payouts/Classify.antt =====
-- payouts/unlock.go: what has become of a block, by the node of its chain.
use merged_mining_pool.Common.{
  Option, List, [], ◌∷◌, if◌then◌else◌, get_elem?, Error, Result, ok, err, ◌>>=◌, or_panic,
  or_error, Bytes, codes, bytes_eq,
}
use merged_mining_pool.Rows.{Found, status_orphaned, status_confirmed}
use merged_mining_pool.Encoding.{reverse_hex_bytes}
use merged_mining_pool.Chain.{get_chain, minimum_confirmations}
use merged_mining_pool.Storage.{Amounts}
use merged_mining_pool.Storage.Blocks.{round_to_three_digits}
use merged_mining_pool.Payouts.Setup.{WalletTransaction, Remote}

-- `reverseHexBytes` of package payouts, the same as that of package bitcoin.
unfoldable pub payouts_reverse_hex_bytes : Bytes → Result Bytes
payouts_reverse_hex_bytes hex = reverse_hex_bytes hex

-- A block without confirmation data takes the remote one for this pass.
unfoldable pub confirmation_data : Bytes → Bytes → Result Bytes
confirmation_data local remote =
    if bytes_eq local []
    then ok remote
    else if bytes_eq local remote
    then ok local
    else err Error.confirmation_mismatch

module _ {F : Type 0} (m : Amounts F) where
  -- The three cases of the `switch` on the category.
  unfoldable pub categorize : Found F → WalletTransaction F → Bytes → Result (Found F)
  categorize block transaction category =
      if bytes_eq category (codes "immature")
      then (do
        chain ← get_chain block.chain
        ok record block {
          confirmation_progress =
              round_to_three_digits m
                (m.div (m.whole transaction.confirmations) (m.whole (minimum_confirmations chain)));
          reward = transaction.amount;
        })
      else if bytes_eq category (codes "generate")
      then ok record block {
        status = status_confirmed;
        confirmation_progress = m.one;
        reward = transaction.amount;
      }
      else ok record block { status = status_orphaned; reward = m.zero }

  unfoldable pub classify_block : (Bytes → Option (Remote F)) → Found F → Result (Found F)
  classify_block managers block = do
    node ← or_error (managers block.chain) Error.no_chain_rpc
    transactions ← node.get_block_by_hash block.hash
    coinbase ← or_error (get_elem? transactions 0) Error.no_confirmation
    remote ← payouts_reverse_hex_bytes coinbase
    confirmation ← confirmation_data block.transaction_confirmation_data remote
    little_endian ← payouts_reverse_hex_bytes confirmation
    transaction ← node.get_transaction little_endian
    category ← or_panic (get_elem? transaction.categories 0)
    categorize block transaction category

  -- One block that cannot be classified ends the pass for all.
  unfoldable pub classify_blocks :
      (Bytes → Option (Remote F)) → List (Found F) → Result (List (Found F))
  classify_blocks managers [] = ok []
  classify_blocks managers (block ∷ blocks) = do
    classified ← classify_block managers block
    rest ← classify_blocks managers blocks
    ok (classified ∷ rest)
