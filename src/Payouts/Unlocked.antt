-- ===== src/Payouts/Unlocked.antt =====
-- The blocks that a pass saves are rows that were pending before it.
use merged_mining_pool.Common.{
  take, ℕ, zero, suc, ◌≡◌, ◌≢◌, refl, ap, ◌∙◌, inl, inr, Bool, true, ◌&&◌, some, Option, List, [],
  ◌∷◌, arith, Bool-cases, get_elem?, All, Error, Result, ok, err, panic, or_panic, or_error,
  >>=-eq-ok, Bytes, bytes_eq, codes,
}
use mathlib.Core.Path.{subst}
use merged_mining_pool.Chain.{get_chain}
use merged_mining_pool.Rows.{Found, status_pending, status_orphaned, status_confirmed}
use merged_mining_pool.Storage.{Outage, rows_left, Amounts, Database, lift, statement}
use merged_mining_pool.Storage.Actions.{action-eq-ok, lift-eq-ok}
use merged_mining_pool.Storage.Balances.{keep}
use merged_mining_pool.Storage.Blocks.{is_pending, pending_blocks_for_pool, block_before}
use merged_mining_pool.Storage.Shares.{get_effective_accumulated_share_difficulty_between}
use merged_mining_pool.Payouts.Setup.{Remote, WalletTransaction}
use merged_mining_pool.Payouts.Classify.{
  classify_blocks, classify_block, categorize, confirmation_data, payouts_reverse_hex_bytes,
}
use merged_mining_pool.Payouts.Rewards.{
  created_or, effort_loop, calculate_block_effort, unlock_blocks,
}

module _ {F : Type 0} where
  abbrev pub IsRow : ℕ → Found F → Database F → Type 0
  IsRow i r d = get_elem? d.blocks i ≡ some r

  -- No two rows have the same number.
  abbrev pub IsNumbered : Database F → Type 0
  IsNumbered d = (i j : ℕ) (r s : Found F) → IsRow i r d → IsRow j s d → r.id ≡ s.id → i ≡ j

  abbrev id_of : ℕ → Result (Found F) → ℕ
  id_of n (ok b) = b.id
  id_of n (err e) = n
  id_of n panic = n

  module _ (m : Amounts F) where
    categorize-id :
        (b : Found F) (t : WalletTransaction F) (category : Bytes) {c : Found F}
        → categorize m b t category ≡ ok c
        → b.id ≡ c.id
    unfolding categorize
    categorize-id b t category {c} h = elim (Bool-cases (bytes_eq category (codes "immature"))) [
      | inl e ↦
          let h1 : _ = rw e at h in
          let (chain, got, done) = >>=-eq-ok (get_chain b.chain) _ h1 in ap (id_of b.id) done
      | inr e ↦ elim (Bool-cases (bytes_eq category (codes "generate"))) [
        | inl g ↦ ap (id_of b.id) (rw (e, g) at h)
        | inr g ↦ ap (id_of b.id) (rw (e, g) at h)
      ]
    ]

    classify_block-id :
        (managers : Bytes → Option (Remote F)) (b : Found F) {c : Found F}
        → classify_block m managers b ≡ ok c
        → b.id ≡ c.id
    unfolding classify_block
    classify_block-id managers b {c} h0 =
        let (node, _, h1) = >>=-eq-ok (or_error (managers b.chain) Error.no_chain_rpc) _ h0 in
        let (transactions, _, h2) = >>=-eq-ok (node.get_block_by_hash b.hash) _ h1 in
        let (coinbase, _, h3) =
          >>=-eq-ok (or_error (get_elem? transactions 0) Error.no_confirmation) _ h2 in
        let (remote, _, h4) = >>=-eq-ok (payouts_reverse_hex_bytes coinbase) _ h3 in
        let (confirmation, _, h5) =
          >>=-eq-ok (confirmation_data b.transaction_confirmation_data remote) _ h4 in
        let (little_endian, _, h6) = >>=-eq-ok (payouts_reverse_hex_bytes confirmation) _ h5 in
        let (transaction, _, h7) = >>=-eq-ok (node.get_transaction little_endian) _ h6 in
        let (category, _, h8) = >>=-eq-ok (or_panic (get_elem? transaction.categories 0)) _ h7 in
        categorize-id b transaction category h8

  module _ (n : ℕ) where
    -- The block is not the one of number `n`.
    abbrev pub IsOther : Found F → Type 0
    IsOther b = b.id ≢ n

    keep-IsOther :
        (q : Found F → Bool) (xs : List (Found F))
        → ((j : ℕ) (x : Found F) → get_elem? xs j ≡ some x → q x ≡ true → IsOther x)
        → All IsOther (keep q xs)
    keep-IsOther q [] h = tt
    keep-IsOther q (x ∷ xs) h =
        let rest = keep-IsOther q xs (λ j. h (suc j)) in
        elim (Bool-cases (q x)) [ inl e ↦ rw e (h zero x refl e, rest) | inr e ↦ rw e rest ]

    module _ (m : Amounts F) where
      classify_blocks-IsOther :
          (managers : Bytes → Option (Remote F)) (bs : List (Found F)) {cs : List (Found F)}
          → All IsOther bs
          → classify_blocks m managers bs ≡ ok cs
          → All IsOther cs
      unfolding classify_blocks
      classify_blocks-IsOther managers [] {cs} h e =
          let none_left : [] ≡ cs = cc in subst (All IsOther) none_left tt
      classify_blocks-IsOther managers (b ∷ bs) {cs} (h, hs) e =
          let (c, at_b, e1) = >>=-eq-ok (classify_block m managers b) _ e in
          let (rest, at_bs, e2) = >>=-eq-ok (classify_blocks m managers bs) _ e1 in
          let whole : c ∷ rest ≡ cs = cc in
          subst (All IsOther) whole (
            (λ same. h (classify_block-id m managers b at_b ∙ same)),
            classify_blocks-IsOther managers bs hs at_bs,
          )

      effort_loop-IsOther :
          (pool_id : Bytes) (from : ℕ) (bs : List (Found F)) (d : Database F) {cs : List (Found F)}
          {e : Database F}
          → All IsOther bs
          → effort_loop m pool_id from bs d ≡ (ok cs, e)
          → All IsOther cs
      unfolding effort_loop
      effort_loop-IsOther pool_id from [] d {cs} h e =
          let none_left : [] ≡ cs = cc in subst (All IsOther) none_left tt
      effort_loop-IsOther pool_id from (b ∷ bs) d {cs} (h, hs) e0 =
          let before =
            block_before pool_id (status_confirmed ∷ status_orphaned ∷ status_pending ∷ [])
              b.created in
          let (last, d1, _, e1) = action-eq-ok before _ d e0 in
          let (effort, d2, _, e2) =
            action-eq-ok
              (get_effective_accumulated_share_difficulty_between m pool_id (created_or from last)
                b.created)
              _ d1 e1 in
          let (rest, d3, at_bs, e3) =
            action-eq-ok (effort_loop m pool_id (created_or from last) bs) _ d2 e2 in
          let whole : record b { effort = effort } ∷ rest ≡ cs = lift-eq-ok e3 in
          subst (All IsOther) whole
            (h, effort_loop-IsOther pool_id (created_or from last) bs d2 hs at_bs)

      -- The blocks that are saved are those that were pending.
      pub unlock_blocks-IsOther :
          (pool_id : Bytes) (managers : Bytes → Option (Remote F)) (d : Database F)
          {bs : List (Found F)} {e : Database F}
          → ((j : ℕ) (x : Found F) → IsRow j x d → is_pending x ≡ true → IsOther x)
          → unlock_blocks m pool_id managers d ≡ (ok bs, e)
          → All IsOther bs
      unfolding unlock_blocks calculate_block_effort pending_blocks_for_pool
      unlock_blocks-IsOther pool_id managers d {bs} {e} others h =
          let (pending, d1, at_pending, h1) =
            action-eq-ok (pending_blocks_for_pool pool_id) _ d h in
          let (u, d0, ran, got) = action-eq-ok statement _ d at_pending in
          let from_pending : All IsOther pending = subst (All IsOther) (lift-eq-ok got) (
            rows_left-All d.outages _ (
              keep-IsOther (λ b. bytes_eq b.pool_id pool_id && is_pending b) d.blocks
                λ j x at e.
                  others j x at (second (bytes_eq x.pool_id pool_id) (is_pending x) e))) in
          let (classified, d2, at_classified, h2) =
            action-eq-ok (lift (classify_blocks m managers pending)) _ d1 h1 in
          effort_loop-IsOther pool_id 0 classified d2
            (classify_blocks-IsOther managers pending from_pending (ap (λ z. z.0) at_classified)) h2
        where
          take-All : (n : ℕ) (xs : List (Found F)) → All IsOther xs → All IsOther (take n xs)
          take-All zero xs p = tt
          take-All (suc n) [] p = tt
          take-All (suc n) (x ∷ xs) (p, ps) = (p, take-All n xs ps)

          rows_left-All :
              (o : List Outage) (xs : List (Found F))
              → All IsOther xs
              → All IsOther (rows_left o xs)
          rows_left-All [] xs p = p
          rows_left-All (Outage.answers ∷ later) xs p = p
          rows_left-All (Outage.fails ∷ later) xs p = p
          rows_left-All (Outage.breaks_off n ∷ later) xs p = take-All n xs p

          second : (a b : Bool) → (a && b) ≡ true → b ≡ true
          second a b h = ground arith
