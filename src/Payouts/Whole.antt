-- ===== src/Payouts/Whole.antt =====
-- Both schemes that page through the shares count the whole history of the pool.
use merged_mining_pool.Common.{
  ◌+◌, ◌<◌, ◌≡◌, refl, ap, ◌∙◌, inl, inr, Bool, true, false, ◌||◌, List, [], ◌∷◌, arith,
  if◌then◌else◌, Bool-cases, length, All, Error, ok, err, Bytes,
}
use merged_mining_pool.Rows.{Share, Found}
use merged_mining_pool.Storage.{Amounts, Database, continue_with}
use merged_mining_pool.Storage.Balances.{keep}
use merged_mining_pool.Storage.Shares.{in_pool}
use merged_mining_pool.Storage.Paging.{IsStrict}
use merged_mining_pool.Payouts.Tally.{
  each_share, PplnsTally, window, score_of, pplns_awarded, reaches_window, pplns_step, prop_step,
}
use merged_mining_pool.Payouts.Schemes.{
  full_page, pplns_start, pplns_awards, pplns_update_miner_balances, prop_start, prop_awards,
  prop_update_miner_balances,
}
use merged_mining_pool.Payouts.Pages.{history, Keeps, page_loop-each_share}

length-keep : {A : Type 0} (p : A → Bool) (xs : List A) → length (keep p xs) < length xs + 1
length-keep p [] = omega arith
length-keep p (x ∷ xs) = elim (Bool-cases (p x)) [
  | inl e ↦ rw e (omega (arith, length-keep p xs))
  | inr e ↦ rw e (omega (arith, length-keep p xs))
]

any_share : {F : Type 0} (xs : List (Share F)) → All (λ (x : Share F). Unit {0}) xs
any_share [] = tt
any_share (x ∷ xs) = (tt, any_share xs)

-- A share whose score alone stays below the window.
abbrev pub StaysBelow : {F : Type 0} → Amounts F → Share F → Type 0
StaysBelow m x = m.at_most (window m) (m.add m.zero (score_of m x)) ≡ false

module _ {F : Type 0} (m : Amounts F) (pool_id : Bytes) (block_reward : F) (confirmed : Found F)
    (d : Database F) where
  -- With a database that answers, and shares of different times in the pool, PROP does what it
  -- would do with all the shares up to the block's time in one page: it counts each of them once.
  pub prop_update_miner_balances-each_share :
      d.outages ≡ []
      → IsStrict (keep (in_pool pool_id) d.shares)
      → prop_update_miner_balances m pool_id block_reward confirmed d
        ≡ continue_with
            (prop_awards m pool_id block_reward confirmed)
            (each_share (prop_step m) (prop_start m) (history pool_id confirmed.created true d), d)
  unfolding prop_update_miner_balances
  prop_update_miner_balances-each_share up strict =
      ap (continue_with (prop_awards m pool_id block_reward confirmed)) (
        page_loop-each_share (prop_step m) (λ t. false) pool_id full_page d (λ t. Unit {0})
          (λ (x : Share F). Unit {0}) (λ s x s' p q e. tt) (λ s p. refl) up strict
          (any_share d.shares) (omega arith) (length d.shares + 1) confirmed.created true
          (prop_start m) tt (length-keep _ d.shares))

  abbrev IsOpen : PplnsTally F → Type 0
  IsOpen t = (t.done ≡ false) × (t.accumulated_score ≡ m.zero) × (t.cutoff_time ≡ 0)

  step-awarded :
      (t t' : PplnsTally F) (x : Share F)
      → pplns_step m block_reward t x ≡ ok t'
      → t' ≡ pplns_awarded m block_reward t x
  unfolding pplns_step
  step-awarded t t' x e =
      tested (m.at_most (pplns_awarded m block_reward t x).remaining_reward m.zero) e
    where
      tested :
          (b : Bool)
          → (if b then err Error.payout_overflow else ok (pplns_awarded m block_reward t x)) ≡ ok t'
          → t' ≡ pplns_awarded m block_reward t x
      tested true e = cc
      tested false e = cc

  step-IsOpen : Keeps (pplns_step m block_reward) IsOpen (StaysBelow m)
  step-IsOpen t x t' (going, none_yet, no_time) q e =
      let below : reaches_window m t x ≡ false =
        ap (λ z. m.at_most (window m) (m.add z (score_of m x))) none_yet ∙ q in
      rw (step-awarded t t' x e) (
        ap (λ b. b || t.done) below ∙ going,
        none_yet,
        ap (λ b. if b then x.created else t.cutoff_time) below ∙ no_time,
      )

  -- With a database that answers, shares of different times in the pool, and no share whose score
  -- alone reaches the window, PPLNS does what it would do with all the shares up to the block's time
  -- in one page: the window never closes.
  pub pplns_update_miner_balances-each_share :
      d.outages ≡ []
      → IsStrict (keep (in_pool pool_id) d.shares)
      → All (StaysBelow m) d.shares
      → pplns_update_miner_balances m pool_id block_reward confirmed d
        ≡ continue_with (pplns_awards m pool_id confirmed) (
          each_share
              (pplns_step m block_reward)
              (pplns_start m block_reward)
              (history pool_id confirmed.created true d),
          d,
        )
  unfolding pplns_update_miner_balances
  pplns_update_miner_balances-each_share up strict below =
      ap (continue_with (pplns_awards m pool_id confirmed)) (
        page_loop-each_share (pplns_step m block_reward) (λ t. t.done) pool_id full_page d IsOpen
          (StaysBelow m) step-IsOpen (λ s p. p.0) up strict below (omega arith)
          (length d.shares + 1) confirmed.created true (pplns_start m block_reward)
          (refl, refl, refl) (length-keep _ d.shares))
