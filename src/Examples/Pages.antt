-- ===== src/Examples/Pages.antt =====
-- Runs of the theorems on reading shares in pages.
use merged_mining_pool.Common.{
  ℕ, ◌*◌, ◌/◌, ◌≡◌, refl, true, false, [], ◌∷◌, ◌++◌, arith, ok, Bytes, codes,
}
use merged_mining_pool.Format.{decimal}
use merged_mining_pool.Rows.{Share, Found, status_confirmed}
use merged_mining_pool.Storage.{Amounts, Database, continue_with, lift}
use merged_mining_pool.Payouts.Tally.{each_share, prop_step, add_at}
use merged_mining_pool.Payouts.Schemes.{
  page_loop, award_all, pplns_update_miner_balances, prop_start,
}
use merged_mining_pool.Payouts.Pages.{history, page_loop-each_share}
use merged_mining_pool.Payouts.Scores.{full_rewards, pplns_update_miner_balances-full_rewards}
use merged_mining_pool.Examples.Ledger.{amounts, share_at, block_of, database}

-- Three shares, in pages of one.
page_loop-each_share_example :
    page_loop (prop_step amounts) (λ t. false) (codes "p") 1 4 9 true (prop_start amounts) database
    ≡ (
      each_share (prop_step amounts) (prop_start amounts) (history (codes "p") 9 true database),
      database,
    )
page_loop-each_share_example =
    page_loop-each_share (prop_step amounts) (λ t. false) (codes "p") 1 database (λ t. Unit {0})
      (λ (x : Share ℕ). Unit {0}) (λ s x s' p q e. tt) (λ s p. refl) refl
      ((omega arith, (omega arith, tt)), ((omega arith, tt), (tt, tt))) (tt, (tt, (tt, tt)))
      (omega arith) 4 9 true (prop_start amounts) tt (omega arith)

abbrev block : Found ℕ
block = block_of 1 status_confirmed

-- Amounts in tenths.
abbrev tenths : Amounts ℕ
tenths = record amounts {
  one = 10;
  thousand = 10000;
  mul = λ x y. (x * y) / 10;
  div = λ x y. (x * 10) / y;
  whole = λ n. 10 * n;
}

abbrev half_share : Bytes → ℕ → Share ℕ
half_share miner time = record (share_at miner time) { difficulty = 20; network_difficulty = 40 }

abbrev half_shares : Database ℕ
half_shares = record database {
  shares = half_share (codes "A") 8 ∷ half_share (codes "B") 6 ∷ half_share (codes "A") 5 ∷ [];
}

-- Three shares of score one half against a window of two: of a reward of 20, each has 5.
awarded :
    full_rewards tenths 200 [] (history (codes "p") 9 true half_shares)
    ≡ (codes "A", 100) ∷ (codes "B", 50) ∷ []
unfolding add_at
awarded = refl

pplns_update_miner_balances-full_rewards_example :
    pplns_update_miner_balances tenths (codes "p") 200 block half_shares
    ≡ continue_with
        (λ u. lift (ok 0))
        (award_all tenths
          (codes "p")
          (codes "litecoin")
          (codes "PPLNS REWARD FOR BLOCK " ++ decimal 10)
          (full_rewards tenths 200 [] (history (codes "p") 9 true half_shares))
          half_shares)
pplns_update_miner_balances-full_rewards_example =
    pplns_update_miner_balances-full_rewards tenths 200 (codes "p") block half_shares refl
      ((omega arith, (omega arith, tt)), ((omega arith, tt), (tt, tt))) (refl, (refl, (refl, tt)))
