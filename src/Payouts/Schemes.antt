-- ===== src/Payouts/Schemes.antt =====
-- payouts/pplns.go, prop.go, solo.go and factory.go: how a reward is shared among the miners.
use merged_mining_pool.Common.{
  ℕ, zero, suc, ◌+◌, ◌-◌, Bool, true, false, ◌&&◌, ◌||◌, List, [], ◌∷◌, ◌++◌, map, ltb, leb,
  if◌then◌else◌, length, get_elem?, Error, Result, ok, err, panic, or_panic, Bytes, codes, bytes_eq,
}
use merged_mining_pool.Format.{decimal}
use merged_mining_pool.Rows.{Share, Found}
use merged_mining_pool.Storage.{Amounts, Action, ◌>>=◌, lift, gets}
use merged_mining_pool.Storage.Shares.{get_shares_before}
use merged_mining_pool.Storage.Balances.{add_amount}
use merged_mining_pool.Payouts.Tally.{
  each_share, PplnsTally, PropTally, pplns_step, prop_step, prop_rewards,
}

abbrev pub overflow_if : Bool → Result (Unit {0})
overflow_if true = err Error.payout_overflow
overflow_if false = ok tt

-- `for !done`, a page in each round. Every page but the last is full, so one round more than there
-- are shares is enough; running out of them is the panic of the first clause.
unfoldable pub page_loop :
    {F S : Type 0}
    → (S → Share F → Result S)
    → (S → Bool)
    → Bytes
    → ℕ
    → ℕ
    → ℕ
    → Bool
    → S
    → Action F S
page_loop step is_done pool_id page_size zero before inclusive s = lift panic
page_loop step is_done pool_id page_size (suc rounds) before inclusive s = do
  page ← get_shares_before pool_id before inclusive page_size
  s' ← lift (each_share step s page)
  let next : Action _ _ = (do
    last ← lift (or_panic (get_elem? page (length page - 1)))
    page_loop step is_done pool_id page_size rounds last.created false s')
  if ltb (length page) page_size || is_done s' then lift (ok s') else next

-- `pageSize`.
abbrev pub full_page : ℕ
full_page = 100_000

module _ {F : Type 0} (m : Amounts F) where
  -- Every miner is awarded in turn; the first failure ends the loop.
  unfoldable pub award_all : Bytes → Bytes → Bytes → List (Bytes × F) → Action F (Unit {0})
  award_all pool_id chain usage [] = lift (ok tt)
  award_all pool_id chain usage ((miner, reward) ∷ rewards) = do
    u ← add_amount m (record { pool_id = pool_id; chain = chain; address = miner }) usage reward
    award_all pool_id chain usage rewards

  abbrev pub pplns_start : F → PplnsTally F
  pplns_start block_reward = record {
    remaining_reward = block_reward;
    accumulated_score = m.zero;
    miner_rewards = [];
    cutoff_time = 0;
    done = false;
  }

  -- What is done with the rewards once all pages are read. The result of each scheme is the time
  -- before which shares are no longer needed.
  abbrev pub pplns_awards : Bytes → Found F → PplnsTally F → Action F ℕ
  pplns_awards pool_id confirmed t = do
    u ←
        award_all pool_id confirmed.chain
          (codes "PPLNS REWARD FOR BLOCK " ++ decimal confirmed.block_height) t.miner_rewards
    lift (ok t.cutoff_time)

  unfoldable pub pplns_update_miner_balances : Bytes → F → Found F → Action F ℕ
  pplns_update_miner_balances pool_id block_reward confirmed = do
    rounds ← gets (λ d. length d.shares + 1)
    t ←
        page_loop (pplns_step m block_reward) (λ t. t.done) pool_id full_page rounds
          confirmed.created true (pplns_start block_reward)
    pplns_awards pool_id confirmed t

  abbrev pub prop_start : PropTally F
  prop_start = record {
    miner_shares = [];
    miner_scores = [];
    accumulated_score = m.zero;
    cutoff_time = 0;
  }

  abbrev pub prop_awards : Bytes → F → Found F → PropTally F → Action F ℕ
  prop_awards pool_id block_reward confirmed t = do
    let shared =
        prop_rewards m (m.div block_reward t.accumulated_score) t.miner_scores block_reward []
    v ← lift (overflow_if (m.at_most shared.0 m.zero))
    u ←
        award_all pool_id confirmed.chain
          (codes "PROP REWARD FOR BLOCK " ++ decimal confirmed.block_height) shared.1
    lift (ok t.cutoff_time)

  unfoldable pub prop_update_miner_balances : Bytes → F → Found F → Action F ℕ
  prop_update_miner_balances pool_id block_reward confirmed = do
    rounds ← gets (λ d. length d.shares + 1)
    t ←
        page_loop (prop_step m) (λ t. false) pool_id full_page rounds confirmed.created true
          prop_start
    prop_awards pool_id block_reward confirmed t

  unfoldable pub solo_update_miner_balances : Bytes → F → Found F → Action F ℕ
  solo_update_miner_balances pool_id remaining_reward confirmed = do
    u ←
        add_amount m
          (record { pool_id = pool_id; chain = confirmed.chain; address = confirmed.miner })
          (codes "SOLO REWARD FOR BLOCK " ++ decimal confirmed.block_height) remaining_reward
    lift (ok confirmed.created)

pub data Scheme : Type 0 where
  prop pplns solo : Scheme

-- `strings.ToUpper` on ASCII text.
abbrev to_upper : Bytes → Bytes
to_upper = map (λ x. if leb b'a' x && leb x b'z' then x - 32 else x)

-- An unknown name panics.
unfoldable pub payout_scheme_factory : Bytes → Result Scheme
payout_scheme_factory name =
    let upper = to_upper name in
    if bytes_eq upper (codes "PROP")
    then ok prop
    else if bytes_eq upper (codes "PPLNS")
    then ok pplns
    else if bytes_eq upper (codes "SOLO")
    then ok solo
    else panic

abbrev pub update_miner_balances :
    {F : Type 0} → Amounts F → Scheme → Bytes → F → Found F → Action F ℕ
update_miner_balances m prop = prop_update_miner_balances m
update_miner_balances m pplns = pplns_update_miner_balances m
update_miner_balances m solo = solo_update_miner_balances m
