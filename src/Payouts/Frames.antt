-- ===== src/Payouts/Frames.antt =====
-- A relation between the database before and after, that what the payouts run respects.
mod Rewarding
mod Paying
pub mod Passing
use merged_mining_pool.Common.{
  ℕ, zero, suc, ◌+◌, ◌-◌, ◌≡◌, refl, ◌∙◌, Bool, true, false, ◌||◌, Option, none, some, List, [],
  ◌∷◌, ◌++◌, map, ltb, if◌then◌else◌, length, get_elem?, Error, Result, ok, err, panic, or_panic,
  or_error, Bytes, bytes_eq, codes,
}
use merged_mining_pool.Rows.{
  BalanceChange, Share, Found, Balance, Payment, status_pending, status_orphaned, status_confirmed,
}
use merged_mining_pool.Storage.{
  Amounts, Database, Action, continue_with, ◌>>=◌, lift, gets, modify, statement, outcome, query,
  rows_left,
}
use merged_mining_pool.Storage.Balances.{
  Account, add_amount, get_balance, insert_balance, update_balance, store_balance, insert_payment,
  get_pool_balances_over_threshold,
}
use merged_mining_pool.Storage.Shares.{
  get_shares_before, delete_shares_before, get_effective_accumulated_share_difficulty_between,
}
use merged_mining_pool.Storage.Blocks.{pending_blocks_for_pool, block_before}
use merged_mining_pool.Format.{decimal}
use merged_mining_pool.Payouts.Payer.{find_balance_address}
use merged_mining_pool.Payouts.Setup.{Recipient, PayoutConfig, Remote}
use merged_mining_pool.Payouts.Tally.{
  each_share, PplnsTally, PropTally, pplns_step, prop_step, prop_rewards,
}
use merged_mining_pool.Payouts.Schemes.{
  page_loop, award_all, pplns_start, pplns_awards, prop_start, prop_awards, full_page, overflow_if,
  payout_scheme_factory, pplns_update_miner_balances, prop_update_miner_balances,
  solo_update_miner_balances, Scheme, prop, pplns, solo, update_miner_balances,
}
use merged_mining_pool.Payouts.Rewards.{
  created_or, effort_loop, calculate_block_effort, unlock_blocks, credit_recipient,
  pool_reward_loop, calculate_pool_reward, calculate_miner_rewards, calculate_block_rewards,
}
use merged_mining_pool.Payouts.Payments.{
  map_get, map_set, add_payment, group_balances, send_all, bitcoin_try_many_payments, due_balances,
  record_payments, payout_balances,
}
use merged_mining_pool.Payouts.Rounds.{logged, attempt, if_some, or_stop, reward_confirmed}

-- What an action does to the database, whatever its result: a relation that holds from a database
-- to itself, that composes, and that running a statement respects.
pub record Frame (F : Type 0) : Type 1 where
  pub related : Database F → Database F → Type 0
  pub stays : (d : Database F) → related d d
  pub follows : {d e f : Database F} → related d e → related e f → related d f
  pub asks : (d : Database F) → related d (statement d).1

pub record Frames {F A : Type 0} (w : Frame F) (m : Action F A) : Type 0 where
  pub keeps : (d : Database F) → w.related d (m d).1

-- What rewarding and paying change besides the blocks.
pub record PayoutFrame {F : Type 0} (m : Amounts F) : Type 1 where
  pub frame : Frame F
  pub clears :
      (shares : List (Share F)) (d : Database F) → frame.related d (record d { shares = shares })
  pub sends :
      (sent : List (Bytes × List (Bytes × F))) (d : Database F)
      → frame.related d (record d { sent = sent })
  pub pays :
      (payments : List (Payment F)) (d : Database F)
      → frame.related d (record d { payments = payments })
  pub credits :
      (account : Account) (usage : Bytes) (x : F) → Frames frame (add_amount m account usage x)

module _ {F : Type 0} {w : Frame F} where
  pub >>=-Frames :
      {A B : Type 0} (m : Action F A) (f : A → Action F B)
      → Frames w m
      → ((a : A) → Frames w (f a))
      → Frames w (m >>= f)
  >>=-Frames {A} {B} m f first rest = record { keeps = λ d. by_result d (m d) (first.keeps d) }
    where
      by_result :
          (d : Database F) (r : Result A × Database F)
          → w.related d r.1
          → w.related d (continue_with f r).1
      by_result d (ok a, d') h = w.follows h ((rest a).keeps d')
      by_result d (err e, d') h = h
      by_result d (panic, d') h = h

  pub lift-Frames : {A : Type 0} (r : Result A) → Frames w (lift r)
  lift-Frames r = record { keeps = λ d. w.stays d }

  pub gets-Frames : {A : Type 0} (f : Database F → A) → Frames w (gets f)
  gets-Frames f = record { keeps = λ d. w.stays d }

  pub statement-Frames : Frames w statement
  statement-Frames = record { keeps = w.asks }

  -- A query.
  pub query-Frames : {A : Type 0} (f : Database F → A) → Frames w (statement >>= λ u. gets f)
  query-Frames f = >>=-Frames statement (λ u. gets f) statement-Frames (λ u. gets-Frames f)

  -- A query for rows.
  pub rows-Frames : {A : Type 0} (f : Database F → List A) → Frames w (query f)
  rows-Frames f =
      >>=-Frames (gets (λ d. rows_left d.outages (f d))) _
        (gets-Frames (λ d. rows_left d.outages (f d)))
        λ rows. >>=-Frames statement _ statement-Frames λ u. lift-Frames (ok rows)

  pub attempt-Frames : {A : Type 0} (m : Action F A) → Frames w m → Frames w (attempt m)
  attempt-Frames {A} m p = record { keeps = λ d. by_result d (m d) (p.keeps d) }
    where
      by_result :
          (d : Database F) (r : Result A × Database F) → w.related d r.1 → w.related d (logged r).1
      by_result d (ok a, d') h = h
      by_result d (err e, d') h = h
      by_result d (panic, d') h = h

  pub if-Frames :
      {A : Type 0} (b : Bool) (m n : Action F A)
      → Frames w m
      → Frames w n
      → Frames w (if b then m else n)
  if-Frames true m n p q = p
  if-Frames false m n p q = q

  pub get_shares_before-Frames :
      (pool_id : Bytes) (before : ℕ) (inclusive : Bool) (n : ℕ)
      → Frames w (get_shares_before pool_id before inclusive n)
  unfolding get_shares_before
  get_shares_before-Frames pool_id before inclusive n = rows-Frames _

  pub page_loop-Frames :
      {S : Type 0} (step : S → Share F → Result S) (is_done : S → Bool) (pool_id : Bytes)
      (n rounds before : ℕ) (inclusive : Bool) (s : S)
      → Frames w (page_loop step is_done pool_id n rounds before inclusive s)
  unfolding page_loop
  page_loop-Frames step is_done pool_id n zero before inclusive s = lift-Frames panic
  page_loop-Frames step is_done pool_id n (suc rounds) before inclusive s =
      >>=-Frames (get_shares_before pool_id before inclusive n) _
        (get_shares_before-Frames pool_id before inclusive n)
        λ page.
          >>=-Frames (lift (each_share step s page)) _ (lift-Frames (each_share step s page)) λ s'.
            if-Frames (ltb (length page) n || is_done s') _ _ (lift-Frames (ok s')) (
              >>=-Frames (lift (or_panic (get_elem? page (length page - 1)))) _ (lift-Frames _)
                λ last. page_loop-Frames step is_done pool_id n rounds last.created false s')

  pub modify-Frames :
      (f : Database F → Database F) → ((d : Database F) → w.related d (f d)) → Frames w (modify f)
  modify-Frames f h = record { keeps = h }

  -- A statement that changes tables.
  pub change-Frames :
      (f : Database F → Database F)
      → ((d : Database F) → w.related d (f d))
      → Frames w (statement >>= λ u. modify f)
  change-Frames f h = >>=-Frames statement (λ u. modify f) statement-Frames (λ u. modify-Frames f h)

-- A relation that a change of the balances and of their listed changes respects.
module _ {F : Type 0} (m : Amounts F) (w : Frame F)
    (lists : (x : List (BalanceChange F)) (d : Database F)
      → w.related d (record d { balance_changes = x }))
    (accounts : (x : List (Balance F)) (d : Database F)
      → w.related d (record d { balances = x })) where
  store_balance-Frames :
      (b : Balance F) (o : Option F) (now : ℕ) → Frames w (store_balance m b o now)
  unfolding insert_balance update_balance
  store_balance-Frames b none now = change-Frames _ (λ d. accounts _ d)
  store_balance-Frames b (some old) now = change-Frames _ (λ d. accounts _ d)

  abbrev listed : Account → Bytes → F → ℕ → Database F → Database F
  listed account usage x now d = record d {
    balance_changes =
        d.balance_changes
        ++ record {
          pool_id = account.pool_id;
          chain = account.chain;
          address = account.address;
          amount = x;
          usage = usage;
          created = now;
        }
          ∷ [];
  }

  pub add_amount-Frames :
      (account : Account) (usage : Bytes) (x : F) → Frames w (add_amount m account usage x)
  unfolding add_amount get_balance
  add_amount-Frames account usage x =
      >>=-Frames (gets (λ d. d.now)) _ (gets-Frames (λ d. d.now)) λ now.
        >>=-Frames statement _ statement-Frames λ u.
          >>=-Frames (modify (listed account usage x now)) _
            (modify-Frames (listed account usage x now) (λ d. lists _ d))
            λ v. >>=-Frames (get_balance account) _ (query-Frames _) λ o.
              store_balance-Frames
                (record {
                  pool_id = account.pool_id;
                  chain = account.chain;
                  address = account.address;
                  amount = x;
                  created = 0;
                  updated = now;
                })
                o now

-- A relation that a change of any table but the blocks respects.
module _ {F : Type 0} (m : Amounts F) (w : Frame F)
    (clears : (x : List (Share F)) (d : Database F) → w.related d (record d { shares = x }))
    (sends : (x : List (Bytes × List (Bytes × F))) (d : Database F)
      → w.related d (record d { sent = x }))
    (pays : (x : List (Payment F)) (d : Database F) → w.related d (record d { payments = x }))
    (lists : (x : List (BalanceChange F)) (d : Database F)
      → w.related d (record d { balance_changes = x }))
    (accounts : (x : List (Balance F)) (d : Database F)
      → w.related d (record d { balances = x })) where
  unfoldable pub tables_frame : PayoutFrame m
  tables_frame = record {
    frame = w;
    clears = clears;
    sends = sends;
    pays = pays;
    credits = add_amount-Frames m w lists accounts;
  }
