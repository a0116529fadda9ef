-- ===== src/Storage/Balances.antt =====
-- persistence/balance.go and the insertion of persistence/payment.go.
use merged_mining_pool.Common.{
  ℕ, Bool, ◌&&◌, Option, none, some, List, [], ◌∷◌, ◌++◌, map, if◌then◌else◌, Bytes, bytes_eq,
}
use merged_mining_pool.Rows.{Balance, Payment}
use merged_mining_pool.Storage.{Amounts, Action, ◌>>=◌, gets, modify, statement, query}

-- `WHERE poolid = … AND chain = … AND address = …`.
pub record Account : Type 0 where
  pub pool_id : Bytes
  pub chain : Bytes
  pub address : Bytes

unfoldable pub same_account : Account → Account → Bool
same_account a b =
    bytes_eq a.pool_id b.pool_id && (bytes_eq a.chain b.chain && bytes_eq a.address b.address)

module _ {F : Type 0} where
  abbrev pub account_of : Balance F → Account
  account_of b = record { pool_id = b.pool_id; chain = b.chain; address = b.address }

  -- The first row of the account, if there is one.
  abbrev pub amount_of : Account → List (Balance F) → Option F
  amount_of account [] = none
  amount_of account (b ∷ bs) =
      if same_account account (account_of b) then some b.amount else amount_of account bs

  unfoldable pub get_balance : Account → Action F (Option F)
  get_balance account = do u ← statement; gets (λ d. amount_of account d.balances)

  unfoldable pub insert_balance : Balance F → Action F (Unit {0})
  insert_balance b = do u ← statement; modify (λ d. record d { balances = d.balances ++ b ∷ [] })

  unfoldable pub insert_payment : Payment F → Action F (Unit {0})
  insert_payment p = do u ← statement; modify (λ d. record d { payments = d.payments ++ p ∷ [] })

module _ {F : Type 0} (m : Amounts F) where
  -- `SET amount = amount + …, updated = …` on every row of the account.
  abbrev pub add_to : Account → F → ℕ → Balance F → Balance F
  add_to account amount now b =
      if same_account account (account_of b)
      then record b { amount = m.add b.amount amount; updated = now }
      else b

  unfoldable pub update_balance : Balance F → Action F (Unit {0})
  update_balance b = do
    u ← statement
    modify λ d. record d { balances = map (add_to (account_of b) b.amount d.now) d.balances }

  -- The row of an account is inserted when it has none yet.
  abbrev pub store_balance : Balance F → Option F → ℕ → Action F (Unit {0})
  store_balance b none now = insert_balance (record b { created = now })
  store_balance b (some old) now = update_balance b

  -- Three statements, and no transaction around them.
  unfoldable pub add_amount : Account → Bytes → F → Action F (Unit {0})
  add_amount account usage amount = do
    now ← gets (λ d. d.now)
    u ← statement
    v ← modify λ d. record d {
      balance_changes =
          d.balance_changes
          ++ record {
            pool_id = account.pool_id;
            chain = account.chain;
            address = account.address;
            amount = amount;
            usage = usage;
            created = now;
          }
            ∷ [];
    }
    balance ← get_balance account
    store_balance
        (record {
          pool_id = account.pool_id;
          chain = account.chain;
          address = account.address;
          amount = amount;
          created = 0;
          updated = now;
        })
        balance now

  abbrev pub is_due : (Bytes → Option F) → Bytes → Bytes → F → Balance F → Bool
  is_due threshold pool_id chain minimum b =
      bytes_eq b.pool_id pool_id
      && (bytes_eq b.chain chain && m.at_most (coalesce (threshold b.address) minimum) b.amount)
    where
      coalesce : Option F → F → F
      coalesce none x = x
      coalesce (some t) x = t

abbrev pub keep {ℓ} : {A : Type ℓ} → (A → Bool) → List A → List A
keep p [] = []
keep p (x ∷ xs) = if p x then x ∷ keep p xs else keep p xs

-- The rows of `miner_settings` are given by the threshold of each address.
unfoldable pub get_pool_balances_over_threshold :
    {F : Type 0} → Amounts F → (Bytes → Option F) → Bytes → Bytes → F → Action F (List (Balance F))
get_pool_balances_over_threshold m threshold pool_id chain minimum =
    query λ d. keep (is_due m threshold pool_id chain minimum) d.balances
