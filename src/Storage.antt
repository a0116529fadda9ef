-- ===== src/Storage.antt =====
-- The database of package persistence. A table is a list of rows; a method of a repository takes
-- the tables and gives them back with its result. What the database itself does is given by
-- `outages`: what becomes of the statements to come; when the list is used up they are all run. A
-- statement that is prepared and then run counts as one.
pub mod Balances
pub mod Shares
pub mod Blocks
pub mod Actions
pub mod Accounts
pub mod Ledger
pub mod Paging
use merged_mining_pool.Common.{
  ℕ, Bool, true, false, Option, none, some, List, [], ◌∷◌, ◌++◌, take, Error, Result, ok, err,
  panic, Bytes,
}
use merged_mining_pool.Rows.{Share, Found, Balance, BalanceChange, Payment}

-- The operations on `float64`, of a type that the caller chooses. `at_most x y` is `x <= y`, and
-- `round` is `math.Round`.
pub record Amounts (F : Type 0) : Type 0 where
  pub zero : F
  pub one : F
  pub thousand : F
  pub minus_one : F
  pub add : F → F → F
  pub sub : F → F → F
  pub mul : F → F → F
  pub div : F → F → F
  pub at_most : F → F → Bool
  pub whole : ℕ → F
  pub round : F → F

-- What becomes of a statement: it is run, or fails, or its rows break off behind the first `n`. The
-- loops over rows do not ask for the error that ended them, so a query that breaks off gives the rows
-- so far.
pub data Outage : Type 0 where
  answers fails : Outage
  breaks_off : ℕ → Outage

-- The shares stand newest first, as every query that depends on their order asks for them; the
-- other tables stand in the order of insertion. `next_id` numbers the next block. `sent` is no table: it is what wallets were told to
-- pay.
pub record Database (F : Type 0) : Type 0 where
  pub shares : List (Share F)
  pub blocks : List (Found F)
  pub balances : List (Balance F)
  pub balance_changes : List (BalanceChange F)
  pub payments : List (Payment F)
  pub next_id : ℕ
  pub sent : List (Bytes × List (Bytes × F))
  pub outages : List Outage
  pub now : ℕ

abbrev pub Action : Type 0 → Type 0 → Type 0
Action F A = Database F → Result A × Database F

abbrev pub continue_with :
    {F A B : Type 0} → (A → Action F B) → Result A × Database F → Result B × Database F
continue_with f (ok a, d) = f a d
continue_with f (err e, d) = (err e, d)
continue_with f (panic, d) = (panic, d)

infixl 5 ◌>>=◌
abbrev pub ◌>>=◌ : {F A B : Type 0} → Action F A → (A → Action F B) → Action F B
◌>>=◌ m f d = continue_with f (m d)

abbrev pub lift : {F A : Type 0} → Result A → Action F A
lift r d = (r, d)

abbrev pub gets : {F A : Type 0} → (Database F → A) → Action F A
gets f d = (ok (f d), d)

abbrev pub modify : {F : Type 0} → (Database F → Database F) → Action F (Unit {0})
modify f d = (ok tt, f d)

abbrev pub outcome : {F : Type 0} → List Outage → Database F → Result (Unit {0}) × Database F
outcome [] d = (ok tt, d)
outcome (Outage.answers ∷ later) d = (ok tt, record d { outages = later })
outcome (Outage.fails ∷ later) d = (err Error.database_error, record d { outages = later })
outcome (Outage.breaks_off n ∷ later) d = (ok tt, record d { outages = later })

-- One statement is run.
unfoldable pub statement : {F : Type 0} → Action F (Unit {0})
statement d = outcome d.outages d

abbrev pub rows_left {ℓ} : {A : Type ℓ} → List Outage → List A → List A
rows_left [] rows = rows
rows_left (Outage.answers ∷ later) rows = rows
rows_left (Outage.fails ∷ later) rows = rows
rows_left (Outage.breaks_off n ∷ later) rows = take n rows

-- A query for rows, and the loop that scans them.
abbrev pub query : {F A : Type 0} → (Database F → List A) → Action F (List A)
query rows_of = do rows ← gets (λ d. rows_left d.outages (rows_of d)); u ← statement; lift (ok rows)
