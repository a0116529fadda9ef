-- ===== src/Storage/Ledger.antt =====
-- The balances against the changes that the ledger lists.
use merged_mining_pool.Common.{
  ℕ, ◌≡◌, refl, sym, ap, ◌∙◌, inl, inr, Option, none, some, List, [], ◌∷◌, ◌++◌, map, if◌then◌else◌,
  Bool-cases, Option-cases, ok, Bytes,
}
use merged_mining_pool.Rows.{Balance, BalanceChange}
use merged_mining_pool.Storage.{Amounts, Database, statement}
use merged_mining_pool.Storage.Balances.{
  Account, same_account, account_of, amount_of, get_balance, insert_balance, add_to, update_balance,
  store_balance, add_amount,
}
use merged_mining_pool.Storage.Actions.{action-eq-ok, statement-eq-ok}
use merged_mining_pool.Storage.Accounts.{
  eq_of_same_account, or_new, raised, amount_of-snoc, amount_of-add_to,
}

abbrev pub change_account : {F : Type 0} → BalanceChange F → Account
change_account c = record { pool_id = c.pool_id; chain = c.chain; address = c.address }

module _ {F : Type 0} (m : Amounts F) where
  abbrev pub plus_change : Option F → F → Option F
  plus_change none x = some x
  plus_change (some y) x = some (m.add y x)

  -- The sum of the changes of an account, from the first on; none for an account without changes.
  abbrev pub total_changes : Account → Option F → List (BalanceChange F) → Option F
  total_changes a total [] = total
  total_changes a total (c ∷ cs) =
      total_changes a
        (if same_account a (change_account c) then plus_change total c.amount else total) cs

  -- What the ledger lists for an account is the balance of its row.
  abbrev pub IsConsistent : Database F → Type 0
  IsConsistent d = (a : Account) → amount_of a d.balances ≡ total_changes a none d.balance_changes

  total_changes-snoc :
      (a : Account) (total : Option F) (cs : List (BalanceChange F)) (c : BalanceChange F)
      → total_changes a total (cs ++ c ∷ []) ≡ (
          if same_account a (change_account c)
          then plus_change (total_changes a total cs) c.amount
          else total_changes a total cs)
  total_changes-snoc a total [] c = refl
  total_changes-snoc a total (b ∷ cs) c =
      total_changes-snoc a
        (if same_account a (change_account b) then plus_change total b.amount else total) cs c

  -- What a stored change does to the balance of every account.
  abbrev Stores : Account → F → Database F → Database F → Type 0
  Stores account x d d' =
      (d'.balance_changes ≡ d.balance_changes)
      × ((a : Account)
          → amount_of a d'.balances ≡ (
              if same_account a account
              then plus_change (amount_of a d.balances) x
              else amount_of a d.balances))

  insert_balance-Stores :
      (b : Balance F) (d : Database F) {u : Unit {0}} {d' : Database F}
      → amount_of (account_of b) d.balances ≡ none
      → insert_balance b d ≡ (ok u, d')
      → Stores (account_of b) b.amount d d'
  unfolding insert_balance
  insert_balance-Stores b d {u} {d'} fresh h =
      let (v, e, ran, done) = action-eq-ok statement _ d h in
      let (later, same) = statement-eq-ok d ran in
      let tables : d' ≡ record d { balances = d.balances ++ b ∷ []; outages = later } = cc in
      rw tables (refl, λ a. amount_of-snoc m a d.balances b ∙ fits a)
    where
      fits :
          (a : Account)
          → or_new m (amount_of a d.balances) (same_account a (account_of b)) b.amount ≡ (
              if same_account a (account_of b)
              then plus_change (amount_of a d.balances) b.amount
              else amount_of a d.balances)
      fits a = elim (Bool-cases (same_account a (account_of b))) [
        | inl same ↦
            let none_yet : amount_of a d.balances ≡ none =
              ap (λ c. amount_of c d.balances) (eq_of_same_account a (account_of b) same) ∙ fresh in
            rw (none_yet, same) refl
        | inr other ↦ elim (Option-cases (amount_of a d.balances)) [
          | inl gone ↦ rw (gone, other) refl
          | inr (y, there) ↦ rw (there, other) refl
        ]
      ]

  update_balance-Stores :
      (b : Balance F) (d : Database F) {u : Unit {0}} {d' : Database F} {old : F}
      → amount_of (account_of b) d.balances ≡ some old
      → update_balance m b d ≡ (ok u, d')
      → Stores (account_of b) b.amount d d'
  unfolding update_balance
  update_balance-Stores b d {u} {d'} {old} known h =
      let (v, e, ran, done) = action-eq-ok statement _ d h in
      let (later, same) = statement-eq-ok d ran in
      let tables : d' ≡ record d {
        balances = map (add_to m (account_of b) b.amount d.now) d.balances;
        outages = later;
      } =
        cc in
      rw tables (refl, λ a. amount_of-add_to m a (account_of b) b.amount d.now d.balances ∙ fits a)
    where
      fits :
          (a : Account)
          → (if same_account a (account_of b)
              then raised m (amount_of a d.balances) b.amount
              else amount_of a d.balances)
            ≡ (if same_account a (account_of b)
                then plus_change (amount_of a d.balances) b.amount
                else amount_of a d.balances)
      fits a = elim (Bool-cases (same_account a (account_of b))) [
        | inl same ↦
            let there : amount_of a d.balances ≡ some old =
              ap (λ c. amount_of c d.balances) (eq_of_same_account a (account_of b) same) ∙ known in
            rw (there, same) refl
        | inr other ↦ rw other refl
      ]

  store_balance-Stores :
      (b : Balance F) (now : ℕ) (d : Database F) (old : Option F) {u : Unit {0}} {d' : Database F}
      → amount_of (account_of b) d.balances ≡ old
      → store_balance m b old now d ≡ (ok u, d')
      → Stores (account_of b) b.amount d d'
  store_balance-Stores b now d none fresh h =
      insert_balance-Stores (record b { created = now }) d fresh h
  store_balance-Stores b now d (some old) known h = update_balance-Stores b d known h

  get_balance-eq-ok :
      (account : Account) (d : Database F) {o : Option F} {d' : Database F}
      → get_balance account d ≡ (ok o, d')
      → (amount_of account d.balances ≡ o)
        × (d'.balances ≡ d.balances)
        × (d'.balance_changes ≡ d.balance_changes)
  unfolding get_balance
  get_balance-eq-ok account d {o} {d'} h =
      let (v, e, ran, got) = action-eq-ok statement _ d h in
      let (later, same) = statement-eq-ok d ran in
      let kept : d' ≡ record d { outages = later } = cc in
      let found : amount_of account e.balances ≡ o = cc in
      (
        ap (λ (z : Database F). amount_of account z.balances) (sym same) ∙ found,
        ap (λ (z : Database F). z.balances) kept,
        ap (λ (z : Database F). z.balance_changes) kept,
      )

  abbrev change_of : Account → Bytes → F → ℕ → BalanceChange F
  change_of account usage x now = record {
    pool_id = account.pool_id;
    chain = account.chain;
    address = account.address;
    amount = x;
    usage = usage;
    created = now;
  }

  -- If the changes listed for every account add up to its balance, `AddAmount` keeps it so whenever
  -- it succeeds.
  pub add_amount-IsConsistent :
      (account : Account) (usage : Bytes) (x : F) (d : Database F) {u : Unit {0}} {d' : Database F}
      → IsConsistent d
      → add_amount m account usage x d ≡ (ok u, d')
      → IsConsistent d'
  unfolding add_amount
  add_amount-IsConsistent account usage x d {u} {d'} before h =
      let (v, d1, ran, h1) = action-eq-ok statement _ d h in
      let (later, same) = statement-eq-ok d ran in
      let c = change_of account usage x d.now in
      let d2 = record d1 { balance_changes = d1.balance_changes ++ c ∷ [] } in
      let (old, d3, read, h2) = action-eq-ok (get_balance account) _ d2 h1 in
      let (known, rows, listed) = get_balance-eq-ok account d2 read in
      let row : Balance F = record {
        pool_id = account.pool_id;
        chain = account.chain;
        address = account.address;
        amount = x;
        created = 0;
        updated = d.now;
      } in
      let (changes, amounts) =
        store_balance-Stores row d.now d3 old (ap (amount_of account) rows ∙ known) h2 in
      let from : d3.balances ≡ d.balances = rows ∙ ap (λ (z : Database F). z.balances) same in
      let to : d'.balance_changes ≡ d.balance_changes ++ c ∷ [] =
        changes ∙ listed ∙ ap (λ (z : Database F). z.balance_changes ++ c ∷ []) same in
      λ a.
        amounts a
        ∙ ap (λ o. if same_account a account then plus_change o x else o)
            (ap (amount_of a) from ∙ before a)
        ∙ sym (ap (total_changes a none) to ∙ total_changes-snoc a none d.balance_changes c)
