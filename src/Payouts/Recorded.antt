-- ===== src/Payouts/Recorded.antt =====
-- Payments that were sent are recorded, one row for each balance.
use merged_mining_pool.Common.{
  ℕ, ◌≡◌, refl, sym, ap, ◌∙◌, none, some, Option, List, [], ◌∷◌, ◌++◌, append_assoc, append-nil,
  Error, Result, ok, err, panic, or_error, Bytes, codes,
}
use merged_mining_pool.Rows.{Balance, Payment}
use merged_mining_pool.Storage.{
  Outage, Amounts, Database, Action, ◌>>=◌, lift, gets, statement, outcome,
}
use merged_mining_pool.Storage.Actions.{action-eq-ok, statement-eq-ok}
use merged_mining_pool.Storage.Balances.{Account, add_amount, insert_payment}
use merged_mining_pool.Payouts.Setup.{PayoutConfig}
use merged_mining_pool.Payouts.Payer.{find_balance_address}
use merged_mining_pool.Payouts.Payments.{map_get, record_payments}
use merged_mining_pool.Payouts.Frames.{Frame, add_amount-Frames}

module _ {F : Type 0} where
  payments_stay : Frame F
  unfolding statement
  payments_stay = record {
    related = λ d e. e.payments ≡ d.payments;
    stays = λ d. refl;
    follows = λ p q. q ∙ p;
    asks = λ d. by_flags d d.outages;
  }
    where
      by_flags : (d : Database F) (o : List Outage) → (outcome o d).1.payments ≡ d.payments
      by_flags d [] = refl
      by_flags d (Outage.fails ∷ o) = refl
      by_flags d (Outage.answers ∷ o) = refl
      by_flags d (Outage.breaks_off n ∷ o) = refl

module _ {F : Type 0} (m : Amounts F) (config : PayoutConfig F)
    (confirmations : List (Bytes × Bytes)) where
  add_amount-payments :
      (account : Account) (usage : Bytes) (x : F) (d : Database F)
      → (add_amount m account usage x d).1.payments ≡ d.payments
  unfolding payments_stay
  add_amount-payments account usage x d =
      (add_amount-Frames m payments_stay (λ x d. refl) (λ x d. refl) account usage x).keeps d

  insert_payment-payments :
      (row : Payment F) (d : Database F) {u : Unit {0}} {e : Database F}
      → insert_payment row d ≡ (ok u, e)
      → e.payments ≡ d.payments ++ row ∷ []
  unfolding insert_payment
  insert_payment-payments row d h =
      let (v, d1, ran, done) = action-eq-ok statement _ d h in
      let (later, same) = statement-eq-ok d ran in
      ap (λ z. z.1.payments) (sym done) ∙ ap (λ (z : Database F). z.payments ++ row ∷ []) same

  -- The row that records that a balance was paid.
  abbrev pub IsPaymentOf : Balance F → Payment F → Type 0
  IsPaymentOf b p =
      (p.pool_id ≡ b.pool_id)
      × (p.chain ≡ b.chain)
      × (p.amount ≡ b.amount)
      × (find_balance_address b config.block_chain_order ≡ ok p.address)
      × (map_get b.chain confirmations ≡ some p.transaction_confirmation_data)

  abbrev pub Records : List (Balance F) → List (Payment F) → Type 0
  Records [] ps = ps ≡ []
  Records (b ∷ bs) ps =
      (p : Payment F) × (rest : List (Payment F)) × (ps ≡ p ∷ rest)
      × IsPaymentOf b p
      × Records bs rest

  known_confirmation :
      {A : Type 0} (o : Option A) (x : Error) {a : A} → or_error o x ≡ ok a → o ≡ some a
  known_confirmation none x h = cc
  known_confirmation (some b) x h = cc

  abbrev row_of : Balance F → Bytes → Bytes → ℕ → Payment F
  row_of b address confirmation now = record {
    pool_id = b.pool_id;
    chain = b.chain;
    address = address;
    amount = b.amount;
    created = now;
    transaction_confirmation_data = confirmation;
  }

  -- The row of one balance is inserted, its amount is taken off, and the rest follows.
  abbrev store_row : Balance F → Payment F → Action F (Unit {0}) → Action F (Unit {0})
  store_row b row rest = do
    u ← insert_payment row
    v ←
        add_amount m (record { pool_id = config.pool_name; chain = b.chain; address = b.address })
          (codes "Paid balance to miner") (m.mul b.amount m.minus_one)
    rest

  store_row-payments :
      (b : Balance F) (row : Payment F) (rest : Action F (Unit {0})) (d : Database F) {u : Unit {0}}
      {e : Database F}
      → store_row b row rest d ≡ (ok u, e)
      → (d' : Database F) × (d'.payments ≡ d.payments ++ row ∷ []) × (rest d' ≡ (ok u, e))
  store_row-payments b row rest d h =
      let account : Account = record {
        pool_id = config.pool_name;
        chain = b.chain;
        address = b.address;
      } in
      let credit =
        add_amount m account (codes "Paid balance to miner") (m.mul b.amount m.minus_one) in
      let (v, d1, inserted, h1) =
        action-eq-ok (insert_payment row) (λ u. credit >>= λ v. rest) d h in
      let (w, d2, taken_off, h2) = action-eq-ok credit (λ v. rest) d1 h1 in
      (
        d2,
        ap (λ z. z.1.payments) (sym taken_off)
            ∙ add_amount-payments account (codes "Paid balance to miner")
                (m.mul b.amount m.minus_one) d1
            ∙ insert_payment-payments row d inserted,
        h2,
      )

  from_lift :
      {A B : Type 0} (r : Result A) (f : A → Action F B) (d : Database F) {b : B} {e : Database F}
      → ◌≡◌ {A = Result B × Database F} ((lift r >>= f) d) (ok b, e)
      → (a : A) × (r ≡ ok a) × (f a d ≡ (ok b, e))
  from_lift (ok a) f d h = (a, refl, h)
  from_lift (err x) f d h = cc
  from_lift panic f d h = cc

  -- When recording succeeds, the table of payments has got one row for each balance, in their
  -- order, with its amount, its resolved address and the confirmation of its chain.
  pub record_payments-Records :
      (balances : List (Balance F)) (d : Database F) {u : Unit {0}} {e : Database F}
      → record_payments m config confirmations balances d ≡ (ok u, e)
      → (rows : List (Payment F)) × (e.payments ≡ d.payments ++ rows) × Records balances rows
  unfolding record_payments
  record_payments-Records [] d h =
      ([], ap (λ z. z.1.payments) (sym h) ∙ sym (append-nil d.payments), refl)
  record_payments-Records (b ∷ bs) d {u} {e} h =
      let rest = record_payments m config confirmations bs in
      let (confirmation, found, h1) =
        from_lift (or_error (map_get b.chain confirmations) Error.no_confirmation)
          (λ c. lift (find_balance_address b config.block_chain_order) >>= λ a.
            gets (λ z. z.now) >>= λ now. store_row b (row_of b a c now) rest)
          d h in
      let (address, at, h2) =
        from_lift (find_balance_address b config.block_chain_order)
          (λ a. gets (λ z. z.now) >>= λ now. store_row b (row_of b a confirmation now) rest) d h1 in
      let row = row_of b address confirmation d.now in
      let (d', grown, h3) = store_row-payments b row rest d h2 in
      let (rows, tables, recorded) = record_payments-Records bs d' h3 in
      let known = known_confirmation (map_get b.chain confirmations) Error.no_confirmation found in
      (
        row ∷ rows,
        tables ∙ ap (λ ps. ps ++ rows) grown ∙ append_assoc d.payments (row ∷ []) rows,
        (row, rows, refl, (refl, refl, refl, at, known), recorded),
      )
