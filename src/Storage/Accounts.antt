-- ===== src/Storage/Accounts.antt =====
-- The balance of an account after a row is inserted or its amount raised.
use merged_mining_pool.Common.{
  ℕ, ◌≡◌, refl, sym, ap, ◌∙◌, inl, inr, Bool, true, false, Option, none, some, List, [], ◌∷◌, ◌++◌,
  map, arith, if◌then◌else◌, Bool-cases, bytes_eq, bytes_eq_refl, eq_of_bytes_eq,
}
use merged_mining_pool.Rows.{Balance}
use merged_mining_pool.Storage.{Amounts}
use merged_mining_pool.Storage.Balances.{Account, same_account, account_of, amount_of, add_to}

pub same_account_refl : (a : Account) → same_account a a ≡ true
unfolding same_account
same_account_refl a =
    rw (bytes_eq_refl a.pool_id, bytes_eq_refl a.chain, bytes_eq_refl a.address) refl

all_equal :
    (a b : Account)
    → bytes_eq a.pool_id b.pool_id ≡ true
    → bytes_eq a.chain b.chain ≡ true
    → bytes_eq a.address b.address ≡ true
    → a ≡ b
all_equal a b p q r = cc (
  eq_of_bytes_eq a.pool_id b.pool_id p,
  eq_of_bytes_eq a.chain b.chain q,
  eq_of_bytes_eq a.address b.address r,
)

pub eq_of_same_account : (a b : Account) → same_account a b ≡ true → a ≡ b
unfolding same_account
eq_of_same_account a b h = elim (Bool-cases (bytes_eq a.pool_id b.pool_id)) [
  | inl p ↦ elim (Bool-cases (bytes_eq a.chain b.chain)) [
    | inl q ↦ all_equal a b p q (ground arith)
    | inr q ↦ absurd (ground arith)
  ]
  | inr p ↦ absurd (ground arith)
]

apart : (a b c : Account) → a ≡ c → same_account b c ≡ false → same_account a b ≡ false
apart a b c e other = elim (Bool-cases (same_account a b)) [
  | inl same ↦
      let back : b ≡ c = sym (eq_of_same_account a b same) ∙ e in
      cc (same_account_refl c, ap (λ z. same_account z c) back)
  | inr other ↦ other
]

module _ {F : Type 0} (m : Amounts F) where
  abbrev pub or_new : Option F → Bool → F → Option F
  or_new (some y) new x = some y
  or_new none new x = if new then some x else none

  pub amount_of-snoc :
      (a : Account) (rows : List (Balance F)) (r : Balance F)
      → amount_of a (rows ++ r ∷ [])
        ≡ or_new (amount_of a rows) (same_account a (account_of r)) r.amount
  amount_of-snoc a [] r = refl
  amount_of-snoc a (x ∷ rows) r = elim (Bool-cases (same_account a (account_of x))) [
    | inl here ↦ rw here refl
    | inr other ↦ rw other (amount_of-snoc a rows r)
  ]

  abbrev pub raised : Option F → F → Option F
  raised none x = none
  raised (some y) x = some (m.add y x)

  -- The row, and the rows behind it.
  raise_row :
      (a b : Account) (x : F) (now : ℕ) (r : Balance F) (rest : List (Balance F))
      → amount_of a (map (add_to m b x now) rest)
        ≡ (if same_account a b then raised (amount_of a rest) x else amount_of a rest)
      → amount_of a (map (add_to m b x now) (r ∷ rest))
        ≡ (if same_account a b then raised (amount_of a (r ∷ rest)) x else amount_of a (r ∷ rest))
  raise_row a b x now r rest ih = elim (Bool-cases (same_account b (account_of r))) [
    | inl there ↦
        let e = eq_of_same_account b (account_of r) there in
        elim (Bool-cases (same_account a b)) [
          | inl same ↦
              let here : same_account a (account_of r) ≡ true =
                ap (same_account a) (sym e) ∙ same in
              rw (there, same, here) refl
          | inr other ↦
              let gone : same_account a (account_of r) ≡ false =
                ap (same_account a) (sym e) ∙ other in
              rw (there, gone, ih, other) refl
        ]
    | inr gone ↦ elim (Bool-cases (same_account a (account_of r))) [
      | inl here ↦
          let e = eq_of_same_account a (account_of r) here in
          let other : same_account a b ≡ false = apart a b (account_of r) e gone in
          rw (gone, here, other) refl
      | inr away ↦ rw (gone, away) ih
    ]
  ]

  pub amount_of-add_to :
      (a b : Account) (x : F) (now : ℕ) (rows : List (Balance F))
      → amount_of a (map (add_to m b x now) rows)
        ≡ (if same_account a b then raised (amount_of a rows) x else amount_of a rows)
  amount_of-add_to a b x now [] = ground arith
  amount_of-add_to a b x now (r ∷ rows) =
      raise_row a b x now r rows (amount_of-add_to a b x now rows)
