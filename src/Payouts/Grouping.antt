-- ===== src/Payouts/Grouping.antt =====
-- What is sent for the balances that are due.
use merged_mining_pool.Common.{
  ◌≡◌, refl, sym, ap, ◌∙◌, Bool, true, false, ◌&&◌, none, some, Option, List, [], ◌∷◌, inl, inr,
  if◌then◌else◌, Bool-cases, Result, ok, err, panic, Bytes, bytes_eq, bytes_eq_refl, eq_of_bytes_eq,
}
use merged_mining_pool.Rows.{Balance}
use merged_mining_pool.Storage.{Database, lift}
use merged_mining_pool.Storage.Actions.{action-eq-ok, lift-eq-ok}
use merged_mining_pool.Payouts.Payer.{find_balance_address}
use merged_mining_pool.Payouts.Payments.{
  map_get, map_set, or_no_entries, add_payment, group_balances,
}

module _ {V : Type 0} where
  get-set : (k : Bytes) (v : V) (m : List (Bytes × V)) → map_get k (map_set k v m) ≡ some v
  unfolding map_get map_set
  get-set k v [] = rw (bytes_eq_refl k) refl
  get-set k v ((j, w) ∷ m) = elim (Bool-cases (bytes_eq j k)) [
    | inl e ↦ rw (e, e) refl
    | inr e ↦ rw (e, e) (get-set k v m)
  ]

  get-set_other :
      (k j : Bytes) (v : V) (m : List (Bytes × V))
      → bytes_eq k j ≡ false
      → map_get j (map_set k v m) ≡ map_get j m
  unfolding map_get map_set
  get-set_other k j v [] e = rw e refl
  get-set_other k j v ((i, w) ∷ m) e = elim (Bool-cases (bytes_eq i k)) [
    | inl same ↦
        let gone : bytes_eq i j ≡ false = ap (λ z. bytes_eq z j) (eq_of_bytes_eq i k same) ∙ e in
        rw (same, gone) refl
    | inr other ↦ elim (Bool-cases (bytes_eq i j)) [
      | inl here ↦ rw (other, here) refl
      | inr away ↦ rw (other, away) (get-set_other k j v m e)
    ]
  ]

module _ {F : Type 0} where
  -- What is to be sent to an address on a chain.
  abbrev pub sent_amount : Bytes → Bytes → List (Bytes × List (Bytes × F)) → Option F
  sent_amount chain address groups = map_get address (or_no_entries (map_get chain groups))

  inner_sent :
      (address a : Bytes) (x : F) (entries : List (Bytes × F))
      → map_get a (map_set address x entries)
        ≡ (if bytes_eq address a then some x else map_get a entries)
  inner_sent address a x entries = elim (Bool-cases (bytes_eq address a)) [
    | inl same ↦ rw same (
        ap (λ z. map_get z (map_set address x entries)) (sym (eq_of_bytes_eq address a same))
        ∙ get-set address x entries)
    | inr other ↦ rw other (get-set_other address a x entries other)
  ]

  add_payment-sent :
      (chain address c a : Bytes) (x : F) (groups : List (Bytes × List (Bytes × F)))
      → sent_amount c a (add_payment chain address x groups)
        ≡ (if bytes_eq chain c && bytes_eq address a then some x else sent_amount c a groups)
  add_payment-sent chain address c a x groups =
      let entries = or_no_entries (map_get chain groups) in
      elim (Bool-cases (bytes_eq chain c)) [
        | inl same ↦
            let e = eq_of_bytes_eq chain c same in
            rw same (
              ap (λ z. sent_amount z a (add_payment chain address x groups)) (sym e)
              ∙ ap (λ o. map_get a (or_no_entries o))
                  (get-set chain (map_set address x entries) groups)
              ∙ inner_sent address a x entries
              ∙ ap (λ z. if bytes_eq address a then some x else sent_amount z a groups) e)
        | inr other ↦ rw other (
            ap (λ o. map_get a (or_no_entries o))
              (get-set_other chain c (map_set address x entries) groups other))
      ]

  -- Does the balance go to the address on the chain?
  abbrev goes_to : List Bytes → Bytes → Bytes → Balance F → Bool
  goes_to order c a b = bytes_eq b.chain c && is_address (find_balance_address b order)
    where
      is_address : Result Bytes → Bool
      is_address (ok address) = bytes_eq address a
      is_address (err e) = false
      is_address panic = false

  abbrev or_before : Option F → Option F → Option F
  or_before none before = before
  or_before (some x) before = some x

  -- The amount of the last balance that goes to the address on the chain.
  abbrev pub last_amount : List Bytes → Bytes → Bytes → List (Balance F) → Option F
  last_amount order c a [] = none
  last_amount order c a (b ∷ bs) =
      or_before (last_amount order c a bs) (if goes_to order c a b then some b.amount else none)

  or_before_if :
      (later : Option F) (here : Bool) (x : F) (before : Option F)
      → or_before later (if here then some x else before)
        ≡ or_before (or_before later (if here then some x else none)) before
  or_before_if none true x before = refl
  or_before_if none false x before = refl
  or_before_if (some y) here x before = refl

  group_balances-from :
      (order : List Bytes) (bs : List (Balance F)) (before : List (Bytes × List (Bytes × F)))
      (d : Database F) {groups : List (Bytes × List (Bytes × F))} {e : Database F} (c a : Bytes)
      → group_balances order bs before d ≡ (ok groups, e)
      → sent_amount c a groups ≡ or_before (last_amount order c a bs) (sent_amount c a before)
  unfolding group_balances
  group_balances-from order [] before d c a h = ap (sent_amount c a) (sym (lift-eq-ok h))
  group_balances-from order (b ∷ bs) before d c a h =
      let (address, d1, at, h1) = action-eq-ok (lift (find_balance_address b order)) _ d h in
      let goes : goes_to order c a b ≡ (bytes_eq b.chain c && bytes_eq address a) =
        rw (ap (λ z. z.0) at) refl in
      group_balances-from order bs (add_payment b.chain address b.amount before) d1 c a h1
      ∙ ap (or_before (last_amount order c a bs))
          (add_payment-sent b.chain address c a b.amount before)
      ∙ or_before_if (last_amount order c a bs) (bytes_eq b.chain c && bytes_eq address a) b.amount
          (sent_amount c a before)
      ∙ ap
          (λ g.
            or_before (or_before (last_amount order c a bs) (if g then some b.amount else none))
              (sent_amount c a before))
          (sym goes)

  -- Of all due balances that go to one address of a chain, the last one alone is sent.
  pub group_balances-last :
      (order : List Bytes) (bs : List (Balance F)) (d : Database F)
      {groups : List (Bytes × List (Bytes × F))} {e : Database F} (c a : Bytes)
      → group_balances order bs [] d ≡ (ok groups, e)
      → sent_amount c a groups ≡ last_amount order c a bs
  unfolding map_get
  group_balances-last order bs d c a h =
      group_balances-from order bs [] d c a h ∙ nothing_before (last_amount order c a bs)
    where
      nothing_before : (o : Option F) → or_before o none ≡ o
      nothing_before none = refl
      nothing_before (some x) = refl
