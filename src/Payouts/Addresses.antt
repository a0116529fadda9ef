-- ===== src/Payouts/Addresses.antt =====
-- Which address a balance is paid to.
use merged_mining_pool.Common.{
  ℕ, zero, suc, ◌<◌, ◌≡◌, refl, ap, ◌≢◌, inl, inr, false, some, List, [], ◌∷◌, arith, ◌==◌,
  Bool-cases, length, get_elem?, ok, Bytes, bytes_eq, bytes_eq_refl, eq_of_bytes_eq,
}
use merged_mining_pool.Common.{lt→ltb, split-join_by, join_by, AllParts}
use merged_mining_pool.Rows.{Balance}
use merged_mining_pool.Payouts.Payer.{chain_index, find_balance_address}

chain_index-first :
    (order : List Bytes) (i : ℕ) {name : Bytes}
    → get_elem? order i ≡ some name
    → ((k : ℕ) → k < i → get_elem? order k ≢ some name)
    → (chain_index order name ≡ i) × (i < length order)
unfolding chain_index
chain_index-first [] i at first = cc
chain_index-first (chain ∷ order) zero {name} at first =
    let same : chain ≡ name = cc in (rw (same, bytes_eq_refl name), omega arith)
chain_index-first (chain ∷ order) (suc i) {name} at first =
    let (e, within) = chain_index-first order i at (λ k h. first (suc k) (omega arith)) in
    elim (Bool-cases (bytes_eq chain name)) [
      | inl same ↦ absurd (first 0 (omega arith) (ap some (eq_of_bytes_eq chain name same)))
      | inr other ↦ (rw (other, e), omega arith)
    ]

-- With several chains, a balance under one address for each chain, joined by `-` and holding none,
-- is paid to the address at the place of the balance's chain in the order, the first such place.
pub find_balance_address-join_by :
    {A : Type 0} (b : Balance A) (order : List Bytes) (one two : Bytes) (more : List Bytes) (i : ℕ)
    {address : Bytes}
    → 1 < length order
    → AllParts b'-' (one ∷ two ∷ more)
    → b.address ≡ join_by b'-' (one ∷ two ∷ more)
    → get_elem? order i ≡ some b.chain
    → ((k : ℕ) → k < i → get_elem? order k ≢ some b.chain)
    → get_elem? (one ∷ two ∷ more) i ≡ some address
    → find_balance_address b order ≡ ok address
unfolding find_balance_address
find_balance_address-join_by b order one two more i several plain joined at first there =
    let (e, within) = chain_index-first order i at first in
    rw
      (
        lt→ltb 1 (length order) several,
        joined,
        split-join_by b'-' one (two ∷ more) plain,
        e,
        not_last within,
        there,
      )
      refl
  where
    not_last : {n : ℕ} → i < n → (i == n) ≡ false
    not_last h = ground arith
