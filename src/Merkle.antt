-- ===== src/Merkle.antt =====
-- bitcoin/merkle.go: the merkle branch of the coinbase transaction, and the root of a header.
pub mod Tree
pub mod Branch
use merged_mining_pool.Common.{
  ℕ, zero, suc, ◌+◌, ◌-◌, ◌*◌, ◌/◌, ◌%◌, ◌^◌, ◌≤◌, ◌<◌, ◌≡◌, refl, sym, ap, ◌∙◌, ◌≢◌, ◌↔◌, ◌⊎◌, inl,
  inr, Bool, true, false, not, ◌&&◌, ◌||◌, Option, none, some, List, [], ◌∷◌, ◌++◌, map, reverse,
  append-nil, append_assoc, arith, ltb, leb, ◌==◌, if◌then◌else◌, Bool-cases, Option-cases, length,
  get_elem?, set, take, drop, replicate, All, length-append, length-reverse, All-append,
  All-reverse, length-set, length-replicate, length-map, Error, Result, ok, err, panic, ◌>>=◌,
  or_panic, >>=-eq-ok, Bytes, IsByte, codes, bytes_eq, bytes_eq_refl, eq_of_bytes_eq,
}
use merged_mining_pool.Hex.{hex_encode, hex_decode}
use merged_mining_pool.Crypto.{Crypto, double_sha256_bytes}
use merged_mining_pool.Template.{Transaction, Template}
use merged_mining_pool.Encoding.{reverse_hex_bytes}

-- `level[len(level)-1]`.
abbrev pub last? {ℓ} : {A : Type ℓ} → List A → Option A
last? [] = none
last? (x ∷ []) = some x
last? (x ∷ y ∷ s) = last? (y ∷ s)

-- `if levelLength%2 == 1 { level = append(level, level[len(level)-1]) }`.
unfoldable pub pad_level : List Bytes → Result (List Bytes)
pad_level level =
    if length level % 2 == 1
    then (do last ← or_panic (last? level); ok (level ++ last ∷ []))
    else ok level

module _ (c : Crypto) where
  pub join_hashes : Bytes → Bytes → Result Bytes
  join_hashes one two = do
    one_bytes ← hex_decode one
    two_bytes ← hex_decode two
    ok (hex_encode (double_sha256_bytes c (one_bytes ++ two_bytes)))

  -- `for i := startJoinAt; i < levelLength; i += 2`, over what the index has not reached.
  unfoldable pub join_pairs : List Bytes → Result (List Bytes)
  join_pairs [] = ok []
  join_pairs (left ∷ []) = panic
  join_pairs (left ∷ right ∷ rest) = do
    joined ← join_hashes left right
    joins ← join_pairs rest
    ok (joined ∷ joins)

  -- The loop of `templateMerkleBranchSteps`. A level shrinks in each round, so as many rounds as
  -- its length are enough; running out of them is the panic of the first clause.
  pub branch_steps_loop : ℕ → List Bytes → List Bytes → Result (List Bytes)
  branch_steps_loop zero level steps = panic
  branch_steps_loop (suc rounds) level steps =
      let more : Result (List Bytes) = (do
        step ← or_panic (get_elem? level 1)
        padded ← pad_level level
        level_joins ← join_pairs (drop 2 padded)
        branch_steps_loop rounds ([] ∷ level_joins) (steps ++ step ∷ [])) in
      if length level == 1 then ok steps else more

  unfoldable pub template_merkle_branch_steps : List Bytes → Result (List Bytes)
  unfolding branch_steps_loop
  template_merkle_branch_steps transaction_ids =
      if length transaction_ids == 0
      then ok []
      else branch_steps_loop (length transaction_ids + 1) ([] ∷ transaction_ids) []

  -- The source drops the error of `reverseHexBytes`, which comes with an empty string.
  abbrev pub reversed_or_empty : Result Bytes → Bytes
  reversed_or_empty (ok s) = s
  reversed_or_empty _ = []

  unfoldable pub merkle_steps : Template → Result (List Bytes)
  merkle_steps t = template_merkle_branch_steps (
      map (λ (transaction : Transaction). reversed_or_empty (reverse_hex_bytes transaction.id))
        t.transactions)

  unfoldable pub merkle_root_loop : Bytes → List Bytes → Result Bytes
  merkle_root_loop block [] = ok block
  merkle_root_loop block (branch ∷ rest) = do
    branch_bytes ← hex_decode branch
    merkle_root_loop (double_sha256_bytes c (block ++ branch_bytes)) rest

  unfoldable pub make_header_merkle_root : Bytes → List Bytes → Result Bytes
  unfolding merkle_root_loop
  make_header_merkle_root coinbase merkle_branch_steps = do
    block ← hex_decode coinbase
    root ← merkle_root_loop block merkle_branch_steps
    ok (hex_encode root)
