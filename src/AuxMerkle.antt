-- ===== src/AuxMerkle.antt =====
-- bitcoin/auxMerkelBranch.go, and the tree of the auxiliary chains in pool/work.go.
pub mod Leaves
pub mod Climb
pub mod Script
pub mod Root
use merged_mining_pool.Common.{
  ℕ, zero, suc, ◌+◌, ◌-◌, ◌*◌, ◌/◌, ◌%◌, ◌^◌, ◌≤◌, ◌<◌, ◌≡◌, refl, sym, ap, ◌∙◌, ◌≢◌, ◌↔◌, ◌⊎◌, inl,
  inr, Bool, true, false, not, ◌&&◌, ◌||◌, Option, none, some, List, [], ◌∷◌, ◌++◌, map, reverse,
  append-nil, append_assoc, arith, ltb, leb, ◌==◌, if◌then◌else◌, Bool-cases, Option-cases, length,
  get_elem?, set, take, drop, replicate, All, length-append, length-reverse, All-append,
  All-reverse, length-set, length-replicate, length-map, Error, Result, ok, err, panic, ◌>>=◌,
  or_panic, >>=-eq-ok, Bytes, IsByte, codes, bytes_eq, bytes_eq_refl, eq_of_bytes_eq,
}
use merged_mining_pool.Common.Int.{ℤ, pos, to_unsigned}
use merged_mining_pool.Hex.{hex_encode, hex_decode, hex_decode_prefix}
use merged_mining_pool.Format.{decimal}
use merged_mining_pool.Crypto.{Crypto, utils_double_sha256}
use merged_mining_pool.Template.{AuxBlock}
use merged_mining_pool.Encoding.{le_bytes, reverse_bytes}

-- In `uint32` arithmetic.
unfoldable pub get_expected_index : ℤ → ℕ → ℕ
get_expected_index n_chain_id h =
    let start = (0 * 1103515245 + 12345) % 2 ^ 32 in
    let mixed = (start + to_unsigned 32 n_chain_id) % 2 ^ 32 in
    let rand = (mixed * 1103515245 + 12345) % 2 ^ 32 in rand % 2 ^ h

-- Slots of the tree; `none` is Go's nil.
abbrev pub Slots : Type 0
Slots = List (Option Bytes)

-- `slots[i] = v`.
unfoldable pub store_slot : Slots → ℕ → Bytes → Result Slots
store_slot slots i v = if ltb i (length slots) then ok (set slots i (some v)) else panic

-- The first loop of `BuildMerkleLeaf`, over the blocks from the i-th on. A conflict is looked for
-- at slot i, and only logged.
unfoldable pub place_hashes : List AuxBlock → ℕ → Slots → Result Slots
place_hashes [] i slots = ok slots
place_hashes (auxblock ∷ rest) i slots = do
  hash ← hex_decode auxblock.hash
  conflict ← or_panic (get_elem? slots i)
  placed ← store_slot slots (get_expected_index auxblock.chain_id 4) (reverse_bytes hash)
  place_hashes rest (i + 1) placed

-- The second loop: unused slots get 32 zero bytes.
unfoldable pub fill_slots : Slots → List Bytes
fill_slots [] = []
fill_slots (none ∷ slots) = replicate 32 0 ∷ fill_slots slots
fill_slots (some hash ∷ slots) = hash ∷ fill_slots slots

unfoldable pub build_merkle_leaf : ℕ → List AuxBlock → Result (List Bytes)
build_merkle_leaf merkle_size auxblocks = do
  slots ← place_hashes auxblocks 0 (replicate merkle_size none)
  ok (fill_slots slots)

-- `slots, _ := …`: with an error the slots are nil.
abbrev pub or_nil {ℓ} : {A : Type ℓ} → Result (List A) → Result (List A)
or_nil (ok slots) = ok slots
or_nil (err e) = ok []
or_nil panic = panic

-- `"0%d000000"`.
unfoldable pub mask_of : ℕ → Bytes
mask_of idx = codes "0" ++ (decimal idx ++ codes "000000")

-- The loop that looks for a hash: the last match gives the index and the mask.
unfoldable pub search_hash : Bytes → List Bytes → ℕ → ℕ × Bytes → ℕ × Bytes
search_hash searched [] idx found = found
search_hash searched (hash ∷ slots) idx found =
    search_hash searched slots (idx + 1)
      (if bytes_eq hash searched then (idx, mask_of idx) else found)

-- `searchedIndex ^ 1`.
abbrev pub sibling_index : ℕ → ℕ
sibling_index i = if i % 2 == 0 then i + 1 else i - 1

-- `uint32(i)` of an `int32` keeps its bits.
unfoldable pub int32_to_bytes : ℤ → Bytes
int32_to_bytes i = le_bytes 4 (to_unsigned 32 i)

unfoldable pub create_script_sig : ℤ → ℤ → Bytes → Bytes
create_script_sig merkle_nonce merkle_size merkle_root =
    (0xfa ∷ 0xbe ∷ 0x6d ∷ 0x6d ∷ [])
    ++ (reverse_bytes merkle_root ++ (int32_to_bytes merkle_size ++ int32_to_bytes merkle_nonce))

pub record AuxMerkleBranch : Type 0 where
  pub number_of_branches : Bytes
  pub branch_hashes : Bytes
  pub mask : Bytes

abbrev concat : List Bytes → Bytes
concat [] = []
concat (b ∷ bs) = b ++ concat bs

unfoldable pub serialize_aux_branch : AuxMerkleBranch → Bytes
serialize_aux_branch am = am.number_of_branches ++ (hex_encode am.branch_hashes ++ am.mask)

-- `auxblocks[n-1]`.
abbrev pub nth_block : List AuxBlock → ℕ → Result AuxBlock
nth_block auxblocks zero = panic
nth_block auxblocks (suc i) = or_panic (get_elem? auxblocks i)

module _ (c : Crypto) where
  -- The next level in `buildMerkleBranchesAndMask`: a node without a neighbour is out of range.
  unfoldable pub join_all : List Bytes → Result (List Bytes)
  join_all [] = ok []
  join_all (left ∷ []) = panic
  join_all (left ∷ right ∷ rest) = do
    new_level ← join_all rest
    ok (utils_double_sha256 c (left ++ right) ∷ new_level)

  -- `for len(currentLevel) > 1`. A level shrinks in each round, so as many rounds as its length are
  -- enough; running out of them is the panic of the first clause.
  unfoldable pub branch_loop : ℕ → List Bytes → ℕ → List Bytes → Result (List Bytes)
  branch_loop zero current_level searched_index merkle_branch = panic
  branch_loop (suc rounds) current_level searched_index merkle_branch =
      let more : Result (List Bytes) = (do
        sibling ← or_panic (get_elem? current_level (sibling_index searched_index))
        new_level ← join_all current_level
        branch_loop rounds new_level (searched_index / 2) (merkle_branch ++ sibling ∷ [])) in
      if ltb 1 (length current_level) then more else ok merkle_branch

  -- The merkle branch and the mask; the error of this function is always nil.
  unfoldable pub build_merkle_branches_and_mask :
      ℕ → List AuxBlock → ℕ → Result (List Bytes × Bytes)
  build_merkle_branches_and_mask merkle_size auxblocks n = do
    slots ← or_nil (build_merkle_leaf merkle_size auxblocks)
    block ← nth_block auxblocks n
    let searched = reverse_bytes (hex_decode_prefix block.hash).0
    let (searched_index, merkle_mask) = search_hash searched slots 0 (0, [])
    merkle_branch ← branch_loop (suc (length slots)) slots searched_index []
    ok (merkle_branch, merkle_mask)

  -- The next level in `buildMerkleRoot`: a node without a neighbour is paired with itself.
  unfoldable pub join_or_double : List Bytes → List Bytes
  join_or_double [] = []
  join_or_double (left ∷ []) = utils_double_sha256 c (left ++ left) ∷ []
  join_or_double (left ∷ right ∷ rest) = utils_double_sha256 c (left ++ right) ∷ join_or_double rest

  -- Its loop and the final `currentLevel[0]`.
  unfoldable pub root_loop : ℕ → List Bytes → Result Bytes
  root_loop zero current_level = panic
  root_loop (suc rounds) current_level =
      let more = root_loop rounds (join_or_double current_level) in
      if ltb 1 (length current_level) then more else or_panic (get_elem? current_level 0)

  unfoldable pub build_merkle_root : ℕ → List AuxBlock → Result Bytes
  build_merkle_root merkle_size auxblocks = do
    slots ← or_nil (build_merkle_leaf merkle_size auxblocks)
    root_loop (suc (length slots)) slots

  unfoldable pub create_merged_mining_coinbase : List AuxBlock → ℤ → Result Bytes
  create_merged_mining_coinbase auxblocks merkle_nonce = do
    merkle_root ← build_merkle_root 16 auxblocks
    ok (hex_encode (create_script_sig merkle_nonce (pos 16) merkle_root))

  -- `n` counts the auxiliary chains from 1.
  unfoldable pub make_aux_chain_merkle_branch : List AuxBlock → ℕ → Result AuxMerkleBranch
  make_aux_chain_merkle_branch auxblocks n = do
    (merkle_branches, mask) ← build_merkle_branches_and_mask 8 auxblocks n
    ok record {
      number_of_branches = codes "0" ++ decimal (length merkle_branches);
      mask = mask;
      branch_hashes = concat merkle_branches;
    }
