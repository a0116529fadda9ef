-- ===== src/AuxMerkle/Leaves.antt =====
-- When `BuildMerkleLeaf` fills its slots, and when it writes out of range.
use merged_mining_pool.Common.{
  ℕ, zero, suc, ◌+◌, ◌≤◌, ◌<◌, ◌≡◌, refl, sym, ap, ◌∙◌, ◌⊎◌, inl, inr, true, none, some, List, [],
  ◌∷◌, arith, ltb, Bool-cases, Option-cases, length, get_elem?, set, replicate, All, length-set,
  reverse, ◌==◌, if◌then◌else◌, Result, err, length-replicate, lt→ltb, ltb→lt, get_elem?-some, ok,
  panic, Bytes,
}
use merged_mining_pool.Hex.{hex_decode}
use merged_mining_pool.Crypto.{Crypto}
use merged_mining_pool.Template.{AuxBlock}
use merged_mining_pool.Encoding.{reverse_bytes}
use merged_mining_pool.Encoding.Reverse.{reverse_bytes_lem}
use merged_mining_pool.AuxMerkle.{
  get_expected_index, Slots, store_slot, place_hashes, fill_slots, build_merkle_leaf,
  build_merkle_branches_and_mask, make_aux_chain_merkle_branch,
}

-- The hash of a block is hex.
abbrev pub IsHexBlock : AuxBlock → Type 0
IsHexBlock b = (hash : Bytes) × (hex_decode b.hash ≡ ok hash)

-- Some block's slot lies at or behind a position.
abbrev pub HasSlotFrom : ℕ → List AuxBlock → Type 0
HasSlotFrom size [] = ⊥
HasSlotFrom size (b ∷ bs) = (size ≤ get_expected_index b.chain_id 4) ⊎ HasSlotFrom size bs

store_slot_in :
    (slots : Slots) (i : ℕ) (v : Bytes)
    → i < length slots
    → store_slot slots i v ≡ ok (set slots i (some v))
unfolding store_slot
store_slot_in slots i v h = rw (lt→ltb i (length slots) h)

store_slot_out :
    (slots : Slots) (i : ℕ) (v : Bytes) → length slots ≤ i → store_slot slots i v ≡ panic
unfolding store_slot
store_slot_out slots i v h = ground arith

place_hashes_out :
    (bs : List AuxBlock) (i : ℕ) (slots : Slots)
    → All IsHexBlock bs
    → HasSlotFrom (length slots) bs
    → place_hashes bs i slots ≡ panic
unfolding place_hashes
place_hashes_out [] i slots p far = absurd far
place_hashes_out (b ∷ bs) i slots ((hash, e), ps) far = elim (Option-cases (get_elem? slots i)) [
  | inl gone ↦ rw (e, gone)
  | inr (old, at) ↦
      rw (e, at)
        (elim (Bool-cases (ltb index (length slots))) [
          | inl within ↦ rw (store_slot_in slots index (reverse_bytes hash) (ltb→lt _ _ within)) (
              place_hashes_out bs (i + 1) (set slots index (some (reverse_bytes hash))) ps
                (later within far))
          | inr outside ↦ rw (store_slot_out slots index (reverse_bytes hash) (ground arith))
        ])
]
  where
    index : ℕ
    index = get_expected_index b.chain_id 4

    later :
        ltb index (length slots) ≡ true
        → (length slots ≤ index) ⊎ HasSlotFrom (length slots) bs
        → HasSlotFrom (length (set slots index (some (reverse_bytes hash)))) bs
    later within (inl h) = absurd (omega (arith, ltb→lt index (length slots) within))
    later within (inr h) = rw (length-set slots index (some (reverse_bytes hash))) h

abbrev decoded : Result Bytes → Bytes
decoded (ok hash) = hash
decoded (err e) = []
decoded panic = []

-- What the blocks leave at a place that held some bytes: the last one with this slot puts its hash
-- there, the bytes in reverse.
abbrev pub leaf_from : Bytes → ℕ → List AuxBlock → Bytes
leaf_from old k [] = old
leaf_from old k (b ∷ bs) =
    leaf_from
      (if get_expected_index b.chain_id 4 == k then reverse (decoded (hex_decode b.hash)) else old)
      k bs

-- A place that no block takes holds 32 zero bytes.
abbrev pub leaf_at : ℕ → List AuxBlock → Bytes
leaf_at = leaf_from (replicate 32 0)

get_elem?-set :
    (xs : List Bytes) (j k : ℕ) (x : Bytes) {v : Bytes}
    → get_elem? xs k ≡ some v
    → get_elem? (set xs j x) k ≡ some (if j == k then x else v)
get_elem?-set [] j k x h = cc
get_elem?-set (y ∷ xs) zero zero x h = refl
get_elem?-set (y ∷ xs) zero (suc k) x h = ground arith
get_elem?-set (y ∷ xs) (suc j) zero x h = ground arith
get_elem?-set (y ∷ xs) (suc j) (suc k) x h = grind (arith, get_elem?-set xs j k x h)

fill_slots-set :
    (slots : Slots) (j : ℕ) (x : Bytes)
    → fill_slots (set slots j (some x)) ≡ set (fill_slots slots) j x
unfolding fill_slots
fill_slots-set [] j x = refl
fill_slots-set (none ∷ slots) zero x = refl
fill_slots-set (some y ∷ slots) zero x = refl
fill_slots-set (none ∷ slots) (suc j) x = ap (◌∷◌ (replicate 32 0)) (fill_slots-set slots j x)
fill_slots-set (some y ∷ slots) (suc j) x = ap (◌∷◌ y) (fill_slots-set slots j x)

get_elem?-empty :
    (size k : ℕ) → k < size → get_elem? (fill_slots (replicate size none)) k ≡ some (replicate 32 0)
unfolding fill_slots
get_elem?-empty zero k h = absurd (omega arith)
get_elem?-empty (suc size) zero h = refl
get_elem?-empty (suc size) (suc k) h = get_elem?-empty size k (omega arith)

place_hashes_in :
    (bs : List AuxBlock) (i : ℕ) (slots : Slots)
    → All IsHexBlock bs
    → All (λ b. get_expected_index b.chain_id 4 < length slots) bs
    → i + length bs ≤ length slots
    → (filled : Slots) × (place_hashes bs i slots ≡ ok filled)
      × (length filled ≡ length slots)
      × ((k : ℕ) (v : Bytes)
          → get_elem? (fill_slots slots) k ≡ some v
          → get_elem? (fill_slots filled) k ≡ some (leaf_from v k bs))
unfolding place_hashes
place_hashes_in [] i slots p within few = (slots, refl, refl, λ k v at. at)
place_hashes_in (b ∷ bs) i slots ((hash, e), ps) (h, hs) few =
    let (old, at) = get_elem?-some slots i (omega arith) in
    let index = get_expected_index b.chain_id 4 in
    let placed = set slots index (some (reverse_bytes hash)) in
    let size = length-set slots index (some (reverse_bytes hash)) in
    let (filled, done, same, leaf) =
      place_hashes_in bs (i + 1) placed ps (rw size hs) (omega arith) in
    (
      filled,
      rw (e, at, store_slot_in slots index (reverse_bytes hash) h) done,
      same ∙ size,
      λ k v before. leaf k (if index == k then reverse (decoded (hex_decode b.hash)) else v) (
          rw (fill_slots-set slots index (reverse_bytes hash), e, sym (reverse_bytes_lem hash))
            (get_elem?-set (fill_slots slots) index k (reverse_bytes hash) before)),
    )

pub length-fill_slots : (slots : Slots) → length (fill_slots slots) ≡ length slots
unfolding fill_slots
length-fill_slots [] = refl
length-fill_slots (none ∷ slots) = ap suc (length-fill_slots slots)
length-fill_slots (some x ∷ slots) = ap suc (length-fill_slots slots)

abbrev empty : ℕ → Slots
empty size = replicate size none

length-empty : (size : ℕ) → length (empty size) ≡ size
length-empty size = length-replicate size none

-- With hex hashes, slots inside the tree and no more blocks than slots, `BuildMerkleLeaf` returns
-- as many leaves as it was asked for, and each of them is the reversed hash of the last block with
-- its slot, or 32 zero bytes where no block has it.
pub build_merkle_leaf-ok :
    (size : ℕ) (bs : List AuxBlock)
    → All IsHexBlock bs
    → All (λ b. get_expected_index b.chain_id 4 < size) bs
    → length bs ≤ size
    → (leaves : List Bytes) × (build_merkle_leaf size bs ≡ ok leaves)
      × (length leaves ≡ size)
      × ((k : ℕ) → k < size → get_elem? leaves k ≡ some (leaf_at k bs))
unfolding build_merkle_leaf
build_merkle_leaf-ok size bs p within few =
    let n = length-empty size in
    let (filled, done, same, leaf) =
      place_hashes_in bs 0 (replicate size none) p (rw n within) (omega arith) in
    (
      fill_slots filled,
      rw done,
      length-fill_slots filled ∙ same ∙ n,
      λ k h. leaf k (replicate 32 0) (get_elem?-empty size k h),
    )

-- With hex hashes, one chain whose slot lies outside the tree makes `BuildMerkleLeaf` panic.
pub build_merkle_leaf-panic :
    (size : ℕ) (bs : List AuxBlock)
    → All IsHexBlock bs
    → HasSlotFrom size bs
    → build_merkle_leaf size bs ≡ panic
unfolding build_merkle_leaf
build_merkle_leaf-panic size bs p far =
    rw (place_hashes_out bs 0 (replicate size none) p (rw (length-empty size) far))

-- The branch of an auxiliary proof is looked for in a tree of eight slots, though the slots are
-- numbered below sixteen: with hex hashes, one chain among the blocks whose slot is eight or more
-- makes `makeAuxChainMerkleBranch` panic, for every chain of the pool.
pub make_aux_chain_merkle_branch-panic :
    (c : Crypto) (bs : List AuxBlock) (n : ℕ)
    → All IsHexBlock bs
    → HasSlotFrom 8 bs
    → make_aux_chain_merkle_branch c bs n ≡ panic
unfolding make_aux_chain_merkle_branch build_merkle_branches_and_mask
make_aux_chain_merkle_branch-panic c bs n p far = rw (build_merkle_leaf-panic 8 bs p far)
