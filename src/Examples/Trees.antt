-- ===== src/Examples/Trees.antt =====
-- Runs of the theorems on both merkle trees.
use merged_mining_pool.Common.{
  ℕ, ◌<◌, ◌^◌, ◌≡◌, refl, inl, inr, some, List, [], ◌∷◌, map, arith, length, get_elem?, take,
  replicate, ok, panic, Bytes, codes,
}
use merged_mining_pool.Common.Int.{pos, negsuc, to_unsigned}
use merged_mining_pool.Hex.{hex_encode, hex_decode, hex_decode_prefix}
use merged_mining_pool.Crypto.{double_sha256_bytes, utils_double_sha256}
use merged_mining_pool.Template.{AuxBlock}
use merged_mining_pool.Encoding.{le_bytes, reverse_bytes}
use merged_mining_pool.Encoding.VarUint.{length-le_bytes}
use merged_mining_pool.Merkle.{template_merkle_branch_steps, make_header_merkle_root}
use merged_mining_pool.Merkle.Tree.{IsRoot}
use merged_mining_pool.Merkle.Branch.{make_header_merkle_root-IsRoot}
use merged_mining_pool.AuxMerkle.{
  place_hashes, store_slot, fill_slots, build_merkle_leaf, build_merkle_branches_and_mask,
  build_merkle_root, mask_of, create_script_sig, make_aux_chain_merkle_branch, get_expected_index,
}
use merged_mining_pool.AuxMerkle.Leaves.{
  leaf_at, build_merkle_leaf-ok, make_aux_chain_merkle_branch-panic,
}
use merged_mining_pool.AuxMerkle.Climb.{climb_at, build_merkle_branches_and_mask-climbs}
use merged_mining_pool.AuxMerkle.Script.{read_commitment, create_script_sig-read}
use merged_mining_pool.Examples.Toy.{toy, toy-IsCrypto}

abbrev two_hashes : List Bytes
two_hashes = (1 ∷ 2 ∷ []) ∷ (3 ∷ 4 ∷ []) ∷ []

make_header_merkle_root-IsRoot_example :
    (steps : List Bytes) × (root : Bytes) × (template_merkle_branch_steps toy
        (map hex_encode two_hashes)
      ≡ ok steps)
    × (make_header_merkle_root toy (hex_encode (9 ∷ [])) steps ≡ ok (hex_encode root))
    × IsRoot (double_sha256_bytes toy) ((9 ∷ []) ∷ two_hashes) root
make_header_merkle_root-IsRoot_example =
    make_header_merkle_root-IsRoot toy toy-IsCrypto (9 ∷ []) two_hashes (omega arith, tt)
      ((omega arith, (omega arith, tt)), ((omega arith, (omega arith, tt)), tt))

abbrev aux_block : ℕ → AuxBlock
aux_block id = record {
  hash = codes "0a0b";
  other_hash = [];
  chain_id = pos id;
  previous_block_hash = [];
  coinbase_hash = [];
  coinbase_value = 0;
  bits = [];
  height = 0;
  target = [];
  target2 = [];
}

-- Of sixteen slots the identifier 63 has slot 1, and 98 slot 8.
abbrev aux_blocks : List AuxBlock
aux_blocks = aux_block 63 ∷ []

abbrev leaves : List Bytes
leaves = replicate 32 0 ∷ (11 ∷ 10 ∷ []) ∷ []

leaves_built : build_merkle_leaf (2 ^ 1) aux_blocks ≡ ok leaves
unfolding build_merkle_leaf place_hashes store_slot fill_slots get_expected_index hex_decode
    reverse_bytes
leaves_built = refl

searched_held : get_elem? leaves 1 ≡ some (reverse_bytes (hex_decode_prefix (codes "0a0b")).0)
unfolding reverse_bytes hex_decode_prefix
searched_held = refl

build_merkle_branches_and_mask-climbs_example :
    let searched = reverse_bytes (hex_decode_prefix (codes "0a0b")).0 in
    (index : ℕ) × (branch : List Bytes) × (root : Bytes) × (build_merkle_branches_and_mask toy
        (2 ^ 1)
        aux_blocks
        1
      ≡ ok (branch, mask_of index))
    × (build_merkle_root toy (2 ^ 1) aux_blocks ≡ ok root)
    × (get_elem? leaves index ≡ some searched)
    × (length branch ≡ 1)
    × (climb_at (utils_double_sha256 toy) index searched branch ≡ root)
build_merkle_branches_and_mask-climbs_example =
    build_merkle_branches_and_mask-climbs toy 1 aux_blocks 1 1 {leaves = leaves}
      {block = aux_block 63} leaves_built refl refl searched_held

hash_decodes : hex_decode (codes "0a0b") ≡ ok (10 ∷ 11 ∷ [])
unfolding hex_decode
hash_decodes = refl

slot_8 : get_expected_index (pos 98) 4 ≡ 8
unfolding get_expected_index
slot_8 = refl

slot_1 : get_expected_index (pos 63) 4 ≡ 1
unfolding get_expected_index
slot_1 = refl

make_aux_chain_merkle_branch-panic_example :
    make_aux_chain_merkle_branch toy (aux_block 63 ∷ aux_block 98 ∷ []) 1 ≡ panic
make_aux_chain_merkle_branch-panic_example =
    make_aux_chain_merkle_branch-panic toy (aux_block 63 ∷ aux_block 98 ∷ []) 1
      ((10 ∷ 11 ∷ [], hash_decodes), ((10 ∷ 11 ∷ [], hash_decodes), tt))
      (inr (inl (omega (arith, slot_8))))

build_merkle_leaf-ok_example :
    (leaves : List Bytes) × (build_merkle_leaf 4 aux_blocks ≡ ok leaves)
    × (length leaves ≡ 4)
    × ((k : ℕ) → k < 4 → get_elem? leaves k ≡ some (leaf_at k aux_blocks))
build_merkle_leaf-ok_example =
    build_merkle_leaf-ok 4 aux_blocks ((10 ∷ 11 ∷ [], hash_decodes), tt) (omega (arith, slot_1), tt)
      (omega arith)

create_script_sig-read_example :
    (take 4 (create_script_sig (negsuc 0) (pos 16) (le_bytes 32 777))
      ≡ 0xfa ∷ 0xbe ∷ 0x6d ∷ 0x6d ∷ [])
    × (length (create_script_sig (negsuc 0) (pos 16) (le_bytes 32 777)) ≡ 44)
    × (read_commitment (create_script_sig (negsuc 0) (pos 16) (le_bytes 32 777))
        ≡ (le_bytes 32 777, to_unsigned 32 (pos 16), to_unsigned 32 (negsuc 0)))
create_script_sig-read_example =
    create_script_sig-read (negsuc 0) (pos 16) (le_bytes 32 777) (length-le_bytes 32 777)
