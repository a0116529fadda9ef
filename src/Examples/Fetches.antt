-- ===== src/Examples/Fetches.antt =====
-- A run of the theorem on the fetching of templates.
use merged_mining_pool.Common.{◌≡◌, refl, some, [], ◌∷◌, List, Error, Result, ok, err, Bytes, codes}
use merged_mining_pool.Common.Int.{pos}
use merged_mining_pool.Template.{AuxBlock, Template}
use merged_mining_pool.Block.{BitcoinBlock, work_of}
use merged_mining_pool.AuxMerkle.{build_merkle_root}
use merged_mining_pool.Fetch.{
  AuxAnswer, Answers, PoolWork, fetch_rpc_block_templates_and_cache_work, fetch_all_block_templates,
  fetch_aux_loop, hex_string_to_byte_string,
}
use merged_mining_pool.Fetch.Gather.{IsUsed, IsFetched}
use merged_mining_pool.Fetch.Whole.{Carries, fetch_rpc_block_templates_and_cache_work-IsCommitted}
use merged_mining_pool.Examples.Toy.{toy, toy-IsCrypto}
use merged_mining_pool.Examples.Credits.{template, block}

abbrev aux : AuxBlock
aux = record {
  hash = codes "00ff";
  other_hash = [];
  chain_id = pos 1;
  previous_block_hash = [];
  coinbase_hash = [];
  coinbase_value = 0;
  bits = [];
  height = 5;
  target = [];
  target2 = codes "00";
}

abbrev order : List Bytes
order = codes "litecoin" ∷ codes "dogecoin" ∷ []

-- The primary node fails at first.
abbrev down : Answers
down = record { block_template = err Error.malformed_request; aux_block = λ n. AuxAnswer.not_found }

abbrev up : Answers
up = record { block_template = ok template; aux_block = λ n. AuxAnswer.found aux }

abbrev fetched : Result PoolWork
fetched =
    fetch_rpc_block_templates_and_cache_work toy (codes "sig") order (codes "51") (ok tt) down up 3

abbrev work_or_none : Result PoolWork → PoolWork
work_or_none (ok p) = p
work_or_none _ = record { aux_blocks = []; block = block; work_cache = []; job_counter = 0 }

fetch_rpc_block_templates_and_cache_work-IsCommitted_example :
    let p = work_or_none fetched in
    (a : Answers) × IsUsed order down up a
    × IsFetched order a p.aux_blocks
    × ((t : Template) × (a.block_template ≡ ok t)
        × (p.block.template ≡ some (record t { aux_blocks = p.aux_blocks }))
        × (p.work_cache ≡ work_of 3 p.block (record t { aux_blocks = p.aux_blocks })))
    × ((root : Bytes) × (build_merkle_root toy 16 p.aux_blocks ≡ ok root)
        × Carries (codes "sig") root p.block.coinbase_final_hex)
unfolding fetch_rpc_block_templates_and_cache_work fetch_all_block_templates fetch_aux_loop
    hex_string_to_byte_string merged_mining_pool.AuxMerkle.build_merkle_leaf
    merged_mining_pool.AuxMerkle.build_merkle_root
    merged_mining_pool.AuxMerkle.create_merged_mining_coinbase
    merged_mining_pool.AuxMerkle.create_script_sig merged_mining_pool.AuxMerkle.fill_slots
    merged_mining_pool.AuxMerkle.get_expected_index merged_mining_pool.AuxMerkle.int32_to_bytes
    merged_mining_pool.AuxMerkle.join_or_double merged_mining_pool.AuxMerkle.place_hashes
    merged_mining_pool.AuxMerkle.root_loop merged_mining_pool.AuxMerkle.store_slot
    merged_mining_pool.Block.generate_work merged_mining_pool.Block.hex_08
    merged_mining_pool.Block.hex_number merged_mining_pool.Block.init
    merged_mining_pool.Chain.get_chain merged_mining_pool.Coinbase.coinbase_final
    merged_mining_pool.Coinbase.coinbase_initial
    merged_mining_pool.Coinbase.coinbase_transaction_outputs
    merged_mining_pool.Coinbase.encode_number merged_mining_pool.Coinbase.generate_pub_key_script
    merged_mining_pool.Coinbase.hex_fixed merged_mining_pool.Coinbase.serialize_final
    merged_mining_pool.Coinbase.serialize_initial merged_mining_pool.Coinbase.transaction_out
    merged_mining_pool.Crypto.utils_double_sha256
    merged_mining_pool.Encoding.bytes_with_length_header merged_mining_pool.Encoding.le_bytes
    merged_mining_pool.Encoding.reverse_bytes merged_mining_pool.Encoding.reverse_hex4_bytes
    merged_mining_pool.Encoding.reverse_hex_bytes merged_mining_pool.Encoding.var_uint
    merged_mining_pool.Hex.hex_decode merged_mining_pool.Hex.hex_decode_prefix
    merged_mining_pool.Hex.hex_digit merged_mining_pool.Hex.hex_encode
    merged_mining_pool.Hex.hex_value merged_mining_pool.Merkle.merkle_steps
    merged_mining_pool.Merkle.template_merkle_branch_steps
    merged_mining_pool.Payouts.Payer.get_aux_n merged_mining_pool.Payouts.Payer.get_primary
fetch_rpc_block_templates_and_cache_work-IsCommitted_example =
    fetch_rpc_block_templates_and_cache_work-IsCommitted toy toy-IsCrypto (codes "sig") order
      (codes "51") (ok tt) down up 3 {p = work_or_none fetched} refl
