-- ===== src/Examples/Headers.antt =====
-- Runs of the theorems on headers and blocks.
use merged_mining_pool.Common.{
  ◌%◌, ◌^◌, ◌≡◌, refl, some, [], ◌∷◌, reverse, arith, length, All, ok, Bytes, IsByte, codes,
}
use merged_mining_pool.Hex.{hex_encode}
use merged_mining_pool.Crypto.{double_sha256_bytes}
use merged_mining_pool.Template.{Template}
use merged_mining_pool.Encoding.{le_bytes}
use merged_mining_pool.Encoding.VarUint.{le_value, le_bytes-IsByte, length-le_bytes}
use merged_mining_pool.Chain.{litecoin}
use merged_mining_pool.Merkle.{template_merkle_branch_steps}
use merged_mining_pool.Merkle.Tree.{IsRoot}
use merged_mining_pool.Coinbase.{serialize_coinbase}
use merged_mining_pool.Header.{block_header}
use merged_mining_pool.Header.Fields.{read_header, IsSized, block_header-read}
use merged_mining_pool.Block.{BitcoinBlock, make_coinbase, make_header, sum}
use merged_mining_pool.Block.Commit.{IsReady, make_header-commits}
use merged_mining_pool.Block.Sum.{sum-le_value}
use merged_mining_pool.Examples.Toy.{toy, toy-IsCrypto}

abbrev prev : Bytes
prev = le_bytes 32 9000

abbrev root : Bytes
root = le_bytes 32 77

abbrev four : Bytes
four = 1 ∷ 2 ∷ 3 ∷ 4 ∷ []

four-IsByte : All IsByte four
four-IsByte = (omega arith, (omega arith, (omega arith, (omega arith, tt))))

sized : IsSized prev root four four four
sized = record {
  prev_32 = length-le_bytes 32 9000;
  root_32 = length-le_bytes 32 77;
  time_4 = refl;
  bits_4 = refl;
  nonce_4 = refl;
  are_bytes =
      (le_bytes-IsByte 32 9000, (le_bytes-IsByte 32 77, (four-IsByte, (four-IsByte, four-IsByte))));
}

block_header-read_example :
    (h : Bytes) × (block_header 4294967297
        (hex_encode prev)
        (hex_encode root)
        (hex_encode four)
        (hex_encode four)
        (hex_encode four)
      ≡ ok (hex_encode h))
    × (length h ≡ 80)
    × (read_header h ≡ record {
      version = 4294967297 % 2 ^ 32;
      previous = prev;
      root = root;
      time = le_value (reverse four);
      bits = le_value (reverse four);
      nonce = le_value (reverse four);
    })
block_header-read_example = block_header-read 4294967297 prev root four four four sized

abbrev template : Template
template = record {
  version = 1;
  prev_block_hash = hex_encode prev;
  height = 300;
  coin_base_value = 1000;
  default_witness_commitment = [];
  bits = hex_encode four;
  target = [];
  transactions = [];
  current_time = 0;
  mimble_wimble = [];
  aux_blocks = [];
}

abbrev block : BitcoinBlock
block = record {
  template = some template;
  reverse_prev_block_hash = [];
  coinbase_initial_hex = codes "0a";
  coinbase_final_hex = codes "0c";
  merkle_steps_hex = hex_encode root ∷ [];
  coinbase = [];
  header = hex_encode (7 ∷ 5 ∷ []);
  hash = [];
  chain = some litecoin;
}

steps_made : template_merkle_branch_steps toy (hex_encode root ∷ []) ≡ ok (hex_encode root ∷ [])
unfolding template_merkle_branch_steps merged_mining_pool.Merkle.pad_level
    merged_mining_pool.Merkle.join_pairs
steps_made = refl

ready : IsReady toy block template prev four (root ∷ []) litecoin
ready = record {
  has_template = refl;
  has_chain = refl;
  prev_hex = refl;
  prev_hash = (length-le_bytes 32 9000, le_bytes-IsByte 32 9000);
  bits_hex = refl;
  bits_4 = (refl, four-IsByte);
  hashes_32 = ((length-le_bytes 32 77, le_bytes-IsByte 32 77), tt);
  steps = steps_made;
}

coinbase_made : (make_coinbase (codes "0b") block).coinbase ≡ hex_encode (10 ∷ 11 ∷ 12 ∷ [])
unfolding hex_encode serialize_coinbase
coinbase_made = refl

make_header-commits_example :
    let (b', made) = make_header toy (codes "0b") (hex_encode four) (hex_encode four) block in
    (h : Bytes) × (made ≡ ok (hex_encode h))
    × (b'.header ≡ hex_encode h)
    × (length h ≡ 80)
    × ((read_header h).previous ≡ prev)
    × ((read_header h).nonce ≡ le_value (reverse four))
    × IsRoot
        (double_sha256_bytes toy)
        (double_sha256_bytes toy (10 ∷ 11 ∷ 12 ∷ []) ∷ root ∷ [])
        (read_header h).root
make_header-commits_example =
    make_header-commits toy toy-IsCrypto block template prev four (root ∷ []) litecoin (codes "0b")
      (10 ∷ 11 ∷ 12 ∷ []) four four ready coinbase_made
      (omega arith, (omega arith, (omega arith, tt))) (refl, four-IsByte) (refl, four-IsByte)

sum-le_value_example : sum toy block ≡ (
  record block {
    hash = hex_encode (reverse (toy.scrypt_key (7 ∷ 5 ∷ []) (7 ∷ 5 ∷ []) 1024 1 1 32));
  },
  ok (le_value (toy.scrypt_key (7 ∷ 5 ∷ []) (7 ∷ 5 ∷ []) 1024 1 1 32)),
)
sum-le_value_example =
    sum-le_value toy toy-IsCrypto block litecoin 7 (5 ∷ []) refl refl
      (omega arith, (omega arith, tt))
