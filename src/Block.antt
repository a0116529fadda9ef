-- ===== src/Block.antt =====
-- bitcoin/bitcoin.go, generator.go, submission.go, work.go and auxpow.go: the block that the pool
-- works on, from its template to what is submitted.
pub mod Commit
pub mod Sum
use merged_mining_pool.Common.{
  ℕ, zero, ◌+◌, ◌-◌, ◌*◌, ◌/◌, ◌%◌, ◌^◌, Bool, not, Option, none, some, List, [], ◌∷◌, ◌++◌, ltb,
  ◌==◌, if◌then◌else◌, length, set, Error, Result, ok, err, panic, ◌>>=◌, or_panic, or_error, Bytes,
  codes, bytes_eq,
}
use merged_mining_pool.Hex.{hex_encode, hex_decode}
use merged_mining_pool.Crypto.{Crypto}
use merged_mining_pool.Template.{Transaction, AuxBlock, Template}
use merged_mining_pool.Encoding.{
  var_uint, reverse_hex_bytes, reverse_hex4_bytes, bytes_with_length_header,
}
use merged_mining_pool.Coinbase.{
  Coinbase, hex_fixed, coinbase_initial, serialize_initial, coinbase_final, serialize_final,
  serialize_coinbase,
}
use merged_mining_pool.Merkle.{merkle_steps, make_header_merkle_root}
use merged_mining_pool.Header.{block_header}
use merged_mining_pool.Chain.{Chain, get_chain, coinbase_digest, header_digest, share_multiplier}
use merged_mining_pool.AuxMerkle.{
  AuxMerkleBranch, make_aux_chain_merkle_branch, serialize_aux_branch,
}

-- A nil template or chain is `none`.
pub record BitcoinBlock : Type 0 where
  pub template : Option Template
  pub reverse_prev_block_hash : Bytes
  pub coinbase_initial_hex : Bytes
  pub coinbase_final_hex : Bytes
  pub merkle_steps_hex : List Bytes
  pub coinbase : Bytes
  pub header : Bytes
  pub hash : Bytes
  pub chain : Option Chain

-- The entries of a stratum work packet.
pub data Item : Type 0 where
  text : Bytes → Item
  texts : List Bytes → Item
  flag : Bool → Item

abbrev pub Work : Type 0
Work = List Item

-- The lowest digits first dropped: `%x` of a 64-bit number.
abbrev strip_zeros : Bytes → Bytes
strip_zeros [] = []
strip_zeros (x ∷ []) = x ∷ []
strip_zeros (x ∷ y ∷ s) = if x == b'0' then strip_zeros (y ∷ s) else x ∷ y ∷ s

unfoldable pub hex_number : ℕ → Bytes
hex_number v = strip_zeros (hex_fixed 16 v)

-- `%08x`: at least eight digits.
unfoldable pub hex_08 : ℕ → Bytes
hex_08 v = if ltb v (16 ^ 8) then hex_fixed 8 v else hex_number v

-- A zero block.
abbrev pub new_block : BitcoinBlock
new_block = record {
  template = none;
  reverse_prev_block_hash = [];
  coinbase_initial_hex = [];
  coinbase_final_hex = [];
  merkle_steps_hex = [];
  coinbase = [];
  header = [];
  hash = [];
  chain = none;
}

-- `init`: the chain is never nil where the pool calls it.
unfoldable pub init : Chain → BitcoinBlock → BitcoinBlock
init chain b = record b { chain = some chain }

unfoldable pub chain_of : BitcoinBlock → Result Chain
chain_of b = or_panic b.chain

-- The slots of the packet, with the number of the job in front.
abbrev pub work_of : ℕ → BitcoinBlock → Template → Work
work_of job_counter block t =
    text (hex_08 job_counter)
    ∷ text block.reverse_prev_block_hash
    ∷ text block.coinbase_initial_hex
    ∷ text block.coinbase_final_hex
    ∷ texts block.merkle_steps_hex
    ∷ text (hex_08 t.version)
    ∷ text t.bits
    ∷ text (hex_number t.current_time)
    ∷ []

abbrev pub make_coinbase : Bytes → BitcoinBlock → BitcoinBlock
make_coinbase extranonce b = record b {
  coinbase = serialize_coinbase (record {
    initial = b.coinbase_initial_hex;
    arbitrary = extranonce;
    final = b.coinbase_final_hex;
  });
}

abbrev pub text_or_empty : Result Bytes → Bytes
text_or_empty (ok s) = s
text_or_empty _ = []

-- `b.header, err = blockHeader(…)` empties the header on an error.
abbrev pub set_header : BitcoinBlock → Result Bytes → BitcoinBlock × Result Bytes
set_header b r = (record b { header = text_or_empty r }, r)

-- `new(big.Int).SetBytes`: the highest byte first.
abbrev pub set_bytes : ℕ → Bytes → ℕ
set_bytes acc [] = acc
set_bytes acc (b ∷ bs) = set_bytes (256 * acc + b) bs

module _ (c : Crypto) where
  -- The global `jobCounter` is passed in, and its new value returned.
  unfoldable pub generate_work :
      Option Template → Bytes → Bytes → Bytes → ℕ → ℕ → Result (BitcoinBlock × Work × ℕ)
  generate_work none name arbitrary pool_payout_pub_script_key reserved job_counter =
      err Error.template_is_null
  generate_work (some t) name arbitrary pool_payout_pub_script_key reserved job_counter = do
    chain ← get_chain name
    reverse_prev_block_hash ← reverse_hex4_bytes t.prev_block_hash
    let arbitrary_bytes = bytes_with_length_header arbitrary
    initial ← coinbase_initial t (length arbitrary_bytes + reserved)
    initial_hex ← serialize_initial initial
    final ← coinbase_final c t pool_payout_pub_script_key
    final_hex ← serialize_final final
    steps ← merkle_steps c t
    let block = record (init chain new_block) {
      template = some t;
      reverse_prev_block_hash = reverse_prev_block_hash;
      coinbase_initial_hex = initial_hex;
      coinbase_final_hex = hex_encode arbitrary_bytes ++ final_hex;
      merkle_steps_hex = steps;
    }
    ok (block, work_of job_counter block t, job_counter + 1)

  unfoldable pub coinbase_hashed : BitcoinBlock → Result Bytes
  coinbase_hashed b = do chain ← chain_of b; coinbase_digest c chain b.coinbase

  unfoldable pub header_hashed : BitcoinBlock → Result Bytes
  header_hashed b = do
    chain ← chain_of b
    header ← coinbase_digest c chain b.header
    reverse_hex_bytes header

  -- The merkle root of the block with its coinbase set.
  abbrev pub merkle_root_of : BitcoinBlock → Result Bytes
  merkle_root_of b = do
    hashed ← coinbase_hashed b
    make_header_merkle_root c hashed b.merkle_steps_hex

  abbrev pub with_root :
      Template → Bytes → Bytes → BitcoinBlock → Result Bytes → BitcoinBlock × Result Bytes
  with_root t nonce nonce_time b (ok root) =
      set_header b (block_header t.version t.prev_block_hash root nonce_time t.bits nonce)
  with_root t nonce nonce_time b (err e) = (b, err e)
  with_root t nonce nonce_time b panic = (b, panic)

  abbrev pub make_header_of :
      Option Template → Bytes → Bytes → Bytes → BitcoinBlock → BitcoinBlock × Result Bytes
  make_header_of none extranonce nonce nonce_time b = (b, err Error.generate_work_first)
  make_header_of (some t) extranonce nonce nonce_time b =
      let b' = make_coinbase extranonce b in with_root t nonce nonce_time b' (merkle_root_of b')

  -- The method changes the block, also when it returns an error.
  unfoldable pub make_header : Bytes → Bytes → Bytes → BitcoinBlock → BitcoinBlock × Result Bytes
  make_header extranonce nonce nonce_time b =
      make_header_of b.template extranonce nonce nonce_time b

  abbrev pub digest_of : BitcoinBlock → Result Bytes
  digest_of b = do
    chain ← or_error b.chain Error.missing_blockchain
    header ← (if bytes_eq b.header [] then err Error.generate_header_first else ok b.header)
    digest ← header_digest c chain header
    reverse_hex_bytes digest

  abbrev pub sum_of : BitcoinBlock → Result Bytes → BitcoinBlock × Result ℕ
  sum_of b (ok digest) = (record b { hash = digest }, hex_decode digest >>= λ s. ok (set_bytes 0 s))
  sum_of b (err e) = (b, err e)
  sum_of b panic = (b, panic)

  unfoldable pub sum : BitcoinBlock → BitcoinBlock × Result ℕ
  sum b = sum_of b (digest_of b)

pub record Submission : Type 0 where
  pub header : Bytes
  pub transaction_count : Bytes
  pub coinbase : Bytes
  pub transaction_buffer : Bytes

unfoldable pub serialize_submission : Submission → Bytes
serialize_submission s = s.header ++ (s.transaction_count ++ (s.coinbase ++ s.transaction_buffer))

-- The loop of `buildTransactionBuffer`, over the transactions not yet taken.
unfoldable pub transaction_buffer_loop : List Transaction → Bytes → Bytes
transaction_buffer_loop [] buffer = buffer
transaction_buffer_loop (transaction ∷ rest) buffer =
    transaction_buffer_loop rest (buffer ++ transaction.data_hex)

unfoldable pub create_submission_hex : BitcoinBlock → Result Bytes
create_submission_hex b = do
  t ← or_panic b.template
  transaction_count ← var_uint (length t.transactions + 1)
  ok (
      serialize_submission (record {
        header = b.header;
        transaction_count = transaction_count;
        coinbase = b.coinbase;
        transaction_buffer = transaction_buffer_loop t.transactions [];
      }))

unfoldable pub submit : BitcoinBlock → Result Bytes
submit b = do
  header ← (if bytes_eq b.header [] then err Error.generate_header_first else ok b.header)
  t ← or_panic b.template
  submission ← create_submission_hex b
  ok (
      if bytes_eq t.mimble_wimble []
      then submission
      else submission ++ (codes "01" ++ t.mimble_wimble))

pub record ParentMerkleBranch : Type 0 where
  pub count : ℕ
  pub items : List Bytes
  pub mask : Bytes

unfoldable pub make_parent_merkle_branch : List Bytes → ParentMerkleBranch
make_parent_merkle_branch items = record {
  count = length items;
  items = items;
  mask = codes "00000000";
}

-- `items = items + item`, over the items not yet taken.
unfoldable pub items_loop : List Bytes → Bytes → Bytes
items_loop [] items = items
items_loop (item ∷ rest) items = items_loop rest (items ++ item)

unfoldable pub serialize_parent_branch : ParentMerkleBranch → Result Bytes
serialize_parent_branch pm = do
  count ← var_uint pm.count
  ok (count ++ (items_loop pm.items [] ++ pm.mask))

pub record AuxPow : Type 0 where
  pub parent_coinbase : Bytes
  pub parent_header_hash : Bytes
  pub parent_merkle_branch : ParentMerkleBranch
  pub aux_merkle_branch : AuxMerkleBranch
  pub parent_header_unhashed : Bytes

module _ (c : Crypto) where
  unfoldable pub make_aux_pow : BitcoinBlock → ℕ → Result AuxPow
  make_aux_pow parent_block n = do
    hash ← (if bytes_eq parent_block.hash [] then panic else ok parent_block.hash)
    t ← or_panic parent_block.template
    aux_merkle_branch ← make_aux_chain_merkle_branch c t.aux_blocks n
    ok record {
      parent_coinbase = parent_block.coinbase;
      parent_header_hash = hash;
      parent_merkle_branch = make_parent_merkle_branch parent_block.merkle_steps_hex;
      aux_merkle_branch = aux_merkle_branch;
      parent_header_unhashed = parent_block.header;
    }

unfoldable pub serialize_aux_pow : AuxPow → Result Bytes
serialize_aux_pow p = do
  parent_branch ← serialize_parent_branch p.parent_merkle_branch
  ok (
      p.parent_coinbase
      ++ (p.parent_header_hash
          ++ (parent_branch
              ++ (serialize_aux_branch p.aux_merkle_branch ++ p.parent_header_unhashed))))
