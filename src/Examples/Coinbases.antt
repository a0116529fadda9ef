-- ===== src/Examples/Coinbases.antt =====
-- Runs of the theorems on the coinbase.
use merged_mining_pool.Common.{
  ◌+◌, ◌*◌, ◌^◌, ◌≤◌, ◌<◌, ◌≡◌, refl, ◌↔◌, inr, [], ◌∷◌, ◌++◌, arith, length, replicate, All, ok,
  panic, Bytes, IsByte, codes,
}
use merged_mining_pool.Hex.{hex_encode}
use merged_mining_pool.Template.{Template}
use merged_mining_pool.Encoding.{bytes_with_length_header}
use merged_mining_pool.Encoding.VarUint.{le_value}
use merged_mining_pool.Coinbase.{
  CoinbaseInitial, encode_number, coinbase_initial, coinbase_transaction_outputs,
}
use merged_mining_pool.Coinbase.Height.{
  encode_number_round_trip, encode_number-eq-panic_iff, last_byte,
}
use merged_mining_pool.Coinbase.Script.{script_length}
use merged_mining_pool.Coinbase.Outputs.{
  serialize_outs, coinbase_outs, total_amount, coinbase_transaction_outputs_lem,
}
use merged_mining_pool.Examples.Toy.{toy, toy-IsCrypto}

encode_number_round_trip_example :
    (digits : Bytes) × (encode_number 40000 ≡ ok (length digits ∷ digits))
    × ((1 ≤ length digits) × (length digits ≤ 8))
    × All IsByte digits
    × (le_value digits ≡ 40000)
    × (last_byte digits < 128)
encode_number_round_trip_example = encode_number_round_trip 40000 (inr (omega arith)) (omega arith)

encode_number-eq-panic_iff_example : (encode_number 128 ≡ panic) ↔ (2 ^ 63 ≤ 128)
encode_number-eq-panic_iff_example = encode_number-eq-panic_iff 128

abbrev template : Template
template = record {
  version = 1;
  prev_block_hash = [];
  height = 300;
  coin_base_value = 1000;
  default_witness_commitment = [];
  bits = [];
  target = [];
  transactions = [];
  current_time = 0;
  mimble_wimble = [];
  aux_blocks = [];
}

abbrev initial : CoinbaseInitial
initial = record {
  version = codes "01000000";
  number_of_inputs = codes "01";
  previous_output_transaction_id = replicate 64 b'0';
  previous_output_index = codes "ffffffff";
  bytes_in_arbitrary = 14;
  bytes_in_height = 3;
  height_hex = codes "022c01";
}

initial_built :
    coinbase_initial template (length (bytes_with_length_header (7 ∷ 8 ∷ [])) + 8) ≡ ok initial
unfolding coinbase_initial encode_number bytes_with_length_header hex_encode
initial_built = refl

script_length_example :
    length (
      codes "022c01"
      ++ (codes "0123456789abcdef" ++ hex_encode (bytes_with_length_header (7 ∷ 8 ∷ []))))
    ≡ 28
script_length_example =
    script_length template (7 ∷ 8 ∷ []) (codes "0123456789abcdef") {i = initial} initial_built refl
      (omega arith)

coinbase_transaction_outputs_lem_example :
    let outs = coinbase_outs toy template (2 ∷ 9 ∷ []) in
    (coinbase_transaction_outputs toy template (hex_encode (2 ∷ 9 ∷ []))
      ≡ ok (length outs, serialize_outs outs))
    × (total_amount outs ≡ 3 * 1000)
coinbase_transaction_outputs_lem_example =
    coinbase_transaction_outputs_lem toy toy-IsCrypto template (2 ∷ 9 ∷ [])
      (omega arith, (omega arith, tt)) (omega arith, omega arith) (omega arith, omega arith)
