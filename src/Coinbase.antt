-- ===== src/Coinbase.antt =====
-- bitcoin/coinbase.go and bitcoin/transaction.go: the coinbase transaction in its two halves.
pub mod Height
pub mod Format
pub mod Script
pub mod Outputs
use merged_mining_pool.Common.{
  ℕ, zero, suc, ◌+◌, ◌-◌, ◌*◌, ◌/◌, ◌%◌, ◌^◌, ◌≤◌, ◌<◌, ◌≡◌, refl, sym, ap, ◌∙◌, ◌≢◌, ◌↔◌, ◌⊎◌, inl,
  inr, Bool, true, false, not, ◌&&◌, ◌||◌, Option, none, some, List, [], ◌∷◌, ◌++◌, map, reverse,
  append-nil, append_assoc, arith, ltb, leb, ◌==◌, if◌then◌else◌, Bool-cases, Option-cases, length,
  get_elem?, set, take, drop, replicate, All, length-append, length-reverse, All-append,
  All-reverse, length-set, length-replicate, length-map, Error, Result, ok, err, panic, ◌>>=◌,
  or_panic, >>=-eq-ok, Bytes, IsByte, codes, bytes_eq, bytes_eq_refl, eq_of_bytes_eq,
}
use merged_mining_pool.Hex.{hex_digit, hex_encode, hex_decode}
use merged_mining_pool.Crypto.{Crypto}
use merged_mining_pool.Template.{Template}
use merged_mining_pool.Encoding.{var_uint, reverse_hex_bytes}

-- `buff[i] = v`.
abbrev pub store : Bytes → ℕ → ℕ → Result Bytes
store buff i v = if ltb i (length buff) then ok (set buff i v) else panic

-- `for n > 0x7f`. The write at index 9 panics before the tenth round, so ten rounds are enough.
encode_number_loop : ℕ → ℕ → ℕ → Bytes → Result (ℕ × ℕ × Bytes)
encode_number_loop zero n l buff = panic
encode_number_loop (suc rounds) n l buff =
    let more = store buff l (n % 256) >>= encode_number_loop rounds (n / 256) (l + 1) in
    if ltb 0x7f n then more else ok (n, l, buff)

-- The lines behind the loop.
encode_number_finish : ℕ × ℕ × Bytes → Result Bytes
encode_number_finish (n, l, buff) = do
  headed ← store buff 0 (l % 256)
  full ← store headed l (n % 256)
  ok (take (l + 1) full)

unfoldable pub encode_number : ℕ → Result Bytes
unfolding encode_number_loop encode_number_finish
encode_number n =
    if leb 1 n && leb n 16
    then ok (((0x50 + n % 256) % 256) ∷ [])
    else encode_number_loop 10 n 1 (replicate 9 0) >>= encode_number_finish

pub record CoinbaseInitial : Type 0 where
  pub version : Bytes
  pub number_of_inputs : Bytes
  pub previous_output_transaction_id : Bytes
  pub previous_output_index : Bytes
  pub bytes_in_arbitrary : ℕ
  pub bytes_in_height : ℕ
  pub height_hex : Bytes

-- The warning on a long coinbase is only logged.
unfoldable pub coinbase_initial : Template → ℕ → Result CoinbaseInitial
coinbase_initial t arbitrary_byte_length = do
  height_bytes ← encode_number t.height
  let height_byte_len = length height_bytes
  ok record {
    version = codes "01000000";
    number_of_inputs = codes "01";
    previous_output_transaction_id =
        codes "0000000000000000000000000000000000000000000000000000000000000000";
    previous_output_index = codes "ffffffff";
    bytes_in_arbitrary = (arbitrary_byte_length + height_byte_len) % 2 ^ 64;
    bytes_in_height = height_byte_len;
    height_hex = hex_encode height_bytes;
  }

unfoldable pub serialize_initial : CoinbaseInitial → Result Bytes
serialize_initial i = do
  bytes_in_arbitrary ← var_uint i.bytes_in_arbitrary
  ok (
      i.version
      ++ (i.number_of_inputs
          ++ (i.previous_output_transaction_id
              ++ (i.previous_output_index ++ (bytes_in_arbitrary ++ i.height_hex)))))

pub record CoinbaseFinal : Type 0 where
  pub transaction_in_sequence : Bytes
  pub output_count : ℕ
  pub tx_outs : Bytes
  pub transaction_lock_time : Bytes

unfoldable pub transaction_out : Bytes → Bytes → Result Bytes
transaction_out amount pub_script_key = do
  length_bytes ← var_uint (length pub_script_key / 2)
  ok (amount ++ (length_bytes ++ pub_script_key))

-- The low hex digits of a number, the highest first.
unfoldable pub hex_fixed : ℕ → ℕ → Bytes
hex_fixed zero v = []
hex_fixed (suc w) v = hex_fixed w (v / 16) ++ hex_digit (v % 16) ∷ []

-- An error of `GeneratePubKeyScript` panics.
abbrev or_die : Result Bytes → Result Bytes
or_die (ok s) = ok s
or_die (err e) = panic
or_die panic = panic

-- The witness commitment, if the template has one.
abbrev commitment_outputs : Template → Result (ℕ × Bytes)
commitment_outputs t = if bytes_eq t.default_witness_commitment [] then ok (0, []) else (do
  out ← transaction_out (codes "0000000000000000") t.default_witness_commitment
  ok (1, out))

-- `reverseHexBytes` gets sixteen digits there; the source drops its error.
abbrev or_empty : Result Bytes → Bytes
or_empty (ok s) = s
or_empty _ = []

module _ (c : Crypto) where
  -- A write to the hasher never fails.
  unfoldable pub generate_pub_key_script : Bytes → Result Bytes
  generate_pub_key_script pub_key = do
    pub_key_bytes ← hex_decode pub_key
    let pub_key_hash = c.ripemd160 (c.sha256 pub_key_bytes)
    ok (codes "76a914" ++ (hex_encode pub_key_hash ++ codes "88ac"))

  unfoldable pub coinbase_transaction_outputs : Template → Bytes → Result (ℕ × Bytes)
  coinbase_transaction_outputs t pool_pub_script_key = do
    (outputs_count, outputs) ← commitment_outputs t
    let reward_amount = or_empty (reverse_hex_bytes (hex_fixed 16 t.coin_base_value))
    pub_script_key ← or_die (generate_pub_key_script pool_pub_script_key)
    out1 ← transaction_out reward_amount pub_script_key
    out2 ← transaction_out reward_amount pool_pub_script_key
    out3 ← transaction_out reward_amount (codes "AAAA")
    ok (outputs_count + 3, outputs ++ (out1 ++ (out2 ++ out3)))

  unfoldable pub coinbase_final : Template → Bytes → Result CoinbaseFinal
  coinbase_final t pool_payout_pub_script_key = do
    (tx_output_len, tx_output) ← coinbase_transaction_outputs t pool_payout_pub_script_key
    ok record {
      transaction_in_sequence = codes "00000000";
      output_count = tx_output_len;
      tx_outs = tx_output;
      transaction_lock_time = codes "00000000";
    }

unfoldable pub serialize_final : CoinbaseFinal → Result Bytes
serialize_final f = do
  output_count ← var_uint f.output_count
  ok (f.transaction_in_sequence ++ (output_count ++ (f.tx_outs ++ f.transaction_lock_time)))

pub record Coinbase : Type 0 where
  pub initial : Bytes
  pub arbitrary : Bytes
  pub final : Bytes

unfoldable pub serialize_coinbase : Coinbase → Bytes
serialize_coinbase cb = cb.initial ++ (cb.arbitrary ++ cb.final)
