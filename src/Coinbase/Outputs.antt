-- ===== src/Coinbase/Outputs.antt =====
-- The outputs of the coinbase transaction, and what they pay.
use merged_mining_pool.Common.{
  ℕ, ◌+◌, ◌*◌, ◌≡◌, refl, ◌∙◌, inl, inr, ◌<◌, ◌≢◌, ◌^◌, ◌/◌, sym, ap, append_assoc, length-append,
  List, [], ◌∷◌, ◌++◌, append-nil, arith, if◌then◌else◌, Bool-cases, length, All, ok, Bytes, IsByte,
  codes, bytes_eq,
}
use merged_mining_pool.Hex.{hex_encode}
use merged_mining_pool.Hex.RoundTrip.{hex_decode-encode, length-hex_encode, hex_encode-append}
use merged_mining_pool.Crypto.{Crypto, IsCrypto}
use merged_mining_pool.Template.{Template}
use merged_mining_pool.Encoding.{le_bytes}
use merged_mining_pool.Encoding.VarUint.{compact, var_uint-compact}
use merged_mining_pool.Coinbase.{
  transaction_out, generate_pub_key_script, coinbase_transaction_outputs,
}
use merged_mining_pool.Coinbase.Format.{reverse-hex_fixed}

-- An output: the amount in the smallest unit, and the script in hex.
pub record TxOut : Type 0 where
  pub amount : ℕ
  pub script : Bytes

-- The protocol's serialization of outputs: eight little-endian bytes, the size of the script as a
-- CompactSize integer, and the script.
abbrev pub serialize_outs : List TxOut → Bytes
serialize_outs [] = []
serialize_outs (o ∷ os) =
    hex_encode (le_bytes 8 o.amount ++ compact (length o.script / 2))
    ++ (o.script ++ serialize_outs os)

abbrev pub total_amount : List TxOut → ℕ
total_amount [] = 0
total_amount (o ∷ os) = o.amount + total_amount os

zero_amount : hex_encode (le_bytes 8 0) ≡ codes "0000000000000000"
unfolding hex_encode le_bytes
zero_amount = refl

-- A size that `varUint` writes.
abbrev pub IsSize : ℕ → Type 0
IsSize n = (n < 2 ^ 64) × (n ≢ 253)

transaction_out_lem :
    (amount : ℕ) (script : Bytes)
    → IsSize (length script / 2)
    → transaction_out (hex_encode (le_bytes 8 amount)) script
      ≡ ok (hex_encode (le_bytes 8 amount ++ compact (length script / 2)) ++ script)
unfolding transaction_out
transaction_out_lem amount script (fits, ne) = rw (
  var_uint-compact (length script / 2) fits ne,
  hex_encode-append (le_bytes 8 amount) (compact (length script / 2)),
  append_assoc (hex_encode (le_bytes 8 amount)) (hex_encode (compact (length script / 2))) script,
)

commitment_out :
    (t : Template)
    → IsSize (length t.default_witness_commitment / 2)
    → transaction_out (codes "0000000000000000") t.default_witness_commitment
      ≡ ok (
          hex_encode (le_bytes 8 0 ++ compact (length t.default_witness_commitment / 2))
          ++ t.default_witness_commitment)
commitment_out t sized =
    ap (λ amount. transaction_out amount t.default_witness_commitment) (sym zero_amount)
    ∙ transaction_out_lem 0 t.default_witness_commitment sized

module _ (c : Crypto) where
  abbrev pub key_script : Bytes → Bytes
  key_script key = codes "76a914" ++ (hex_encode (c.ripemd160 (c.sha256 key)) ++ codes "88ac")

  abbrev pub commitment_outs : Template → List TxOut
  commitment_outs t =
      if bytes_eq t.default_witness_commitment []
      then []
      else record { amount = 0; script = t.default_witness_commitment } ∷ []

  -- The outputs for a template and the bytes of a key.
  abbrev pub coinbase_outs : Template → Bytes → List TxOut
  coinbase_outs t key =
      commitment_outs t
      ++ (record { amount = t.coin_base_value; script = key_script key }
          ∷ record { amount = t.coin_base_value; script = hex_encode key }
          ∷ record { amount = t.coin_base_value; script = codes "AAAA" }
          ∷ [])

  length-key_script : IsCrypto c → (key : Bytes) → length (key_script key) / 2 ≡ 25
  length-key_script hc key = omega (
    arith,
    length-append {0} (hex_encode (c.ripemd160 (c.sha256 key))) (codes "88ac"),
    length-hex_encode (c.ripemd160 (c.sha256 key)),
    hc.length-ripemd160 (c.sha256 key),
  )

  -- With digests of the documented sizes, and whatever key the pool is configured with, given in hex:
  -- as long as the sizes of the key and of the commitment are 64-bit numbers other than 253,
  -- `coinbaseTransactionOutputs` returns the protocol's serialization of the witness commitment, if
  -- any, and of three outputs, and counts them; and these outputs pay three times the value that the
  -- template allows.
  pub coinbase_transaction_outputs_lem :
      IsCrypto c
      → (t : Template) (key : Bytes) → All IsByte key
      → IsSize (length key)
      → IsSize (length t.default_witness_commitment / 2)
      → (coinbase_transaction_outputs c t (hex_encode key)
          ≡ ok (length (coinbase_outs t key), serialize_outs (coinbase_outs t key)))
        × (total_amount (coinbase_outs t key) ≡ 3 * t.coin_base_value)
  unfolding coinbase_transaction_outputs generate_pub_key_script
  coinbase_transaction_outputs_lem hc t key h sized given_sized = (
    rw
        (
          reverse-hex_fixed t.coin_base_value,
          hex_decode-encode key h,
          transaction_out_lem t.coin_base_value (key_script key) key_script_sized,
          transaction_out_lem t.coin_base_value (hex_encode key) key_sized,
          transaction_out_lem t.coin_base_value (codes "AAAA") (omega arith, omega arith),
        )
        (elim (Bool-cases (bytes_eq t.default_witness_commitment [])) [
          | inl none_given ↦ rw none_given (simp (append_assoc, append-nil))
          | inr given ↦ rw (given, commitment_out t given_sized) (simp (append_assoc, append-nil))
        ]),
    ground arith,
  )
    where
      key_sized : IsSize (length (hex_encode key) / 2)
      key_sized =
          let e : length (hex_encode key) / 2 ≡ length key = omega (arith, length-hex_encode key) in
          rw e sized

      key_script_sized : IsSize (length (key_script key) / 2)
      key_script_sized = rw (length-key_script hc key) (omega arith, omega arith)
