-- ===== src/AuxMerkle/Script.antt =====
-- The commitment to the auxiliary tree in the coinbase script, and the mask of a branch.
use merged_mining_pool.Common.{
  ℕ, suc, ◌-◌, ◌%◌, ◌^◌, ◌≤◌, ◌<◌, ◌≡◌, refl, ap, ◌∙◌, ◌≢◌, [], ◌∷◌, ◌++◌, reverse, arith, length,
  take, drop, length-append, length-reverse, take-append, drop-append, Bytes,
}
use merged_mining_pool.Common.Int.{ℤ, pos, negsuc, to_unsigned}
use merged_mining_pool.Hex.{hex_digit, hex_encode}
use merged_mining_pool.Hex.RoundTrip.{length-hex_encode}
use mathlib.Core.List.{reverse-reverse}
use merged_mining_pool.Format.{decimal}
use merged_mining_pool.Encoding.{le_bytes, reverse_bytes}
use merged_mining_pool.Encoding.Reverse.{reverse_bytes_lem}
use merged_mining_pool.Encoding.VarUint.{le_value, length-le_bytes, le_value-le_bytes}
use merged_mining_pool.AuxMerkle.{int32_to_bytes, create_script_sig, mask_of}

-- What a daemon reads behind the magic bytes: the root in the other byte order, the number of
-- leaves and the nonce.
abbrev pub read_commitment : Bytes → Bytes × ℕ × ℕ
read_commitment s =
    let body = drop 4 s in
    (reverse (take 32 body), le_value (take 4 (drop 32 body)), le_value (drop 4 (drop 32 body)))

length-int32 : (z : ℤ) → length (int32_to_bytes z) ≡ 4
unfolding int32_to_bytes
length-int32 z = length-le_bytes 4 _

le_value-int32 : (z : ℤ) → le_value (int32_to_bytes z) ≡ to_unsigned 32 z
unfolding int32_to_bytes
le_value-int32 (pos n) = le_value-le_bytes 4 (n % 2 ^ 32) (omega arith)
le_value-int32 (negsuc n) = le_value-le_bytes 4 (2 ^ 32 - suc (n % 2 ^ 32)) (omega arith)

-- For any root of 32 bytes, nonce and size the script is the four magic bytes and then 40 bytes,
-- in which a daemon finds that root, that size and that nonce as 32-bit patterns.
pub create_script_sig-read :
    (nonce size : ℤ) (root : Bytes)
    → length root ≡ 32
    → (take 4 (create_script_sig nonce size root) ≡ 0xfa ∷ 0xbe ∷ 0x6d ∷ 0x6d ∷ [])
      × (length (create_script_sig nonce size root) ≡ 44)
      × (read_commitment (create_script_sig nonce size root)
          ≡ (root, to_unsigned 32 size, to_unsigned 32 nonce))
unfolding create_script_sig
create_script_sig-read nonce size root e = (
  refl,
  omega (arith, total),
  rw (
    take-append (reverse_bytes root) (int32_to_bytes size ++ int32_to_bytes nonce) wide,
    drop-append (reverse_bytes root) (int32_to_bytes size ++ int32_to_bytes nonce) wide,
    take-append (int32_to_bytes size) (int32_to_bytes nonce) (length-int32 size),
    drop-append (int32_to_bytes size) (int32_to_bytes nonce) (length-int32 size),
    le_value-int32 size,
    le_value-int32 nonce,
    reverse_bytes_lem root,
    reverse-reverse root,
  ),
)
  where
    wide : length (reverse_bytes root) ≡ 32
    wide = ap length (reverse_bytes_lem root) ∙ length-reverse root ∙ e

    total : length (reverse_bytes root ++ (int32_to_bytes size ++ int32_to_bytes nonce)) ≡ 40
    total = omega (
      arith,
      wide,
      length-int32 size,
      length-int32 nonce,
      length-append {0} (reverse_bytes root) (int32_to_bytes size ++ int32_to_bytes nonce),
      length-append {0} (int32_to_bytes size) (int32_to_bytes nonce),
    )

-- The mask of a slot below ten is the slot's number in four little-endian bytes.
pub mask_of-le_bytes : (index : ℕ) → index < 10 → mask_of index ≡ hex_encode (le_bytes 4 index)
unfolding mask_of decimal hex_encode hex_digit le_bytes
mask_of-le_bytes index h = ground arith

nine : (index : ℕ) → 10 ≤ index → index < 16 → length (mask_of index) ≡ 9
unfolding mask_of decimal
nine index lo hi = ground arith

-- The mask of a slot from ten to fifteen has nine digits, so it is not the hex of any bytes.
pub mask_of-not_hex :
    (index : ℕ) → 10 ≤ index → index < 16 → (bs : Bytes) → mask_of index ≢ hex_encode bs
mask_of-not_hex index lo hi bs e =
    absurd (omega (arith, ap length e, length-hex_encode bs, nine index lo hi))
