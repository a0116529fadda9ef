-- ===== src/Hex/RoundTrip.antt =====
-- Decoding undoes encoding, and what decodes has twice as many digits as bytes.
use merged_mining_pool.Common.{
  ℕ, ◌*◌, ◌/◌, ◌%◌, ◌<◌, ◌≡◌, refl, true, some, [], ◌∷◌, ◌++◌, arith, Bytes, IsByte, ok, length,
  All, Option-cases, inl, inr,
}
use merged_mining_pool.Hex.{hex_digit, hex_value, hex_encode, hex_decode_prefix, hex_decode}

pub hex_value-hex_digit : (n : ℕ) → n < 16 → hex_value (hex_digit n) ≡ some n
unfolding hex_value hex_digit
hex_value-hex_digit n h = ground arith

pub hex_decode_prefix-encode :
    (bs : Bytes) → All IsByte bs → hex_decode_prefix (hex_encode bs) ≡ (bs, true)
unfolding hex_decode_prefix hex_encode
hex_decode_prefix-encode [] h = refl
hex_decode_prefix-encode (b ∷ bs) (hb, hbs) = ground (
  arith,
  hex_value-hex_digit (b / 16),
  hex_value-hex_digit (b % 16),
  hex_decode_prefix-encode bs hbs,
)

pub hex_decode-encode : (bs : Bytes) → All IsByte bs → hex_decode (hex_encode bs) ≡ ok bs
unfolding hex_decode
hex_decode-encode bs h = rw (hex_decode_prefix-encode bs h)

pub length-hex_encode : (bs : Bytes) → length (hex_encode bs) ≡ 2 * length bs
unfolding hex_encode
length-hex_encode [] = omega arith
length-hex_encode (b ∷ bs) = omega (arith, length-hex_encode bs)

pub hex_encode-append : (s t : Bytes) → hex_encode (s ++ t) ≡ hex_encode s ++ hex_encode t
unfolding hex_encode
hex_encode-append [] t = refl
hex_encode-append (b ∷ s) t = rw (hex_encode-append s t)

hex_value-lt : (c n : ℕ) → hex_value c ≡ some n → n < 16
unfolding hex_value
hex_value-lt c n h = ground arith

-- What decodes without an error is a list of bytes, two digits to a byte.
pub hex_decode_prefix_shape :
    (s : Bytes)
    → (hex_decode_prefix s).1 ≡ true
    → (length s ≡ 2 * length (hex_decode_prefix s).0) × All IsByte (hex_decode_prefix s).0
unfolding hex_decode_prefix
hex_decode_prefix_shape [] h = (refl, tt)
hex_decode_prefix_shape (c ∷ []) h = cc
hex_decode_prefix_shape (c ∷ d ∷ s) h = elim (Option-cases (hex_value c)) [
  | inl e ↦ cc (e)
  | inr (a, ea) ↦ elim (Option-cases (hex_value d)) [
    | inl e ↦ ground (arith, e)
    | inr (b, eb) ↦
        ground (arith, hex_value-lt c a ea, hex_value-lt d b eb, hex_decode_prefix_shape s)
  ]
]
