-- ===== src/Hex.antt =====
-- `encoding/hex` of Go's standard library: `hex.EncodeToString` and `hex.DecodeString`. A string is the list of its bytes.
pub mod RoundTrip
use merged_mining_pool.Common.{
  ℕ, suc, ◌+◌, ◌-◌, ◌*◌, ◌/◌, ◌%◌, Bool, true, false, ◌&&◌, Option, none, some, List, [], ◌∷◌, ltb,
  leb, if◌then◌else◌, Bytes, Result, ok, err, panic, Error, invalid_hex,
}

-- The digit `0123456789abcdef`[n].
unfoldable pub hex_digit : ℕ → ℕ
hex_digit n = if ltb n 10 then 48 + n else 87 + n

-- The value of a digit; both cases of the letters are read.
unfoldable pub hex_value : ℕ → Option ℕ
hex_value c =
    if leb b'0' c && leb c b'9'
    then some (c - 48)
    else if leb b'a' c && leb c b'f'
    then some (c - 87)
    else if leb b'A' c && leb c b'F'
    then some (c - 55)
    else none

unfoldable pub hex_encode : Bytes → Bytes
unfolding hex_digit
hex_encode [] = []
hex_encode (b ∷ bs) = hex_digit (b / 16) ∷ hex_digit (b % 16) ∷ hex_encode bs

abbrev hex_pair : Option ℕ → Option ℕ → Option ℕ
hex_pair (some h) (some l) = some (h * 16 + l)
hex_pair _ _ = none

abbrev cons_byte : Option ℕ → Bytes × Bool → Bytes × Bool
cons_byte none rest = ([], false)
cons_byte (some b) rest = (b ∷ rest.0, rest.1)

-- The bytes decoded before the first error, and whether there was none. Go returns the bytes
-- beside the error too, and some callers ignore the error.
unfoldable pub hex_decode_prefix : Bytes → Bytes × Bool
unfolding hex_value
hex_decode_prefix [] = ([], true)
hex_decode_prefix (c ∷ []) = ([], false)
hex_decode_prefix (c ∷ d ∷ s) =
    cons_byte (hex_pair (hex_value c) (hex_value d)) (hex_decode_prefix s)

abbrev of_prefix : Bytes × Bool → Result Bytes
of_prefix (bs, true) = ok bs
of_prefix (bs, false) = err invalid_hex

-- The callers that look at the error use the bytes only if there is none.
unfoldable pub hex_decode : Bytes → Result Bytes
unfolding hex_decode_prefix
hex_decode s = of_prefix (hex_decode_prefix s)
