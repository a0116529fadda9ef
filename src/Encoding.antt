-- ===== src/Encoding.antt =====
-- bitcoin/encoding.go: integers in little-endian bytes, the variable-length integer, reversals;
-- and utils/byte.go.
pub mod VarUint
pub mod Fixed
pub mod Reverse
use merged_mining_pool.Common.{
  ℕ, zero, suc, ◌+◌, ◌-◌, ◌*◌, ◌/◌, ◌%◌, ◌^◌, ◌≤◌, ◌<◌, ◌≡◌, refl, sym, ap, ◌∙◌, ◌≢◌, ◌↔◌, ◌⊎◌, inl,
  inr, Bool, true, false, not, ◌&&◌, ◌||◌, Option, none, some, List, [], ◌∷◌, ◌++◌, map, reverse,
  append-nil, append_assoc, arith, ltb, leb, ◌==◌, if◌then◌else◌, Bool-cases, Option-cases, length,
  get_elem?, set, take, drop, replicate, All, length-append, length-reverse, All-append,
  All-reverse, length-set, length-replicate, length-map, Error, Result, ok, err, panic, ◌>>=◌,
  or_panic, >>=-eq-ok, Bytes, IsByte, codes, bytes_eq, bytes_eq_refl, eq_of_bytes_eq,
}
use merged_mining_pool.Common.Int.{ℤ, pos, negsuc, to_unsigned}
use merged_mining_pool.Hex.{hex_encode}

-- `binary.LittleEndian.PutUint16`, `PutUint32` and `PutUint64` write the low bytes of a number.
unfoldable pub le_bytes : ℕ → ℕ → Bytes
le_bytes zero v = []
le_bytes (suc k) v = (v % 256) ∷ le_bytes k (v / 256)

-- The buffer of `varUint`, on a 64-bit `uint`.
var_uint_buffer : ℕ → Result Bytes
var_uint_buffer value =
    if leb value 252
    then ok ((value % 256) ∷ [])
    else if ltb 0xfd value && leb value 0xffff
    then ok (0xfd ∷ le_bytes 2 (value % 2 ^ 16))
    else if ltb 0xffff value && leb value 0xffff_ffff
    then ok (0xfe ∷ le_bytes 4 (value % 2 ^ 32))
    else if ltb 0xffff_ffff value && leb value 0xffff_ffff_ffff_ffff
    then ok (0xff ∷ le_bytes 8 (value % 2 ^ 64))
    else panic

unfoldable pub var_uint : ℕ → Result Bytes
unfolding var_uint_buffer
var_uint value = do buffer ← var_uint_buffer value; ok (hex_encode buffer)

-- The dynamic types that the two writers below tell apart; `text` stands for all others. Floats
-- are of a type that the caller chooses.
pub data Interface (F : Type 0) : Type 0 where
  int int16 int32 int64 : ℤ → Interface F
  uint uint16 uint32 uint64 : ℕ → Interface F
  float32 float64 : F → Interface F
  text : Bytes → Interface F

-- `to_uint` is Go's conversion of a float to an unsigned integer of the given width.
module _ {F : Type 0} (to_uint : ℕ → F → ℕ) where
  -- `log.Fatalln` ends the program.
  unfoldable pub four_little_endian_bytes : Interface F → Result Bytes
  four_little_endian_bytes (int v) = ok (le_bytes 4 (to_unsigned 32 v))
  four_little_endian_bytes (int16 v) = ok (le_bytes 4 (to_unsigned 32 v))
  four_little_endian_bytes (int32 v) = ok (le_bytes 4 (to_unsigned 32 v))
  four_little_endian_bytes (uint v) = ok (le_bytes 4 (v % 2 ^ 32))
  four_little_endian_bytes (uint16 v) = ok (le_bytes 4 (v % 2 ^ 32))
  four_little_endian_bytes (float32 v) = ok (le_bytes 4 (to_uint 32 v))
  four_little_endian_bytes (uint32 v) = ok (le_bytes 4 v)
  four_little_endian_bytes _ = panic

  unfoldable pub eight_little_endian_bytes : Interface F → Result Bytes
  eight_little_endian_bytes (int v) = ok (le_bytes 8 (to_unsigned 64 v))
  eight_little_endian_bytes (int16 v) = ok (le_bytes 8 (to_unsigned 64 v))
  eight_little_endian_bytes (int32 v) = ok (le_bytes 8 (to_unsigned 64 v))
  eight_little_endian_bytes (int64 v) = ok (le_bytes 8 (to_unsigned 64 v))
  eight_little_endian_bytes (uint v) = ok (le_bytes 8 (v % 2 ^ 64))
  eight_little_endian_bytes (uint16 v) = ok (le_bytes 8 (v % 2 ^ 64))
  eight_little_endian_bytes (uint32 v) = ok (le_bytes 8 (v % 2 ^ 64))
  eight_little_endian_bytes (uint64 v) = ok (le_bytes 8 v)
  eight_little_endian_bytes (float32 v) = ok (le_bytes 8 (to_uint 64 v))
  eight_little_endian_bytes (float64 v) = ok (le_bytes 8 (to_uint 64 v))
  eight_little_endian_bytes (text v) = panic

-- The loop of `removeInsignificantBytesLittleEndian`, over what `range bytes` has not reached.
remove_insignificant_loop : Bytes → Bool → Bytes → Bytes
remove_insignificant_loop [] reached cleaned = cleaned
remove_insignificant_loop (b ∷ bytes) reached cleaned =
    remove_insignificant_loop bytes (reached || not (b == 0))
      (if reached && b == 0 then cleaned else cleaned ++ (b ∷ []))

pub remove_insignificant_bytes_little_endian : Bytes → Bytes
remove_insignificant_bytes_little_endian bytes = remove_insignificant_loop bytes false []

-- `byte(len(bytes))` wraps.
unfoldable pub bytes_with_length_header : Bytes → Bytes
bytes_with_length_header bytes = (length bytes % 256) ∷ bytes

-- `r[lengthMinusOne-index] = b[index]`, over what `range b` has not reached.
reverse_loop : Bytes → ℕ → ℕ → Bytes → Bytes
reverse_loop [] index last r = r
reverse_loop (x ∷ b) index last r = reverse_loop b (index + 1) last (set r (last - index) x)

unfoldable pub reverse_go : Bytes → Bytes
unfolding reverse_loop
reverse_go b = reverse_loop b 0 (length b - 1) (replicate (length b) 0)

-- `hex[lo:hi]`, for bounds in range.
abbrev slice : Bytes → ℕ → ℕ → Bytes
slice s lo hi = take (hi - lo) (drop lo s)

-- `for i := l; i > 0; i = i - 2 { o = o + hex[i-2:i] }`, at i = 2 * rounds; l is even.
reverse_hex_loop : Bytes → ℕ → Bytes → Bytes
reverse_hex_loop hex zero o = o
reverse_hex_loop hex (suc rounds) o =
    let i = 2 * suc rounds in reverse_hex_loop hex rounds (o ++ slice hex (i - 2) i)

unfoldable pub reverse_hex_bytes : Bytes → Result Bytes
unfolding reverse_hex_loop
reverse_hex_bytes hex =
    if not (length hex % 2 == 0)
    then err Error.odd_length
    else ok (reverse_hex_loop hex (length hex / 2) [])

-- `for l, i := len(hex), 0; i < l/8; i++`, with `rounds` rounds to go.
reverse_hex4_loop : Bytes → ℕ → ℕ → Bytes → Bytes
reverse_hex4_loop hex zero i o = o
reverse_hex4_loop hex (suc rounds) i o =
    let l = length hex in
    reverse_hex4_loop hex rounds (i + 1) (o ++ slice hex (l - 8 * (i + 1)) (l - 8 * i))

unfoldable pub reverse_hex4_bytes : Bytes → Result Bytes
unfolding reverse_hex4_loop
reverse_hex4_bytes hex =
    if not (length hex % 8 == 0)
    then err Error.not_divisible_by_8
    else ok (reverse_hex4_loop hex (length hex / 8) 0 [])

-- The index is always in range there.
abbrev byte_or_zero : Option ℕ → ℕ
byte_or_zero none = 0
byte_or_zero (some b) = b

-- `utils.ReverseBytes`: `reversed[i] = data[len(data)-1-i]`, with `rounds` rounds to go.
reverse_bytes_loop : Bytes → ℕ → ℕ → Bytes → Bytes
reverse_bytes_loop input zero i reversed = reversed
reverse_bytes_loop input (suc rounds) i reversed =
    reverse_bytes_loop input rounds (i + 1)
      (set reversed i (byte_or_zero (get_elem? input (length input - 1 - i))))

unfoldable pub reverse_bytes : Bytes → Bytes
unfolding reverse_bytes_loop
reverse_bytes input = reverse_bytes_loop input (length input) 0 (replicate (length input) 0)
