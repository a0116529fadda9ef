-- ===== src/Encoding/VarUint.antt =====
-- `varUint` writes the CompactSize integers of the Bitcoin protocol.
use merged_mining_pool.Common.{
  ℕ, zero, suc, ◌+◌, ◌*◌, ◌/◌, ◌^◌, ◌<◌, ◌≡◌, refl, ap, ◌≢◌, ◌↔◌, Option, none, some, [], ◌∷◌, ◌++◌,
  arith, ltb, leb, ◌==◌, if◌then◌else◌, length, take, drop, All, length-append, take-append,
  drop-append, le→leb, ok, panic, Bytes, IsByte,
}
use native.Mathlib.Nat.{pow-suc}
use merged_mining_pool.Hex.{hex_encode}
use merged_mining_pool.Encoding.{le_bytes, var_uint_buffer, var_uint}

-- The number that little-endian bytes stand for.
abbrev pub le_value : Bytes → ℕ
le_value [] = 0
le_value (b ∷ bs) = b + 256 * le_value bs

pub length-le_bytes : (k v : ℕ) → length (le_bytes k v) ≡ k
unfolding le_bytes
length-le_bytes zero v = refl
length-le_bytes (suc k) v = ap suc (length-le_bytes k (v / 256))

pub le_bytes-IsByte : (k v : ℕ) → All IsByte (le_bytes k v)
unfolding le_bytes
le_bytes-IsByte zero v = tt
le_bytes-IsByte (suc k) v = (omega arith, le_bytes-IsByte k (v / 256))

pub le_value-le_bytes : (k v : ℕ) → v < 256 ^ k → le_value (le_bytes k v) ≡ v
unfolding le_bytes
le_value-le_bytes zero v h = omega arith
le_value-le_bytes (suc k) v h =
    omega (arith, le_value-le_bytes k (v / 256) (omega (arith, pow-suc 256 k)))

abbrev read_le : ℕ → Bytes → Option (ℕ × Bytes)
read_le k s = if leb k (length s) then some (le_value (take k s), drop k s) else none

-- The protocol's reader of a CompactSize integer, and what follows it.
abbrev pub read_compact : Bytes → Option (ℕ × Bytes)
read_compact [] = none
read_compact (b ∷ s) =
    if ltb b 0xfd
    then some (b, s)
    else if b == 0xfd
    then read_le 2 s
    else if b == 0xfe
    then read_le 4 s
    else read_le 8 s

read_le-le_bytes :
    (k v : ℕ) (rest : Bytes) → v < 256 ^ k → read_le k (le_bytes k v ++ rest) ≡ some (v, rest)
read_le-le_bytes k v rest h =
    let e = length-le_bytes k v in
    rw (
      take-append (le_bytes k v) rest e,
      drop-append (le_bytes k v) rest e,
      le_value-le_bytes k v h,
      le→leb k (length (le_bytes k v ++ rest))
          (omega (arith, length-append {0} (le_bytes k v) rest, e)),
    )

-- The protocol's writer.
unfoldable pub compact : ℕ → Bytes
compact v =
    if leb v 252
    then v ∷ []
    else if leb v 0xffff
    then 0xfd ∷ le_bytes 2 v
    else if leb v 0xffff_ffff
    then 0xfe ∷ le_bytes 4 v
    else 0xff ∷ le_bytes 8 v

read_compact-compact :
    (v : ℕ) (rest : Bytes)
    → v < 2 ^ 64
    → v ≢ 253
    → read_compact (compact v ++ rest) ≡ some (v, rest)
unfolding compact
read_compact-compact v rest h ne =
    ground (arith, read_le-le_bytes 2 v rest, read_le-le_bytes 4 v rest, read_le-le_bytes 8 v rest)

var_uint_buffer-compact : (v : ℕ) → v < 2 ^ 64 → v ≢ 253 → var_uint_buffer v ≡ ok (compact v)
unfolding var_uint_buffer compact
var_uint_buffer-compact v h ne = ground arith

pub var_uint-compact : (v : ℕ) → v < 2 ^ 64 → v ≢ 253 → var_uint v ≡ ok (hex_encode (compact v))
unfolding var_uint
var_uint-compact v h ne = rw (var_uint_buffer-compact v h ne)

compact-IsByte : (v : ℕ) → All IsByte (compact v)
unfolding compact
compact-IsByte v = ground (arith, le_bytes-IsByte 2 v, le_bytes-IsByte 4 v, le_bytes-IsByte 8 v)

-- Every 64-bit number but 253 is written as the hex digits of bytes that the protocol's reader
-- turns back into that number, and the reader leaves what follows them.
pub var_uint_round_trip :
    (v : ℕ) (rest : Bytes)
    → v < 2 ^ 64
    → v ≢ 253
    → (buffer : Bytes) × (var_uint v ≡ ok (hex_encode buffer))
      × All IsByte buffer
      × (read_compact (buffer ++ rest) ≡ some (v, rest))
var_uint_round_trip v rest h ne =
    (compact v, var_uint-compact v h ne, compact-IsByte v, read_compact-compact v rest h ne)

-- On 64-bit numbers `varUint` panics at 253, and nowhere else.
pub var_uint-eq-panic_iff : (v : ℕ) → v < 2 ^ 64 → (var_uint v ≡ panic) ↔ (v ≡ 253)
unfolding var_uint var_uint_buffer
var_uint-eq-panic_iff v h = (λ e. ground arith, λ e. ground arith)
