-- ===== src/Block/Sum.antt =====
-- The number that a share is weighed by.
use merged_mining_pool.Common.{
  ℕ, ◌+◌, ◌*◌, ◌≡◌, refl, ap, ◌∙◌, false, some, [], ◌∷◌, ◌++◌, reverse, arith, All, All-reverse, ok,
  ◌>>=◌, Bytes, IsByte, bytes_eq,
}
use mathlib.Core.List.{reverse-append}
use merged_mining_pool.Hex.{hex_encode}
use merged_mining_pool.Hex.RoundTrip.{hex_decode-encode}
use merged_mining_pool.Crypto.{Crypto, IsCrypto, scrypt_digest}
use merged_mining_pool.Encoding.Reverse.{reverse_hex_bytes-encode}
use merged_mining_pool.Encoding.VarUint.{le_value}
use merged_mining_pool.Chain.{Chain, header_digest_lem}
use merged_mining_pool.Block.{BitcoinBlock, set_bytes, digest_of, sum_of, sum}

set_bytes-snoc :
    (acc : ℕ) (bs : Bytes) (x : ℕ) → set_bytes acc (bs ++ x ∷ []) ≡ 256 * set_bytes acc bs + x
set_bytes-snoc acc [] x = refl
set_bytes-snoc acc (b ∷ bs) x = set_bytes-snoc (256 * acc + b) bs x

set_bytes-reverse : (d : Bytes) → set_bytes 0 (reverse d) ≡ le_value d
set_bytes-reverse [] = refl
set_bytes-reverse (x ∷ d) =
    ap (set_bytes 0) (reverse-append (x ∷ []) d)
    ∙ set_bytes-snoc 0 (reverse d) x
    ∙ omega (arith, set_bytes-reverse d)

nonempty : (x : ℕ) (s : Bytes) → bytes_eq (hex_encode (x ∷ s)) [] ≡ false
unfolding hex_encode
nonempty x s = refl

module _ (c : Crypto) (laws : IsCrypto c) where
  digest_of-eq :
      (b : BitcoinBlock) (chain : Chain) (x : ℕ) (s : Bytes)
      → b.chain ≡ some chain
      → b.header ≡ hex_encode (x ∷ s)
      → All IsByte (x ∷ s)
      → digest_of c b ≡ ok (hex_encode (reverse (c.scrypt_key (x ∷ s) (x ∷ s) 1024 1 1 32)))
  unfolding scrypt_digest
  digest_of-eq b chain x s e h p = rw (
    e,
    h,
    nonempty x s,
    header_digest_lem c chain (hex_encode (x ∷ s)),
    hex_decode-encode (x ∷ s) p,
    reverse_hex_bytes-encode (c.scrypt_key (x ∷ s) (x ∷ s) 1024 1 1 32),
  )

  -- For a block with a chain and the header of some bytes, of which there is one at least, `Sum`
  -- returns the scrypt digest of those bytes as a little-endian number, and leaves the digest in
  -- the block's hash, the last byte first; nothing else of the block changes.
  pub sum-le_value :
      (b : BitcoinBlock) (chain : Chain) (x : ℕ) (s : Bytes)
      → let digest = c.scrypt_key (x ∷ s) (x ∷ s) 1024 1 1 32 in
        b.chain ≡ some chain
        → b.header ≡ hex_encode (x ∷ s)
        → All IsByte (x ∷ s)
        → sum c b ≡ (record b { hash = hex_encode (reverse digest) }, ok (le_value digest))
  unfolding sum
  sum-le_value b chain x s e h p =
      let digest = c.scrypt_key (x ∷ s) (x ∷ s) 1024 1 1 32 in
      ap (sum_of c b) (digest_of-eq b chain x s e h p)
      ∙ ap (λ r. (record b { hash = hex_encode (reverse digest) }, r))
          (ap (λ r. r >>= λ t. ok (set_bytes 0 t)) (hex_decode-encode (reverse digest) (bytes x s))
            ∙ ap ok (set_bytes-reverse digest))
    where
      bytes : (x : ℕ) (s : Bytes) → All IsByte (reverse (c.scrypt_key (x ∷ s) (x ∷ s) 1024 1 1 32))
      bytes x s =
          All-reverse IsByte (c.scrypt_key (x ∷ s) (x ∷ s) 1024 1 1 32)
            (laws.scrypt_key-IsByte (x ∷ s) (x ∷ s) 1024 1 1 32)
