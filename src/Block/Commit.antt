-- ===== src/Block/Commit.antt =====
-- A header commits to the coinbase and to the transactions of its template.
use merged_mining_pool.Common.{
  ◌≡◌, sym, ap, ◌∙◌, some, List, [], ◌∷◌, map, reverse, length, All, Result, ok, ◌>>=◌, Bytes,
  IsByte,
}
use merged_mining_pool.Hex.{hex_encode}
use merged_mining_pool.Hex.RoundTrip.{hex_decode-encode}
use merged_mining_pool.Crypto.{Crypto, IsCrypto, double_sha256, double_sha256_bytes}
use mathlib.Core.Path.{subst}
use merged_mining_pool.Encoding.VarUint.{le_value}
use merged_mining_pool.Template.{Template}
use merged_mining_pool.Chain.{Chain, coinbase_digest_lem}
use merged_mining_pool.Merkle.{template_merkle_branch_steps, make_header_merkle_root}
use merged_mining_pool.Merkle.Tree.{IsRoot, IsRoot-keeps}
use merged_mining_pool.Merkle.Branch.{make_header_merkle_root-IsRoot}
use merged_mining_pool.Header.Fields.{Fields, read_header, block_header-read}
use merged_mining_pool.Block.{
  BitcoinBlock, merkle_root_of, make_coinbase, with_root, set_header, coinbase_hashed, chain_of,
  make_header, make_header_of,
}

-- A hash in the protocol: 32 bytes.
abbrev pub IsHash : Bytes → Type 0
IsHash h = (length h ≡ 32) × All IsByte h

-- What a block on which `MakeHeader` can work is made of: the bytes behind the hex of its template,
-- the hashes of its transactions, and its chain.
pub record IsReady (c : Crypto) (b : BitcoinBlock) (t : Template) (prev bits : Bytes)
    (hashes : List Bytes) (chain : Chain) : Type 0 where
  pub has_template : b.template ≡ some t
  pub has_chain : b.chain ≡ some chain
  pub prev_hex : t.prev_block_hash ≡ hex_encode prev
  pub prev_hash : IsHash prev
  pub bits_hex : t.bits ≡ hex_encode bits
  pub bits_4 : (length bits ≡ 4) × All IsByte bits
  pub hashes_32 : All IsHash hashes
  pub steps : template_merkle_branch_steps c (map hex_encode hashes) ≡ ok b.merkle_steps_hex

module _ (c : Crypto) (laws : IsCrypto c) where
  double-IsHash : (bs : Bytes) → IsHash (double_sha256_bytes c bs)
  unfolding double_sha256_bytes
  double-IsHash bs = (laws.length-sha256 (c.sha256 bs), laws.sha256-IsByte (c.sha256 bs))

  coinbase_hashed-encode :
      (b : BitcoinBlock) (chain : Chain) (coinbase : Bytes)
      → b.chain ≡ some chain
      → b.coinbase ≡ hex_encode coinbase
      → All IsByte coinbase
      → coinbase_hashed c b ≡ ok (hex_encode (double_sha256_bytes c coinbase))
  unfolding coinbase_hashed chain_of double_sha256 double_sha256_bytes
  coinbase_hashed-encode b chain coinbase e h p =
      rw (e, h, coinbase_digest_lem c chain (hex_encode coinbase), hex_decode-encode coinbase p)

  bytes_of : (hashes : List Bytes) → All IsHash hashes → All (All IsByte) hashes
  bytes_of [] p = tt
  bytes_of (h ∷ hashes) (p, ps) = (p.1, bytes_of hashes ps)

  -- Once the coinbase is set and is the hex of some bytes, the block's root is that of the tree
  -- over its hash and the transactions.
  merkle_root_of-IsRoot :
      (b : BitcoinBlock) (t : Template) (prev bits : Bytes) (hashes : List Bytes) (chain : Chain)
      (coinbase : Bytes)
      → IsReady c b t prev bits hashes chain
      → b.coinbase ≡ hex_encode coinbase
      → All IsByte coinbase
      → (root : Bytes) × (merkle_root_of c b ≡ ok (hex_encode root))
        × IsHash root
        × IsRoot (double_sha256_bytes c) (double_sha256_bytes c coinbase ∷ hashes) root
  merkle_root_of-IsRoot b t prev bits hashes chain coinbase r e p =
      let leaf = double-IsHash coinbase in
      let (steps, root, made, climbed, is_root) =
        make_header_merkle_root-IsRoot c laws (double_sha256_bytes c coinbase) hashes leaf.1
          (bytes_of hashes r.hashes_32) in
      let same : ok steps ≡ ok b.merkle_steps_hex = sym made ∙ r.steps in
      let steps_eq : steps ≡ b.merkle_steps_hex = cc in
      (
        root,
        ap (λ d. d >>= λ hashed. make_header_merkle_root c hashed b.merkle_steps_hex)
              (coinbase_hashed-encode b chain coinbase r.has_chain e p)
            ∙ ap (make_header_merkle_root c (hex_encode (double_sha256_bytes c coinbase)))
                (sym steps_eq)
            ∙ climbed,
        IsRoot-keeps (double_sha256_bytes c) IsHash double-IsHash is_root (leaf, r.hashes_32),
        is_root,
      )

  -- From a ready block, an extranonce that completes the coinbase to the hex of some bytes, and the
  -- hex of a nonce and a time of four bytes each, `MakeHeader` returns the hex of a header in which
  -- a node reads the root of the tree over the coinbase hash and the transaction hashes, the
  -- template's previous hash, and the nonce; and it keeps that header in the block.
  pub make_header-commits :
      (b : BitcoinBlock) (t : Template) (prev bits : Bytes) (hashes : List Bytes) (chain : Chain)
      (extranonce coinbase nonce time : Bytes)
      → IsReady c b t prev bits hashes chain
      → (make_coinbase extranonce b).coinbase ≡ hex_encode coinbase
      → All IsByte coinbase
      → (length nonce ≡ 4) × All IsByte nonce
      → (length time ≡ 4) × All IsByte time
      → let (b', made) = make_header c extranonce (hex_encode nonce) (hex_encode time) b in
        (h : Bytes) × (made ≡ ok (hex_encode h))
        × (b'.header ≡ hex_encode h)
        × (length h ≡ 80)
        × ((read_header h).previous ≡ prev)
        × ((read_header h).nonce ≡ le_value (reverse nonce))
        × IsRoot
            (double_sha256_bytes c)
            (double_sha256_bytes c coinbase ∷ hashes)
            (read_header h).root
  unfolding make_header
  make_header-commits b t prev bits hashes chain extranonce coinbase nonce time r e p n m =
      let b' = make_coinbase extranonce b in
      let (root, found, sized, is_root) =
        merkle_root_of-IsRoot b' t prev bits hashes chain coinbase (ready_with r) e p in
      let (h, made, size, fields) = block_header-read t.version prev root time bits nonce (record {
        prev_32 = r.prev_hash.0;
        root_32 = sized.0;
        time_4 = m.0;
        bits_4 = r.bits_4.0;
        nonce_4 = n.0;
        are_bytes = (r.prev_hash.1, (sized.1, (m.1, (r.bits_4.1, n.1))));
      }) in
      let whole : make_header c extranonce (hex_encode nonce) (hex_encode time) b
          ≡ set_header b' (ok (hex_encode h)) =
        ap (λ o. make_header_of c o extranonce (hex_encode nonce) (hex_encode time) b)
          r.has_template
        ∙ ap (with_root c t (hex_encode nonce) (hex_encode time) b') found
        ∙ ap (set_header b') (rw (r.prev_hex, r.bits_hex) made) in
      (
        h,
        ap (λ (q : BitcoinBlock × Result Bytes). q.1) whole,
        ap (λ (q : BitcoinBlock × Result Bytes). q.0.header) whole,
        size,
        ap (λ (f : Fields). f.previous) fields,
        ap (λ (f : Fields). f.nonce) fields,
        subst (IsRoot (double_sha256_bytes c) (double_sha256_bytes c coinbase ∷ hashes))
            (sym (ap (λ (f : Fields). f.root) fields)) is_root,
      )
    where
      ready_with :
          IsReady c b t prev bits hashes chain
          → IsReady c (make_coinbase extranonce b) t prev bits hashes chain
      ready_with r = record {
        has_template = r.has_template;
        has_chain = r.has_chain;
        prev_hex = r.prev_hex;
        prev_hash = r.prev_hash;
        bits_hex = r.bits_hex;
        bits_4 = r.bits_4;
        hashes_32 = r.hashes_32;
        steps = r.steps;
      }
