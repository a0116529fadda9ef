-- ===== src/Merkle/Branch.antt =====
-- The branch that `templateMerkleBranchSteps` returns leads from the coinbase to the root.
use merged_mining_pool.Common.{
  ℕ, zero, suc, ◌+◌, ◌%◌, ◌≤◌, ◌≡◌, refl, sym, ap, ◌∙◌, inl, inr, false, Option, none, some, List,
  [], ◌∷◌, ◌++◌, map, append-nil, append_assoc, arith, ◌==◌, Bool-cases, length, All, length-map,
  ok, ◌>>=◌, or_panic, Bytes, IsByte,
}
use merged_mining_pool.Hex.{hex_encode}
use merged_mining_pool.Hex.RoundTrip.{hex_decode-encode}
use merged_mining_pool.Crypto.{Crypto, IsCrypto, double_sha256_bytes}
use merged_mining_pool.Merkle.{
  last?, pad_level, join_hashes, join_pairs, branch_steps_loop, template_merkle_branch_steps,
  merkle_root_loop, make_header_merkle_root,
}
use merged_mining_pool.Merkle.Tree.{
  level_above, IsRoot, climb, siblings, length-level_above, climb-IsRoot, level_above-IsByte,
  siblings-IsByte,
}

-- A level whose length is odd, made even.
abbrev evened {ℓ} : {A : Type ℓ} → List A → List A
evened [] = []
evened (a ∷ []) = a ∷ a ∷ []
evened (a ∷ b ∷ rest) = a ∷ b ∷ evened rest

last?-cons : (a b d : Bytes) (rest : List Bytes) → last? (a ∷ b ∷ d ∷ rest) ≡ last? (d ∷ rest)
last?-cons a b d rest = refl

-- Two more nodes in front do not change what is added at the end.
two_more :
    (a b : Bytes) (level : List Bytes)
    → last? (a ∷ b ∷ level) ≡ last? level
    → pad_level (a ∷ b ∷ level) ≡ (pad_level level >>= λ s. ok (a ∷ b ∷ s))
unfolding pad_level
two_more a b level e =
    rw (e, parity)
      (elim (Bool-cases (length level % 2 == 1)) [
        | inl odd ↦ rw odd (same (last? level))
        | inr even ↦ rw even
      ])
  where
    parity : suc (suc (length level)) % 2 ≡ length level % 2
    parity = omega arith

    same :
        (o : Option Bytes)
        → (or_panic o >>= λ last. ok (a ∷ b ∷ level ++ last ∷ []))
          ≡ ((or_panic o >>= λ last. ok (level ++ last ∷ [])) >>= λ s. ok (a ∷ b ∷ s))
    same none = refl
    same (some l) = refl

pad_level-evened : (level : List Bytes) → pad_level level ≡ ok (evened level)
unfolding pad_level
pad_level-evened [] = refl
pad_level-evened (a ∷ []) = refl
pad_level-evened (a ∷ b ∷ []) = refl
pad_level-evened (a ∷ b ∷ d ∷ rest) =
    two_more a b (d ∷ rest) (last?-cons a b d rest) ∙ rw (pad_level-evened (d ∷ rest))

module _ (c : Crypto) (laws : IsCrypto c) where
  hash-IsByte : (bs : Bytes) → All IsByte (double_sha256_bytes c bs)
  unfolding double_sha256_bytes
  hash-IsByte bs = laws.sha256-IsByte (c.sha256 bs)

  join_hashes-encode :
      (a b : Bytes)
      → All IsByte a
      → All IsByte b
      → join_hashes c (hex_encode a) (hex_encode b)
        ≡ ok (hex_encode (double_sha256_bytes c (a ++ b)))
  unfolding join_hashes
  join_hashes-encode a b ha hb = rw (hex_decode-encode a ha, hex_decode-encode b hb)

  join_pairs-encode :
      (xs : List Bytes)
      → All (All IsByte) xs
      → join_pairs c (evened (map hex_encode xs))
        ≡ ok (map hex_encode (level_above (double_sha256_bytes c) xs))
  unfolding join_pairs level_above
  join_pairs-encode [] h = refl
  join_pairs-encode (a ∷ []) (ha, _) = rw (join_hashes-encode a a ha ha)
  join_pairs-encode (a ∷ b ∷ rest) (ha, (hb, hs)) =
      rw (join_hashes-encode a b ha hb, join_pairs-encode rest hs)

  branch_steps_loop-encode :
      (k : ℕ) (xs acc : List Bytes)
      → All (All IsByte) xs
      → length xs ≤ k
      → branch_steps_loop c (suc k) ([] ∷ map hex_encode xs) acc
        ≡ ok (acc ++ map hex_encode (siblings (double_sha256_bytes c) k xs))
  unfolding branch_steps_loop siblings
  branch_steps_loop-encode zero [] acc p h = ap ok (sym (append-nil acc))
  branch_steps_loop-encode (suc k) [] acc p h = ap ok (sym (append-nil acc))
  branch_steps_loop-encode zero (s ∷ rest) acc p h = absurd (omega arith)
  branch_steps_loop-encode (suc k) (s ∷ rest) acc (p, ps) h =
      rw
        (
          two_or_more,
          pad_level-evened ([] ∷ hex_encode s ∷ map hex_encode rest),
          join_pairs-encode rest ps,
          branch_steps_loop-encode k (level_above (double_sha256_bytes c) rest)
              (acc ++ hex_encode s ∷ [])
              (level_above-IsByte (double_sha256_bytes c) hash-IsByte rest)
              (omega (arith, length-level_above (double_sha256_bytes c) rest)),
        )
        (ap ok (append_assoc acc (hex_encode s ∷ []) _))
    where
      two_or_more : (suc (suc (length (map hex_encode rest))) == 1) ≡ false
      two_or_more = ground arith

  steps-encode :
      (hashes : List Bytes)
      → All (All IsByte) hashes
      → template_merkle_branch_steps c (map hex_encode hashes)
        ≡ ok (map hex_encode (siblings (double_sha256_bytes c) (length hashes) hashes))
  unfolding template_merkle_branch_steps siblings
  steps-encode [] p = refl
  steps-encode (h ∷ hs) p =
      rw (nonempty, rounds) (branch_steps_loop-encode (suc (length hs)) (h ∷ hs) [] p (omega arith))
    where
      nonempty : (suc (length (map hex_encode hs)) == 0) ≡ false
      nonempty = ground arith

      rounds : suc (length (map hex_encode hs)) + 1 ≡ suc (suc (length hs))
      rounds = omega (arith, length-map hex_encode hs)

  merkle_root_loop-encode :
      (steps : List Bytes) (block : Bytes)
      → All (All IsByte) steps
      → merkle_root_loop c block (map hex_encode steps)
        ≡ ok (climb (double_sha256_bytes c) block steps)
  unfolding merkle_root_loop
  merkle_root_loop-encode [] block p = refl
  merkle_root_loop-encode (s ∷ steps) block (p, ps) =
      rw (hex_decode-encode s p) (merkle_root_loop-encode steps _ ps)

  -- From the hex of any list of transaction hashes `templateMerkleBranchSteps` returns steps, and
  -- `makeHeaderMerkleRoot` climbs them from the hex of any coinbase hash to the root of the
  -- protocol's merkle tree over the coinbase hash followed by the transaction hashes.
  pub make_header_merkle_root-IsRoot :
      (coinbase : Bytes) (hashes : List Bytes)
      → All IsByte coinbase
      → All (All IsByte) hashes
      → (steps : List Bytes) × (root : Bytes) × (template_merkle_branch_steps c
            (map hex_encode hashes)
          ≡ ok steps)
        × (make_header_merkle_root c (hex_encode coinbase) steps ≡ ok (hex_encode root))
        × IsRoot (double_sha256_bytes c) (coinbase ∷ hashes) root
  unfolding make_header_merkle_root
  make_header_merkle_root-IsRoot coinbase hashes p ps =
      let found = siblings (double_sha256_bytes c) (length hashes) hashes in
      (
        map hex_encode found,
        climb (double_sha256_bytes c) coinbase found,
        steps-encode hashes ps,
        rw (
          hex_decode-encode coinbase p,
          merkle_root_loop-encode found coinbase
              (siblings-IsByte (double_sha256_bytes c) hash-IsByte (length hashes) hashes ps),
        ),
        climb-IsRoot (double_sha256_bytes c) (length hashes) coinbase hashes (omega arith),
      )
