-- ===== src/Fetch/Whole.antt =====
-- The coinbase of the work that is cached commits to the aux blocks that were fetched.
use mathlib.Core.Path.{subst}
use merged_mining_pool.Common.{
  ℕ, ◌+◌, ◌≡◌, refl, sym, ap, ◌∙◌, some, List, [], ◌∷◌, ◌++◌, take, arith, length, All, All-append,
  All-reverse, Result, ok, err, panic, >>=-eq-ok, Bytes, IsByte,
}
use merged_mining_pool.Common.Int.{ℤ, pos}
use merged_mining_pool.Hex.{hex_encode}
use merged_mining_pool.Hex.RoundTrip.{hex_decode-encode}
use merged_mining_pool.Crypto.{Crypto, IsCrypto}
use merged_mining_pool.Template.{AuxBlock, Template}
use merged_mining_pool.AuxMerkle.{
  int32_to_bytes, create_script_sig, build_merkle_root, create_merged_mining_coinbase,
}
use merged_mining_pool.AuxMerkle.Script.{read_commitment, create_script_sig-read}
use merged_mining_pool.AuxMerkle.Root.{build_merkle_root-IsDigest}
use merged_mining_pool.Block.{BitcoinBlock, Work, work_of, generate_work}
use merged_mining_pool.Chain.{get_chain}
use merged_mining_pool.Encoding.{reverse_bytes, reverse_hex4_bytes, bytes_with_length_header}
use merged_mining_pool.Encoding.Reverse.{reverse_bytes_lem}
use merged_mining_pool.Encoding.VarUint.{le_bytes-IsByte}
use merged_mining_pool.Coinbase.{
  coinbase_initial, coinbase_final, serialize_initial, serialize_final,
}
use merged_mining_pool.Merkle.{merkle_steps}
use merged_mining_pool.Payouts.Payer.{get_primary}
use merged_mining_pool.Fetch.{
  Answers, fetch_all_block_templates, hex_string_to_byte_string, PoolWork, again_after, stored,
  fetch_rpc_block_templates_and_cache_work,
}
use merged_mining_pool.Fetch.Gather.{IsFetched, IsUsed, ok_inj, attempts-IsUsed}

-- The pool's signature and a script stand at the front of the final half of the coinbase, and in
-- the script a daemon finds the magic bytes, a root, the number of slots and the nonce.
abbrev pub Carries : Bytes → Bytes → Bytes → Type 0
Carries signature root final =
    (script : Bytes) × (rest : Bytes) × (final
      ≡ hex_encode (bytes_with_length_header (signature ++ script)) ++ rest)
    × (take 4 script ≡ 0xfa ∷ 0xbe ∷ 0x6d ∷ 0x6d ∷ [])
    × (read_commitment script ≡ (root, 16, 0))

int32_to_bytes-IsByte : (z : ℤ) → All IsByte (int32_to_bytes z)
unfolding int32_to_bytes
int32_to_bytes-IsByte z = le_bytes-IsByte 4 _

create_script_sig-IsByte :
    (nonce size : ℤ) (root : Bytes)
    → All IsByte root
    → All IsByte (create_script_sig nonce size root)
unfolding create_script_sig
create_script_sig-IsByte nonce size root h = (
  omega arith,
  (
    omega arith,
    (
      omega arith,
      (
        omega arith,
        All-append IsByte (reverse_bytes root) _
            (subst (All IsByte) (sym (reverse_bytes_lem root)) (All-reverse IsByte root h))
            (All-append IsByte (int32_to_bytes size) _ (int32_to_bytes-IsByte size)
              (int32_to_bytes-IsByte nonce)),
      ),
    ),
  ),
)

hex_string_to_byte_string-encode :
    (bs : Bytes) → All IsByte bs → hex_string_to_byte_string (hex_encode bs) ≡ ok bs
unfolding hex_string_to_byte_string
hex_string_to_byte_string-encode bs h = rw (hex_decode-encode bs h) refl

module _ (c : Crypto) where
  abbrev Made : Template → Bytes → ℕ → BitcoinBlock × Work × ℕ → Type 0
  Made t arbitrary counter (block, work, next) =
      (block.template ≡ some t)
      × (work ≡ work_of counter block t)
      × ((rest : Bytes) × (block.coinbase_final_hex
            ≡ hex_encode (bytes_with_length_header arbitrary) ++ rest))

  generate_work-Made :
      (t : Template) (name arbitrary script_key : Bytes) (reserved counter : ℕ)
      {r : BitcoinBlock × Work × ℕ}
      → generate_work c (some t) name arbitrary script_key reserved counter ≡ ok r
      → Made t arbitrary counter r
  unfolding generate_work
  generate_work-Made t name arbitrary script_key reserved counter {r} h =
      let (chain, _, h1) = >>=-eq-ok (get_chain name) _ h in
      let (reversed, _, h2) = >>=-eq-ok (reverse_hex4_bytes t.prev_block_hash) _ h1 in
      let (initial, _, h3) =
        >>=-eq-ok (coinbase_initial t (length (bytes_with_length_header arbitrary) + reserved)) _
          h2 in
      let (initial_hex, _, h4) = >>=-eq-ok (serialize_initial initial) _ h3 in
      let (final, _, h5) = >>=-eq-ok (coinbase_final c t script_key) _ h4 in
      let (final_hex, _, h6) = >>=-eq-ok (serialize_final final) _ h5 in
      let (steps, _, h7) = >>=-eq-ok (merkle_steps c t) _ h6 in
      subst (Made t arbitrary counter) (ok_inj h7) (refl, refl, (final_hex, refl))

  abbrev Cached : Template → Bytes → ℕ → List AuxBlock → PoolWork → Type 0
  Cached t arbitrary counter auxblocks p =
      (p.aux_blocks ≡ auxblocks)
      × (p.block.template ≡ some t)
      × (p.work_cache ≡ work_of counter p.block t)
      × ((rest : Bytes) × (p.block.coinbase_final_hex
            ≡ hex_encode (bytes_with_length_header arbitrary) ++ rest))

  stored-Cached :
      (t : Template) (arbitrary : Bytes) (counter : ℕ) (auxblocks : List AuxBlock)
      (g : Result (BitcoinBlock × Work × ℕ)) {p : PoolWork}
      → ((r : BitcoinBlock × Work × ℕ) → g ≡ ok r → Made t arbitrary counter r)
      → stored auxblocks g ≡ ok p
      → Cached t arbitrary counter auxblocks p
  stored-Cached t arbitrary counter auxblocks (ok (block, work, next)) made h =
      let (template, cached, final) = made (block, work, next) refl in
      subst (Cached t arbitrary counter auxblocks) (ok_inj h) (refl, template, cached, final)
  stored-Cached t arbitrary counter auxblocks (err e) made h = cc
  stored-Cached t arbitrary counter auxblocks panic made h = cc

  script_of :
      IsCrypto c
      → (auxblocks : List AuxBlock) {text script : Bytes}
      → create_merged_mining_coinbase c auxblocks (pos 0) ≡ ok text
      → hex_string_to_byte_string text ≡ ok script
      → (root : Bytes) × (build_merkle_root c 16 auxblocks ≡ ok root)
        × (length root ≡ 32)
        × (script ≡ create_script_sig (pos 0) (pos 16) root)
  unfolding create_merged_mining_coinbase
  script_of laws auxblocks {text} {script} h h1 =
      let (root, built, h2) = >>=-eq-ok (build_merkle_root c 16 auxblocks) _ h in
      let (size, bytes) = build_merkle_root-IsDigest c laws 16 auxblocks (omega arith) built in
      let sig = create_script_sig (pos 0) (pos 16) root in
      let decoded =
        sym (hex_string_to_byte_string-encode sig (create_script_sig-IsByte _ _ root bytes))
        ∙ ap hex_string_to_byte_string (ok_inj h2)
        ∙ h1 in
      (root, built, size, sym (ok_inj decoded))

  -- With digests of the documented sizes, when new work is cached: its aux blocks are those that the
  -- nodes gave in the attempt that succeeded, one of every auxiliary chain in order, or none of any
  -- where a node has none or the first auxiliary chain has no name; its template is that of the
  -- primary node with these blocks; its coinbase carries the pool's signature and the root of the
  -- auxiliary tree of just these blocks, with sixteen slots and nonce zero; and the work that is sent
  -- to clients is made of this block.
  pub fetch_rpc_block_templates_and_cache_work-IsCommitted :
      IsCrypto c
      → (signature : Bytes) (order : List Bytes) (script_key : Bytes)
        (recovered : Result (Unit {0})) (first second : Answers) (counter : ℕ) {p : PoolWork}
      → fetch_rpc_block_templates_and_cache_work c signature order script_key recovered first second
          counter
        ≡ ok p
      → (a : Answers) × IsUsed order first second a
        × IsFetched order a p.aux_blocks
        × ((t : Template) × (a.block_template ≡ ok t)
            × (p.block.template ≡ some (record t { aux_blocks = p.aux_blocks }))
            × (p.work_cache ≡ work_of counter p.block (record t { aux_blocks = p.aux_blocks })))
        × ((root : Bytes) × (build_merkle_root c 16 p.aux_blocks ≡ ok root)
            × Carries signature root p.block.coinbase_final_hex)
  unfolding fetch_rpc_block_templates_and_cache_work
  fetch_rpc_block_templates_and_cache_work-IsCommitted laws signature order script_key recovered
        first second counter {p} h =
      let (r, fetched, h1) =
        >>=-eq-ok
          (again_after recovered (fetch_all_block_templates order first)
            (fetch_all_block_templates order second))
          _ h in
      let (a, used, got, gathered) = attempts-IsUsed order recovered first second fetched in
      let (text, committed, h2) = >>=-eq-ok (create_merged_mining_coinbase c r.1 (pos 0)) _ h1 in
      let (script, decoded, h3) = >>=-eq-ok (hex_string_to_byte_string text) _ h2 in
      let (root, built, size, same) = script_of laws r.1 committed decoded in
      let (magic, _, read) = create_script_sig-read (pos 0) (pos 16) root size in
      let (primary, _, h4) = >>=-eq-ok (get_primary order) _ h3 in
      let t = record r.0 { aux_blocks = r.1 } in
      let (kept, template, cached, (rest, final)) =
        stored-Cached t (signature ++ script) counter r.1
          (generate_work c (some t) primary (signature ++ script) script_key 8 counter)
          (λ w e. generate_work-Made t primary (signature ++ script) script_key 8 counter e) h4 in
      rw kept (
        a,
        used,
        gathered,
        (r.0, got, template, cached),
        (
          root,
          built,
          (script, rest, final, ap (take 4) same ∙ magic, ap read_commitment same ∙ read),
        ),
      )
