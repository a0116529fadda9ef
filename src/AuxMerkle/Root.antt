-- ===== src/AuxMerkle/Root.antt =====
-- The root of the auxiliary tree is a digest.
use merged_mining_pool.Common.{
  ℕ, zero, suc, ◌+◌, ◌≡◌, refl, sym, ap, ◌∙◌, ◌≢◌, false, inl, inr, none, some, List, [], ◌∷◌, ◌++◌,
  arith, ltb, Bool-cases, length, get_elem?, set, replicate, All, length-set, length-replicate,
  Result, ok, err, panic, or_panic, >>=-eq-ok, Bytes, IsByte,
}
use mathlib.Core.Path.{subst}
use merged_mining_pool.Hex.{hex_decode}
use merged_mining_pool.Crypto.{Crypto, IsCrypto, utils_double_sha256}
use merged_mining_pool.Template.{AuxBlock}
use merged_mining_pool.Encoding.{reverse_bytes}
use merged_mining_pool.AuxMerkle.{
  get_expected_index, Slots, store_slot, place_hashes, fill_slots, build_merkle_leaf, or_nil,
  join_or_double, root_loop, build_merkle_root,
}
use merged_mining_pool.AuxMerkle.Leaves.{length-fill_slots}

-- 32 bytes.
abbrev pub IsDigest : Bytes → Type 0
IsDigest bs = (length bs ≡ 32) × All IsByte bs

store_slot-length :
    (slots : Slots) (i : ℕ) (v : Bytes) {placed : Slots}
    → store_slot slots i v ≡ ok placed
    → length placed ≡ length slots
unfolding store_slot
store_slot-length slots i v {placed} h = elim (Bool-cases (ltb i (length slots))) [
  | inl within ↦
      let stored : ◌≡◌ {A = Result Slots} (ok (set slots i (some v))) (ok placed) =
        rw within at h in
      let same : set slots i (some v) ≡ placed = cc in
      ap length (sym same) ∙ length-set slots i (some v)
  | inr outside ↦ let no : ◌≡◌ {A = Result Slots} panic (ok placed) = rw outside at h in cc
]

place_hashes-length :
    (bs : List AuxBlock) (i : ℕ) (slots : Slots) {filled : Slots}
    → place_hashes bs i slots ≡ ok filled
    → length filled ≡ length slots
unfolding place_hashes
place_hashes-length [] i slots {filled} h = let same : slots ≡ filled = cc in ap length (sym same)
place_hashes-length (b ∷ bs) i slots h =
    let (hash, _, h1) = >>=-eq-ok (hex_decode b.hash) _ h in
    let (old, _, h2) = >>=-eq-ok (or_panic (get_elem? slots i)) _ h1 in
    let (placed, stored, h3) =
      >>=-eq-ok (store_slot slots (get_expected_index b.chain_id 4) (reverse_bytes hash)) _ h2 in
    place_hashes-length bs (i + 1) placed h3
    ∙ store_slot-length slots (get_expected_index b.chain_id 4) (reverse_bytes hash) stored

build_merkle_leaf-length :
    (size : ℕ) (bs : List AuxBlock) {leaves : List Bytes}
    → build_merkle_leaf size bs ≡ ok leaves
    → length leaves ≡ size
unfolding build_merkle_leaf
build_merkle_leaf-length size bs {leaves} h =
    let (slots, placed, h1) = >>=-eq-ok (place_hashes bs 0 (replicate size none)) _ h in
    let same : fill_slots slots ≡ leaves = cc in
    ap length (sym same)
    ∙ length-fill_slots slots
    ∙ place_hashes-length bs 0 (replicate size none) placed
    ∙ length-replicate size none

module _ (c : Crypto) (laws : IsCrypto c) where
  digest : (bs : Bytes) → IsDigest (utils_double_sha256 c bs)
  unfolding utils_double_sha256
  digest bs = (laws.length-sha256 (c.sha256 bs), laws.sha256-IsByte (c.sha256 bs))

  join_or_double-IsDigest : (level : List Bytes) → All IsDigest (join_or_double c level)
  unfolding join_or_double
  join_or_double-IsDigest [] = tt
  join_or_double-IsDigest (left ∷ []) = (digest (left ++ left), tt)
  join_or_double-IsDigest (left ∷ right ∷ rest) =
      (digest (left ++ right), join_or_double-IsDigest rest)

  first-IsDigest :
      (level : List Bytes) {root : Bytes}
      → All IsDigest level
      → or_panic (get_elem? level 0) ≡ ok root
      → IsDigest root
  first-IsDigest [] all h = cc
  first-IsDigest (x ∷ level) {root} (d, ds) h = let same : x ≡ root = cc in subst IsDigest same d

  root_loop-IsDigest :
      (rounds : ℕ) (level : List Bytes) {root : Bytes}
      → All IsDigest level
      → root_loop c rounds level ≡ ok root
      → IsDigest root
  unfolding root_loop
  root_loop-IsDigest zero level all h = cc
  root_loop-IsDigest (suc rounds) level all h = elim (Bool-cases (ltb 1 (length level))) [
    | inl many ↦
        root_loop-IsDigest rounds (join_or_double c level) (join_or_double-IsDigest level)
          (rw many at h)
    | inr few ↦ first-IsDigest level all (rw few at h)
  ]

  none_alone :
      (level : List Bytes) → length level ≢ 1 → ltb 1 (length level) ≡ false → All IsDigest level
  none_alone [] ne few = tt
  none_alone (x ∷ []) ne few = absurd (ne refl)
  none_alone (x ∷ y ∷ level) ne few = ground arith

  root_loop-joined :
      (rounds : ℕ) (level : List Bytes) {root : Bytes}
      → length level ≢ 1
      → root_loop c rounds level ≡ ok root
      → IsDigest root
  unfolding root_loop
  root_loop-joined zero level ne h = cc
  root_loop-joined (suc rounds) level ne h = elim (Bool-cases (ltb 1 (length level))) [
    | inl many ↦
        root_loop-IsDigest rounds (join_or_double c level) (join_or_double-IsDigest level)
          (rw many at h)
    | inr few ↦ first-IsDigest level (none_alone level ne few) (rw few at h)
  ]

  or_nil-ne :
      (size : ℕ) (r : Result (List Bytes)) {slots : List Bytes}
      → size ≢ 1
      → ((leaves : List Bytes) → r ≡ ok leaves → length leaves ≡ size)
      → or_nil r ≡ ok slots
      → length slots ≢ 1
  or_nil-ne size (ok leaves) {slots} ne sized h =
      let same : leaves ≡ slots = cc in λ one. ne (sym (sized leaves refl) ∙ ap length same ∙ one)
  or_nil-ne size (err e) {slots} ne sized h =
      let same : [] ≡ slots = cc in λ one. omega (arith, ap length same, one)
  or_nil-ne size panic ne sized h = cc

  -- A root of a tree with other than one slot is a digest, whatever the hashes of the blocks are.
  pub build_merkle_root-IsDigest :
      (size : ℕ) (bs : List AuxBlock) {root : Bytes}
      → size ≢ 1
      → build_merkle_root c size bs ≡ ok root
      → IsDigest root
  unfolding build_merkle_root
  build_merkle_root-IsDigest size bs ne h =
      let (slots, built, h1) = >>=-eq-ok (or_nil (build_merkle_leaf size bs)) _ h in
      root_loop-joined (suc (length slots)) slots
        (or_nil-ne size (build_merkle_leaf size bs) ne
          (λ leaves e. build_merkle_leaf-length size bs e) built)
        h1
