-- ===== src/Share/Weigh.antt =====
-- The status of a share, told without the loop.
use merged_mining_pool.Common.{
  ℕ, suc, ◌+◌, ◌≡◌, refl, sym, ap, ◌∙◌, Bool, true, false, ◌||◌, some, List, [], ◌∷◌, ◌++◌, map,
  append_assoc, arith, if◌then◌else◌, length, set, replicate, length-append, set-append, Result, ok,
  ◌>>=◌, Bytes,
}
use mathlib.Core.Path.{ap₂}
use merged_mining_pool.Common.Int.{ℤ}
use merged_mining_pool.Crypto.{Crypto}
use merged_mining_pool.Template.{AuxBlock, Template}
use merged_mining_pool.Chain.{Chain, share_multiplier}
use merged_mining_pool.Target.{Floats, to_big, to_difficulty, target_from_difficulty}
use merged_mining_pool.Block.{BitcoinBlock, chain_of, sum}
use merged_mining_pool.Share.{
  ShareStatus, share_invalid, share_valid, share_candidate, at_most, aux_target, weigh_aux, judge,
  weigh, Weighed, validate_and_weigh_share,
}

-- The blocks' targets are these numbers.
abbrev pub HasTargets : List AuxBlock → List ℤ → Type 0
HasTargets [] [] = Unit
HasTargets (b ∷ bs) (t ∷ ts) = (aux_target b ≡ ok t) × HasTargets bs ts
HasTargets _ _ = ⊥

abbrev pub any_true : List Bool → Bool
any_true [] = false
any_true (b ∷ bs) = b || any_true bs

or_false : (b : Bool) → (b || false) ≡ b
or_false true = refl
or_false false = refl

or_swap : (flag valid rest : Bool) → ((flag || valid) || rest) ≡ (valid || (flag || rest))
or_swap flag valid rest = ground arith

placed :
    (flag : Bool) (done rest : List Bool) (i : ℕ)
    → length done ≡ i
    → (if flag then set (done ++ false ∷ rest) i true else done ++ false ∷ rest)
      ≡ (done ++ flag ∷ []) ++ rest
placed true done rest i e =
    set-append done false true rest e ∙ sym (append_assoc done (true ∷ []) rest)
placed false done rest i e = sym (append_assoc done (false ∷ []) rest)

-- The loop appends one flag for each block.
weigh_aux-flags :
    (s : ℕ) (bs : List AuxBlock) (ts : List ℤ) (i : ℕ) (valid : Bool) (done : List Bool)
    → HasTargets bs ts
    → length done ≡ i + 1
    → weigh_aux s bs i valid (done ++ replicate (length bs) false)
      ≡ ok ((valid || any_true (map (at_most s) ts)), done ++ map (at_most s) ts)
unfolding weigh_aux
weigh_aux-flags s [] [] i valid done h e = ap (λ v. ok (v, done ++ [])) (sym (or_false valid))
weigh_aux-flags s [] (t ∷ ts) i valid done h e = absurd h
weigh_aux-flags s (b ∷ bs) [] i valid done h e = absurd h
weigh_aux-flags s (b ∷ bs) (t ∷ ts) i valid done (hb, hs) e =
    let flag = at_most s t in
    rw hb (
      ap (weigh_aux s bs (i + 1) (flag || valid))
        (placed flag done (replicate (length bs) false) (i + 1) e)
      ∙ weigh_aux-flags s bs ts (i + 1) (flag || valid) (done ++ flag ∷ []) hs
          (omega (arith, length-append {0} done (flag ∷ [])))
      ∙ ap₂ (λ (v : Bool) (r : List Bool). ok (v, r))
          (or_swap flag valid (any_true (map (at_most s) ts)))
          (append_assoc done (flag ∷ []) (map (at_most s) ts)))

-- The verdict: a share that meets any target is a candidate, any other is valid if it meets the
-- pool's.
abbrev pub verdict : ℕ → List ℤ → ℤ → ShareStatus
verdict s targets pool =
    if any_true (map (at_most s) targets)
    then share_candidate
    else if at_most s pool
    then share_valid
    else share_invalid

first :
    (v : Bool) (n : ℕ)
    → (if v then set (replicate (n + 1) false) 0 true else replicate (n + 1) false)
      ≡ v ∷ replicate n false
first v n = ap (λ m. if v then set (replicate m false) 0 true else replicate m false) more ∙ split v
  where
    more : n + 1 ≡ suc n
    more = omega arith

    split :
        (v : Bool)
        → (if v then set (replicate (suc n) false) 0 true else replicate (suc n) false)
          ≡ v ∷ replicate n false
    split true = refl
    split false = refl

module _ {F B : Type 0} (c : Crypto) (f : Floats F B) where
  judge-verdict :
      (any : Bool) (s : ℕ) (flags : List Bool) (pool_target : Bytes) (pool : ℤ) (difficulty : F)
      → to_big pool_target ≡ some pool
      → judge c f s pool_target (any, flags) difficulty
        ≡ ok (
          if any then share_candidate else if at_most s pool then share_valid else share_invalid,
          flags,
          difficulty,
        )
  judge-verdict true s flags pool_target pool difficulty h = refl
  judge-verdict false s flags pool_target pool difficulty h = rw h (tested (at_most s pool))
    where
      tested :
          (b : Bool)
          → ◌≡◌ {A = Result (Weighed F)}
              (ok (
                if b then (share_valid, flags, difficulty) else (share_invalid, flags, difficulty)))
              (ok (if b then share_valid else share_invalid, flags, difficulty))
      tested true = refl
      tested false = refl

  -- For a block with its template and chain set, whose header has a digest and whose targets and
  -- the pool's are numbers, `validateAndWeighShare` returns the verdict on the digest's number; one
  -- flag for the primary chain and for each auxiliary chain, in order, which tells whether that
  -- chain's target is met; and the difficulty of the pool's target.
  pub validate_and_weigh_share-verdict :
      (b : BitcoinBlock) (pool_difficulty : F) (t : Template) (chain : Chain) (pool_target : Bytes)
      (difficulty : F) (s : ℕ) (primary pool : ℤ) (aux : List ℤ)
      → b.template ≡ some t
      → b.chain ≡ some chain
      → target_from_difficulty f (f.div_whole pool_difficulty (share_multiplier chain))
        ≡ ok pool_target
      → to_difficulty f pool_target ≡ ok difficulty
      → (sum c b).1 ≡ ok s
      → to_big t.target ≡ some primary
      → to_big pool_target ≡ some pool
      → HasTargets t.aux_blocks aux
      → validate_and_weigh_share c f b pool_difficulty ≡ (
        (sum c b).0,
        ok (verdict s (primary ∷ aux) pool, map (at_most s) (primary ∷ aux), difficulty),
      )
  unfolding validate_and_weigh_share chain_of
  validate_and_weigh_share-verdict b d t chain pool_target difficulty s primary pool aux ht hc hp hd
        hs hz hq ha =
      ap (λ r. ((sum c b).0, r)) (ap (λ r. weigh c f r b d) hs ∙ weighed)
    where
      v : Bool
      v = at_most s primary

      rest : Result (Bool × List Bool)
      rest = ok ((v || any_true (map (at_most s) aux)), v ∷ map (at_most s) aux)

      start : List Bool
      start =
          if v
          then set (replicate (length t.aux_blocks + 1) false) 0 true
          else replicate (length t.aux_blocks + 1) false

      flags : weigh_aux s t.aux_blocks 0 v start ≡ rest
      flags =
          ap (weigh_aux s t.aux_blocks 0 v) (first v (length t.aux_blocks))
          ∙ weigh_aux-flags s t.aux_blocks aux 0 v (v ∷ []) ha (omega arith)

      weighed :
          weigh c f (ok s) b d
          ≡ ok (verdict s (primary ∷ aux) pool, map (at_most s) (primary ∷ aux), difficulty)
      weighed =
          rw (ht, hc, hp, hd, hz)
            (ap (λ r. r >>= λ w. judge c f s pool_target w difficulty) flags
              ∙ judge-verdict (v || any_true (map (at_most s) aux)) s (v ∷ map (at_most s) aux)
                  pool_target pool difficulty hq)
