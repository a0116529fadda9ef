-- ===== src/Fetch/Gather.antt =====
-- Which aux blocks are fetched: one of every auxiliary chain, or none at all.
use merged_mining_pool.Common.{
  ℕ, ◌+◌, ◌≡◌, refl, sym, ◌∙◌, inl, inr, ◌⊎◌, List, [], ◌∷◌, ◌++◌, append-nil, append_assoc, drop,
  if◌then◌else◌, Bool-cases, Error, Result, ok, err, panic, >>=-eq-ok, Bytes, bytes_eq,
  eq_of_bytes_eq,
}
use mathlib.Core.Path.{subst}
use merged_mining_pool.Template.{AuxBlock, Template}
use merged_mining_pool.Payouts.Payer.{get_aux_n}
use merged_mining_pool.Fetch.{
  AuxAnswer, not_found, malformed, found, Answers, adopted, next_aux, fetch_aux_loop,
  fetch_all_block_templates, again_after,
}

-- The blocks are the answers for the chains from the i-th on, one for each, in order.
abbrev pub Gathers : (ℕ → AuxAnswer) → ℕ → List Bytes → List AuxBlock → Type 0
Gathers answers i [] [] = Unit {0}
Gathers answers i [] (x ∷ xs) = ⊥
Gathers answers i (name ∷ names) [] = ⊥
Gathers answers i (name ∷ names) (x ∷ xs) =
    (b : AuxBlock) × (answers i ≡ found b) × (x ≡ adopted b) × Gathers answers (i + 1) names xs

-- The node of one of the chains from the i-th on has no aux block.
abbrev pub Misses : (ℕ → AuxAnswer) → ℕ → List Bytes → Type 0
Misses answers i [] = ⊥
Misses answers i (name ∷ names) = (answers i ≡ not_found) ⊎ Misses answers (i + 1) names

-- What the answers make of the aux blocks: there are none where the first auxiliary chain has no
-- name or one is missing, and else one of each chain.
abbrev pub IsFetched : List Bytes → Answers → List AuxBlock → Type 0
IsFetched order a auxblocks =
    ((get_aux_n order 1 ≡ []) × (auxblocks ≡ []))
    ⊎ ((Misses a.aux_block 1 (drop 1 order) × (auxblocks ≡ []))
        ⊎ Gathers a.aux_block 1 (drop 1 order) auxblocks)

-- The answers of the first attempt, or of the second one if the first attempt failed.
abbrev pub IsUsed : List Bytes → Answers → Answers → Answers → Type 0
IsUsed order first second a =
    (a ≡ first) ⊎ ((e : Error) × (fetch_all_block_templates order first ≡ err e) × (a ≡ second))

abbrev Adds : (ℕ → AuxAnswer) → ℕ → List Bytes → List AuxBlock → List AuxBlock → Type 0
Adds answers i names before all =
    (Misses answers i names × (all ≡ []))
    ⊎ ((xs : List AuxBlock) × (all ≡ before ++ xs) × Gathers answers i names xs)

pub ok_inj : {A : Type 0} {x y : A} → ◌≡◌ {A = Result A} (ok x) (ok y) → x ≡ y
ok_inj h = cc

fetch_aux_loop-Adds :
    (answers : ℕ → AuxAnswer) (names : List Bytes) (i : ℕ) (before : List AuxBlock)
    {all : List AuxBlock}
    → fetch_aux_loop answers names i before ≡ ok all
    → Adds answers i names before all
unfolding fetch_aux_loop
fetch_aux_loop-Adds answers [] i before h = inr ([], sym (ok_inj h) ∙ sym (append-nil before), tt)
fetch_aux_loop-Adds answers (name ∷ names) i before {all} h =
    by_answer (answers i) refl
      (λ aux. fetch_aux_loop-Adds answers names (i + 1) (before ++ aux ∷ [])) h
  where
    more : AuxBlock → Result (List AuxBlock)
    more aux = fetch_aux_loop answers names (i + 1) (before ++ aux ∷ [])

    behind :
        (b : AuxBlock)
        → answers i ≡ found b
        → Adds answers (i + 1) names (before ++ adopted b ∷ []) all
        → Adds answers i (name ∷ names) before all
    behind b e (inl (missed, none_at_all)) = inl (inr missed, none_at_all)
    behind b e (inr (xs, same, gathered)) =
        inr (adopted b ∷ xs, same ∙ append_assoc before (adopted b ∷ []) xs, (b, e, refl, gathered))

    by_answer :
        (a : AuxAnswer)
        → answers i ≡ a
        → ((aux : AuxBlock)
            → more aux ≡ ok all
            → Adds answers (i + 1) names (before ++ aux ∷ []) all)
        → next_aux a more ≡ ok all
        → Adds answers i (name ∷ names) before all
    by_answer not_found e ih h = inl (inl e, sym (ok_inj h))
    by_answer malformed e ih h = cc
    by_answer (found aux) e ih h = behind aux e (ih (adopted aux) h)

added :
    (order : List Bytes) (a : Answers) {all : List AuxBlock}
    → Adds a.aux_block 1 (drop 1 order) [] all
    → IsFetched order a all
added order a (inl missed) = inr (inl missed)
added order a (inr (xs, same, gathered)) = inr (inr (rw same gathered))

fetch_all_block_templates-IsFetched :
    (order : List Bytes) (a : Answers) {r : Template × List AuxBlock}
    → fetch_all_block_templates order a ≡ ok r
    → (a.block_template ≡ ok r.0) × IsFetched order a r.1
unfolding fetch_all_block_templates
fetch_all_block_templates-IsFetched order a {r} h =
    let (template, got, h1) = >>=-eq-ok a.block_template _ h in
    let (auxblocks, asked, h2) =
      >>=-eq-ok
        (if bytes_eq (get_aux_n order 1) []
          then ok []
          else fetch_aux_loop a.aux_block (drop 1 order) 1 [])
        (λ auxblocks. ok (template, auxblocks)) h1 in
    let same : ◌≡◌ {A = Template × List AuxBlock} (template, auxblocks) r = ok_inj h2 in
    subst (λ (q : Template × List AuxBlock). (a.block_template ≡ ok q.0) × IsFetched order a q.1)
      same
      (
        got,
        elim (Bool-cases (bytes_eq (get_aux_n order 1) [])) [
          | inl nameless ↦ inl (eq_of_bytes_eq _ _ nameless, sym (ok_inj (rw nameless at asked)))
          | inr named ↦
              added order a
                (fetch_aux_loop-Adds a.aux_block (drop 1 order) 1 [] (rw named at asked))
        ],
      )

pub attempts-IsUsed :
    (order : List Bytes) (recovered : Result (Unit {0})) (first second : Answers)
    {r : Template × List AuxBlock}
    → again_after recovered
        (fetch_all_block_templates order first)
        (fetch_all_block_templates order second)
      ≡ ok r
    → (a : Answers) × IsUsed order first second a
      × (a.block_template ≡ ok r.0)
      × IsFetched order a r.1
attempts-IsUsed order recovered first second {r} =
    by_first (fetch_all_block_templates order first) refl
  where
    by_first :
        (one : Result (Template × List AuxBlock))
        → fetch_all_block_templates order first ≡ one
        → again_after recovered one (fetch_all_block_templates order second) ≡ ok r
        → (a : Answers) × IsUsed order first second a
          × (a.block_template ≡ ok r.0)
          × IsFetched order a r.1
    by_first (ok q) e h =
        let (got, gathered) = fetch_all_block_templates-IsFetched order first (e ∙ h) in
        (first, inl refl, got, gathered)
    by_first (err x) e h =
        let (u, recovery, h1) = >>=-eq-ok recovered _ h in
        let (got, gathered) = fetch_all_block_templates-IsFetched order second h1 in
        (second, inr (x, e, refl), got, gathered)
    by_first panic e h = cc
