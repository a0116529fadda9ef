-- ===== src/Payouts/Pages.antt =====
-- Reading the shares page by page is reading all of them.
use merged_mining_pool.Common.{
  ℕ, zero, suc, ◌-◌, ◌≤◌, ◌<◌, ◌≡◌, refl, sym, ap, ◌∙◌, inl, inr, Bool, false, ◌&&◌, ◌||◌, some,
  List, [], ◌∷◌, ◌++◌, arith, ltb, if◌then◌else◌, Bool-cases, length, get_elem?, take, drop, All,
  length-append, take-append-drop, append_assoc, lt→ltb, ltb→lt, Error, Result, ok, err, panic,
  Result-cases, or_panic, Bytes,
}
use mathlib.Core.Path.{subst}
use merged_mining_pool.Rows.{Share}
use merged_mining_pool.Storage.{
  rows_left, outcome, Database, Action, continue_with, ◌>>=◌, lift, statement,
}
use merged_mining_pool.Storage.Balances.{keep}
use merged_mining_pool.Storage.Shares.{in_pool, earlier, get_shares_before}
use merged_mining_pool.Storage.Paging.{IsStrict, keep-and, keep-All, keep-earlier_rest}
use merged_mining_pool.Payouts.Tally.{each_share}
use merged_mining_pool.Payouts.Schemes.{page_loop}
use merged_mining_pool.Payouts.Takes.{last_of, take_all, length-take, All-take}

module _ {F S : Type 0} (step : S → Share F → Result S) where
  -- The rest of the shares, if those in front of them were read without an error.
  abbrev each_after : Result S → List (Share F) → Result S
  each_after (ok s) shares = each_share step s shares
  each_after (err e) shares = err e
  each_after panic shares = panic

  each_share-append :
      (s : S) (front back : List (Share F))
      → each_share step s (front ++ back) ≡ each_after (each_share step s front) back
  unfolding each_share
  each_share-append s [] back = refl
  each_share-append s (x ∷ front) back = elim (Result-cases (step s x)) [
    | inl (s', e) ↦ rw e (each_share-append s' front back)
    | inr (inl (y, e)) ↦ rw e refl
    | inr (inr e) ↦ rw e refl
  ]

  -- What every share that is read keeps of the state.
  abbrev pub Keeps : (S → Type 0) → (Share F → Type 0) → Type 0
  Keeps P Q = (s : S) (x : Share F) (s' : S) → P s → Q x → step s x ≡ ok s' → P s'

  each_rest :
      {s : S} {x : Share F} (s1 : S) (xs : List (Share F)) {r : Result S}
      → step s x ≡ ok s1
      → each_share step s (x ∷ xs) ≡ r
      → each_share step s1 xs ≡ r
  unfolding each_share
  each_rest s1 xs e h = rw e at h

  stopped :
      (s : S) (x : Share F) (xs : List (Share F)) {y : Error}
      → step s x ≡ err y
      → each_share step s (x ∷ xs) ≡ err y
  unfolding each_share
  stopped s x xs e = rw e refl

  stopped' :
      (s : S) (x : Share F) (xs : List (Share F))
      → step s x ≡ panic
      → each_share step s (x ∷ xs) ≡ panic
  unfolding each_share
  stopped' s x xs e = rw e refl

  each_share-keeps :
      (P : S → Type 0) (Q : Share F → Type 0) (s : S) (xs : List (Share F)) (s' : S)
      → Keeps P Q
      → P s
      → All Q xs
      → each_share step s xs ≡ ok s'
      → P s'
  unfolding each_share
  each_share-keeps P Q s [] s' keeps p q e = subst P (cc) p
  each_share-keeps P Q s (x ∷ xs) s' keeps p (q, qs) e = elim (Result-cases (step s x)) [
    | inl (s1, e1) ↦
        each_share-keeps P Q s1 xs s' keeps (keeps s x s1 p q e1) qs (each_rest s1 xs e1 e)
    | inr (inl (y, e1)) ↦ cc (stopped s x xs e1)
    | inr (inr e1) ↦ cc (stopped' s x xs e1)
  ]

-- The shares of the pool up to a time, newest first.
abbrev pub history : {F : Type 0} → Bytes → ℕ → Bool → Database F → List (Share F)
history pool_id before inclusive d =
    keep (λ s. in_pool pool_id s && earlier before inclusive s) d.shares

get_shares_before-eq :
    {F : Type 0} (pool_id : Bytes) (before : ℕ) (inclusive : Bool) (n : ℕ) (d : Database F)
    → d.outages ≡ []
    → get_shares_before pool_id before inclusive n d
      ≡ (ok (take n (history pool_id before inclusive d)), d)
unfolding get_shares_before statement
get_shares_before-eq pool_id before inclusive n d up =
    let rows = take n (history pool_id before inclusive d) in
    ap (λ o. continue_with (λ u. lift (ok (rows_left o rows))) (outcome o d)) up

module _ {F S : Type 0} (step : S → Share F → Result S) (is_done : S → Bool) (pool_id : Bytes)
    (page_size : ℕ) (d : Database F) where
  abbrev rest_of : ℕ → ℕ → Bool → S → Action F S
  rest_of = page_loop step is_done pool_id page_size

  -- A round, once the page is read.
  abbrev next_round : ℕ → List (Share F) → S → Action F S
  next_round rounds page s' =
      if ltb (length page) page_size || is_done s' then lift (ok s') else (do
        last ← lift (or_panic (get_elem? page (length page - 1)))
        rest_of rounds last.created false s')

  round_eq :
      (rounds before : ℕ) (inclusive : Bool) (s : S)
      → d.outages ≡ []
      → let page = take page_size (history pool_id before inclusive d) in
        rest_of (suc rounds) before inclusive s d
        ≡ continue_with (next_round rounds page) (each_share step s page, d)
  unfolding page_loop
  round_eq rounds before inclusive s up =
      ap (continue_with λ page. lift (each_share step s page) >>= next_round rounds page)
        (get_shares_before-eq pool_id before inclusive page_size d up)

  -- The last page.
  last_round :
      (rounds : ℕ) (s : S) (page : List (Share F)) (r : Result S)
      → length page < page_size
      → continue_with (next_round rounds page) (r, d) ≡ (r, d)
  last_round rounds s page (ok s') h = rw (lt→ltb (length page) page_size h) refl
  last_round rounds s page (err e) h = refl
  last_round rounds s page panic h = refl

  full_round :
      (rounds : ℕ) (page : List (Share F)) (s' : S) {last : Share F}
      → length page ≡ page_size
      → is_done s' ≡ false
      → get_elem? page (length page - 1) ≡ some last
      → next_round rounds page s' d ≡ rest_of rounds last.created false s' d
  full_round rounds page s' full open_yet at =
      rw (not_short (length page) page_size full, open_yet, at) refl
    where
      not_short : (n k : ℕ) → n ≡ k → ltb n k ≡ false
      not_short n k e = ground arith

  history-next :
      (before : ℕ) (inclusive : Bool) (front : List (Share F)) (last : Share F)
      (rest : List (Share F))
      → IsStrict (keep (in_pool pool_id) d.shares)
      → history pool_id before inclusive d ≡ front ++ last ∷ rest
      → history pool_id last.created false d ≡ rest
  history-next before inclusive front last rest strict e =
      keep-and (in_pool pool_id) (earlier last.created false) d.shares
      ∙ keep-earlier_rest before inclusive (keep (in_pool pool_id) d.shares) front last rest strict
          (sym (keep-and (in_pool pool_id) (earlier before inclusive) d.shares) ∙ e)

  -- A page and what stands behind it.
  split_page :
      (xs : List (Share F))
      → 0 < page_size
      → page_size ≤ length xs
      → (front : List (Share F)) × (last : Share F) × (xs ≡ front ++ last ∷ drop page_size xs)
        × (get_elem? (take page_size xs) (length (take page_size xs) - 1) ≡ some last)
        × (length (drop page_size xs) < length xs)
  split_page xs pos full =
      by_page (take page_size xs) (length-take page_size xs full) (take-append-drop page_size xs)
    where
      by_page :
          (page : List (Share F))
          → length page ≡ page_size
          → page ++ drop page_size xs ≡ xs
          → (front : List (Share F)) × (last : Share F) × (xs ≡ front ++ last ∷ drop page_size xs)
            × (get_elem? page (length page - 1) ≡ some last)
            × (length (drop page_size xs) < length xs)
      by_page [] n e = absurd (omega arith)
      by_page (x ∷ page) n e =
          let (front, last, shape, at) = last_of x page in
          (
            front,
            last,
            sym e
                ∙ ap (λ p. p ++ drop page_size xs) shape
                ∙ append_assoc front (last ∷ []) (drop page_size xs),
            ap (get_elem? (x ∷ page)) (omega arith) ∙ at,
            omega (arith, ap length e, length-append {0} (x ∷ page) (drop page_size xs)),
          )

  module _ (P : S → Type 0) (Q : Share F → Type 0) (keeps : Keeps step P Q)
      (never : (s : S) → P s → is_done s ≡ false) (up : d.outages ≡ [])
      (strict : IsStrict (keep (in_pool pool_id) d.shares)) (fits : All Q d.shares)
      (pos : 0 < page_size) where
    page_fits :
        (before : ℕ) (inclusive : Bool)
        → All Q (take page_size (history pool_id before inclusive d))
    page_fits before inclusive =
        All-take Q page_size (history pool_id before inclusive d)
          (keep-All Q (λ s. in_pool pool_id s && earlier before inclusive s) d.shares fits)

    -- A loop over pages of at least one share, which no share ends, over a pool whose shares have
    -- different times and a database that answers, reads every share of the pool up to the time exactly
    -- once, newest first: it ends within one round more than there are shares, as the loop over all of
    -- them ends, and leaves the database.
    pub page_loop-each_share :
        (rounds before : ℕ) (inclusive : Bool) (s : S)
        → P s
        → length (history pool_id before inclusive d) < rounds
        → page_loop step is_done pool_id page_size rounds before inclusive s d
          ≡ (each_share step s (history pool_id before inclusive d), d)
    page_loop-each_share zero before inclusive s p enough = absurd (omega arith)
    page_loop-each_share (suc rounds) before inclusive s p enough =
        let all = history pool_id before inclusive d in
        round_eq rounds before inclusive s up ∙ elim (Bool-cases (ltb (length all) page_size)) [
          | inl short ↦
              let whole : take page_size all ≡ all =
                take_all page_size all (omega (arith, ltb→lt (length all) page_size short)) in
              rw whole (
                last_round rounds s all (each_share step s all)
                  (ltb→lt (length all) page_size short))
          | inr full ↦
              let (front, last, shape, at, fewer) = split_page all pos (ground arith) in
              let behind =
                history-next before inclusive front last (drop page_size all) strict shape in
              let whole : each_share step s all
                  ≡ each_after step (each_share step s (take page_size all)) (drop page_size all) =
                ap (each_share step s) (sym (take-append-drop page_size all))
                ∙ each_share-append step s (take page_size all) (drop page_size all) in
              elim (Result-cases (each_share step s (take page_size all))) [
                | inl (s', e) ↦
                    let p' =
                      each_share-keeps step P Q s (take page_size all) s' keeps p
                        (page_fits before inclusive) e in
                    ap (λ r. continue_with (next_round rounds (take page_size all)) (r, d)) e
                    ∙ full_round rounds (take page_size all) s'
                        (length-take page_size all (ground arith)) (never s' p') at
                    ∙ page_loop-each_share rounds last.created false s' p'
                        (omega (arith, ap length behind))
                    ∙ ap (λ r. (r, d))
                        (ap (each_share step s') behind
                          ∙ sym (whole ∙ ap (λ r. each_after step r (drop page_size all)) e))
                | inr (inl (y, e)) ↦
                    ap (λ r. continue_with (next_round rounds (take page_size all)) (r, d)) e
                    ∙ ap (λ r. (r, d))
                        (sym (whole ∙ ap (λ r. each_after step r (drop page_size all)) e))
                | inr (inr e) ↦
                    ap (λ r. continue_with (next_round rounds (take page_size all)) (r, d)) e
                    ∙ ap (λ r. (r, d))
                        (sym (whole ∙ ap (λ r. each_after step r (drop page_size all)) e))
              ]
        ]
