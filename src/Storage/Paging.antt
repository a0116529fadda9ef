-- ===== src/Storage/Paging.antt =====
-- The table of shares stays ordered, and a page continues where the last one ended.
use merged_mining_pool.Common.{
  ℕ, ◌≤◌, ◌<◌, ◌≡◌, refl, sym, ap, ◌∙◌, inl, inr, Bool, true, false, ◌&&◌, List, [], ◌∷◌, ◌++◌,
  arith, leb, Bool-cases, All, leb→le, le→leb, lt→ltb, ltb→lt,
}
use mathlib.Core.Path.{subst}
use merged_mining_pool.Rows.{Share}
use merged_mining_pool.Storage.Balances.{keep}
use merged_mining_pool.Storage.Shares.{place, place_all, earlier}

module _ {A : Type 0} where
  pub keep-and : (p q : A → Bool) (xs : List A) → keep (λ x. p x && q x) xs ≡ keep q (keep p xs)
  keep-and p q [] = refl
  keep-and p q (x ∷ xs) = elim (Bool-cases (p x)) [
    | inl h ↦ rw (h, keep-and p q xs) (refl)
    | inr h ↦ rw h (keep-and p q xs)
  ]

  keep_every : (p : A → Bool) (xs : List A) → All (λ x. p x ≡ true) xs → keep p xs ≡ xs
  keep_every p [] h = refl
  keep_every p (x ∷ xs) (h, hs) = rw (h, keep_every p xs hs) refl

  pub keep-All : (P : A → Type 0) (p : A → Bool) (xs : List A) → All P xs → All P (keep p xs)
  keep-All P p [] h = tt
  keep-All P p (x ∷ xs) (h, hs) = elim (Bool-cases (p x)) [
    | inl e ↦ rw e (h, keep-All P p xs hs)
    | inr e ↦ rw e (keep-All P p xs hs)
  ]

  All-middle : (P : A → Type 0) (xs : List A) (y : A) (zs : List A) → All P (xs ++ y ∷ zs) → P y
  All-middle P [] y zs h = h.0
  All-middle P (x ∷ xs) y zs h = All-middle P xs y zs h.1

module _ {F : Type 0} where
  -- No share is newer than one in front of it.
  abbrev pub IsNewestFirst : List (Share F) → Type 0
  IsNewestFirst [] = Unit
  IsNewestFirst (s ∷ ss) = All (λ (t : Share F). t.created ≤ s.created) ss × IsNewestFirst ss

  -- Every share is older than those in front of it.
  abbrev pub IsStrict : List (Share F) → Type 0
  IsStrict [] = Unit
  IsStrict (s ∷ ss) = All (λ (t : Share F). t.created < s.created) ss × IsStrict ss

  older :
      (n k : ℕ) (ss : List (Share F))
      → n ≤ k
      → All (λ (t : Share F). t.created ≤ n) ss
      → All (λ (t : Share F). t.created ≤ k) ss
  older n k [] h p = tt
  older n k (s ∷ ss) h (p, ps) = (omega arith, older n k ss h ps)

  place-All :
      (k : ℕ) (s : Share F) (ss : List (Share F))
      → s.created ≤ k
      → All (λ (t : Share F). t.created ≤ k) ss
      → All (λ (t : Share F). t.created ≤ k) (place s ss)
  unfolding place
  place-All k s [] h p = (h, tt)
  place-All k s (t ∷ ts) h (p, ps) = elim (Bool-cases (leb t.created s.created)) [
    | inl e ↦ rw e (h, (p, ps))
    | inr e ↦ rw e (p, place-All k s ts h ps)
  ]

  place-IsNewestFirst :
      (s : Share F) (ss : List (Share F)) → IsNewestFirst ss → IsNewestFirst (place s ss)
  unfolding place
  place-IsNewestFirst s [] h = (tt, tt)
  place-IsNewestFirst s (t ∷ ts) (p, ps) = elim (Bool-cases (leb t.created s.created)) [
    | inl e ↦
        let le = leb→le t.created s.created e in
        rw e ((le, older t.created s.created ts le p), (p, ps))
    | inr e ↦ rw e (place-All t.created s ts (ground arith) p, place-IsNewestFirst s ts ps)
  ]

  -- A batch of shares in any order keeps the table ordered.
  pub place_all-IsNewestFirst :
      (ss table : List (Share F)) → IsNewestFirst table → IsNewestFirst (place_all ss table)
  unfolding place_all
  place_all-IsNewestFirst [] table h = h
  place_all-IsNewestFirst (s ∷ ss) table h =
      place_all-IsNewestFirst ss (place s table) (place-IsNewestFirst s table h)

  older_earlier :
      (k before : ℕ) (inclusive : Bool) (ss : List (Share F))
      → k ≤ before
      → All (λ (t : Share F). t.created < k) ss
      → All (λ t. earlier before inclusive t ≡ true) ss
  older_earlier k before inclusive [] h p = tt
  older_earlier k before true (s ∷ ss) h (p, ps) =
      (le→leb s.created before (omega arith), older_earlier k before true ss h ps)
  older_earlier k before false (s ∷ ss) h (p, ps) =
      (lt→ltb s.created before (omega arith), older_earlier k before false ss h ps)

  reached :
      (before : ℕ) (inclusive : Bool) (s : Share F)
      → earlier before inclusive s ≡ true
      → s.created ≤ before
  reached before true s h = leb→le s.created before h
  reached before false s h = omega (arith, ltb→lt s.created before h)

  not_earlier : (s : Share F) (k : ℕ) → k ≤ s.created → earlier k false s ≡ false
  not_earlier s k h = ground arith

  skip :
      (s : Share F) (ss : List (Share F)) (k : ℕ)
      → k ≤ s.created
      → keep (earlier k false) (s ∷ ss) ≡ keep (earlier k false) ss
  skip s ss k h = rw (not_earlier s k h) refl

  -- A share that is the last of its page: all behind it are in the query, before and after.
  page_end :
      (before : ℕ) (inclusive : Bool) (s : Share F) (ss : List (Share F))
      → All (λ (t : Share F). t.created < s.created) ss
      → earlier before inclusive s ≡ true
      → keep (earlier s.created false) (s ∷ ss) ≡ keep (earlier before inclusive) ss
  page_end before inclusive s ss below h =
      skip s ss s.created (omega arith)
      ∙ keep_every (earlier s.created false) ss
          (older_earlier s.created s.created false ss (omega arith) below)
      ∙ sym (
          keep_every (earlier before inclusive) ss
            (older_earlier s.created before inclusive ss (reached before inclusive s h) below))

  last-lt :
      (before : ℕ) (inclusive : Bool) (s : Share F) (ss page : List (Share F)) (last : Share F)
      (rest : List (Share F))
      → All (λ (t : Share F). t.created < s.created) ss
      → keep (earlier before inclusive) ss ≡ page ++ last ∷ rest
      → last.created ≤ s.created
  last-lt before inclusive s ss page last rest below e = omega (
    arith,
    All-middle (λ (t : Share F). t.created < s.created) page last rest
        (subst (All (λ (t : Share F). t.created < s.created)) e
          (keep-All (λ (t : Share F). t.created < s.created) (earlier before inclusive) ss below)),
  )

  -- The query for what is older than the last share of a page gives what stood behind the page.
  pub keep-earlier_rest :
      (before : ℕ) (inclusive : Bool) (ss page : List (Share F)) (last : Share F)
      (rest : List (Share F))
      → IsStrict ss
      → keep (earlier before inclusive) ss ≡ page ++ last ∷ rest
      → keep (earlier last.created false) ss ≡ rest
  keep-earlier_rest before inclusive [] [] last rest strict e = cc
  keep-earlier_rest before inclusive [] (x ∷ page) last rest strict e = cc
  keep-earlier_rest before inclusive (s ∷ ss) page last rest (below, strict) e =
      elim (Bool-cases (earlier before inclusive s)) [
        | inl h ↦ hit page (keep-earlier_rest before inclusive ss) h (sym (rw h refl) ∙ e)
        | inr h ↦
            let e' : keep (earlier before inclusive) ss ≡ page ++ last ∷ rest =
              sym (rw h refl) ∙ e in
            skip s ss last.created (last-lt before inclusive s ss page last rest below e')
            ∙ keep-earlier_rest before inclusive ss page last rest strict e'
      ]
    where
      hit :
          (page : List (Share F))
          → ((page : List (Share F)) (last : Share F) (rest : List (Share F))
              → IsStrict ss
              → keep (earlier before inclusive) ss ≡ page ++ last ∷ rest
              → keep (earlier last.created false) ss ≡ rest)
          → earlier before inclusive s ≡ true
          → s ∷ keep (earlier before inclusive) ss ≡ page ++ last ∷ rest
          → keep (earlier last.created false) (s ∷ ss) ≡ rest
      hit [] ih h e =
          let same : last ≡ s = cc in
          let behind : keep (earlier before inclusive) ss ≡ rest = cc in
          ap (λ (z : Share F). keep (earlier z.created false) (s ∷ ss)) same
          ∙ page_end before inclusive s ss below h
          ∙ behind
      hit (x ∷ page) ih h e =
          let e' : keep (earlier before inclusive) ss ≡ page ++ last ∷ rest = cc in
          skip s ss last.created (last-lt before inclusive s ss page last rest below e')
          ∙ ih page last rest strict e'
