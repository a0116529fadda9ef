-- ===== src/Server/Fresh.antt =====
-- No extranonce is handed out twice.
use merged_mining_pool.Common.{
  ℕ, zero, suc, ◌+◌, ◌<◌, ◌≡◌, refl, sym, ap, ◌∙◌, inl, inr, false, List, [], ◌∷◌, arith,
  Bool-cases, length, get_elem?-some, ok, Bytes,
}
use merged_mining_pool.Server.{is_used, random_hex, unique_extranonce, chars}

-- No text stands twice in the list.
abbrev pub IsFresh : List Bytes → Type 0
IsFresh [] = Unit
IsFresh (e ∷ used) = (is_used e used ≡ false) × IsFresh used

-- Where the text that is drawn after `k` others begins.
abbrev pub draw_at : ℕ → ℕ → ℕ → ℕ
draw_at strlen from zero = from
draw_at strlen from (suc k) = draw_at strlen (from + strlen) k

module _ (intn : ℕ → ℕ) (in_range : (i : ℕ) → intn i < 16) where
  -- A text of the length asked for.
  random_hex-ok :
      (from strlen : ℕ) → (e : Bytes) × (random_hex intn from strlen ≡ ok e) × (length e ≡ strlen)
  unfolding random_hex
  random_hex-ok from zero = ([], refl, refl)
  random_hex-ok from (suc strlen) =
      let (char, at) = get_elem?-some chars (intn from) (in_range from) in
      let (rest, drawn, n) = random_hex-ok (from + 1) strlen in
      (char ∷ rest, rw (at, drawn) refl, ap suc n)

  -- Given calls of `rand.Intn` that stay below 16, and one of the first texts drawn that is not in
  -- use: the search ends, with a text of the length asked for that was not in use and is from then on,
  -- so the texts in use stay different.
  pub unique_extranonce-IsFresh :
      (strlen rounds from k : ℕ) (used : List Bytes) (free : Bytes)
      → k < rounds
      → random_hex intn (draw_at strlen from k) strlen ≡ ok free
      → is_used free used ≡ false
      → IsFresh used
      → (e : Bytes) × (unique_extranonce intn strlen rounds from used ≡ ok (e, e ∷ used))
        × (length e ≡ strlen)
        × IsFresh (e ∷ used)
  unfolding unique_extranonce
  unique_extranonce-IsFresh strlen zero from k used free h drawn unused fresh = absurd (omega arith)
  unique_extranonce-IsFresh strlen (suc rounds) from zero used free h drawn unused fresh =
      (free, rw (drawn, unused) refl, right_length, (unused, fresh))
    where
      right_length : length free ≡ strlen
      right_length =
          let (e, got, n) = random_hex-ok from strlen in
          let same : e ≡ free = cc in ap length (sym same) ∙ n
  unique_extranonce-IsFresh strlen (suc rounds) from (suc k) used free h drawn unused fresh =
      let (e, got, n) = random_hex-ok from strlen in
      elim (Bool-cases (is_used e used)) [
        | inr new ↦ (e, rw (got, new) refl, n, (new, fresh))
        | inl taken ↦
            let (e', found, n', fresh') =
              unique_extranonce-IsFresh strlen rounds (from + strlen) k used free (omega arith)
                drawn unused fresh in
            (e', rw (got, taken) found, n', fresh')
      ]
