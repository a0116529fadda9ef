-- ===== src/Payouts/Settled.antt =====
-- A block that is no longer pending is left as it is by every later pass.
use merged_mining_pool.Common.{
  ℕ, zero, suc, ◌≡◌, ◌≢◌, refl, sym, ap, ◌∙◌, inl, inr, Bool, true, false, ◌==◌, none, some, Option,
  List, [], ◌∷◌, map, arith, Bool-cases, get_elem?, All, Bytes, eq_of_bytes_eq,
}
use merged_mining_pool.Rows.{Found, status_pending}
use merged_mining_pool.Storage.{Outage, Amounts, Database, gets, modify, statement, outcome}
use merged_mining_pool.Storage.Blocks.{
  is_pending, updated_row, has_row, rows_affected, update_block,
}
use merged_mining_pool.Payouts.Setup.{PayoutConfig, Remote}
use merged_mining_pool.Payouts.Rounds.{run_pass}
use merged_mining_pool.Payouts.Frames.{
  Frame, Frames, PayoutFrame, tables_frame, >>=-Frames, gets-Frames, statement-Frames,
  modify-Frames,
}
use merged_mining_pool.Payouts.Frames.Passing.{run_pass-related}
use merged_mining_pool.Payouts.Unlocked.{IsRow, IsNumbered, unlock_blocks-IsOther}

module _ {F : Type 0} where
  -- The row at a position stays there.
  unfoldable pub row_stays : (i : ℕ) (r : Found F) → Frame F
  unfolding statement
  row_stays i r = record {
    related = λ d e. IsRow i r d → IsRow i r e;
    stays = λ d h. h;
    follows = λ p q h. q (p h);
    asks = λ d. by_flags d d.outages;
  }
    where
      by_flags : (d : Database F) (o : List Outage) → IsRow i r d → IsRow i r (outcome o d).1
      by_flags d [] h = h
      by_flags d (Outage.fails ∷ o) h = h
      by_flags d (Outage.answers ∷ o) h = h
      by_flags d (Outage.breaks_off n ∷ o) h = h

  row_of_map :
      (f : Found F → Found F) (xs : List (Found F)) (i : ℕ) {r : Found F}
      → f r ≡ r
      → get_elem? xs i ≡ some r
      → get_elem? (map f xs) i ≡ some r
  row_of_map f [] i e h = h
  row_of_map f (x ∷ xs) zero {r} e h = let here : x ≡ r = cc in ap some (ap f here ∙ e ∙ refl)
  row_of_map f (x ∷ xs) (suc i) e h = row_of_map f xs i e h

  not_updated : (b r : Found F) → b.id ≢ r.id → updated_row b r ≡ r
  not_updated b r other = elim (Bool-cases (r.id == b.id)) [
    | inl same ↦ absurd (ground arith)
    | inr e ↦ rw e refl
  ]

  pub rows_affected-Frames : (w : Frame F) (found : Bool) → Frames w (rows_affected {F = F} found)
  rows_affected-Frames w true = record { keeps = w.stays }
  rows_affected-Frames w false = record { keeps = w.stays }

  update_block-stays :
      (i : ℕ) (r b : Found F) → b.id ≢ r.id → Frames (row_stays i r) (update_block b)
  unfolding update_block row_stays
  update_block-stays i r b other = >>=-Frames statement _ statement-Frames λ u.
      >>=-Frames (gets (λ d. has_row b d.blocks)) _ (gets-Frames (λ d. has_row b d.blocks)) λ found.
        >>=-Frames (modify (λ d. record d { blocks = map (updated_row b) d.blocks })) _
          (modify-Frames _ (λ d h. row_of_map (updated_row b) d.blocks i (not_updated b r other) h))
          λ v. rows_affected-Frames (row_stays i r) found

module _ {F : Type 0} (m : Amounts F) (i : ℕ) (r : Found F) where
  row_frame : PayoutFrame m
  unfolding row_stays
  row_frame =
      tables_frame m (row_stays i r) (λ x d h. h) (λ x d h. h) (λ x d h. h) (λ x d h. h)
        (λ x d h. h)

  each_saved :
      (bs : List (Found F))
      → All (λ (b : Found F). b.id ≢ r.id) bs
      → All (λ (b : Found F). Frames (row_stays i r) (update_block b)) bs
  each_saved [] h = tt
  each_saved (b ∷ bs) (h, hs) = (update_block-stays i r b h, each_saved bs hs)

  -- If no two rows of the table of blocks have the same number, a row that is not pending is the
  -- same after any pass of the loop, whatever the nodes answer and whichever statements fail.
  pub run_pass-settled :
      (config : PayoutConfig F) (managers : Bytes → Option (Remote F)) (d : Database F)
      → IsNumbered d
      → IsRow i r d
      → r.status ≢ status_pending
      → IsRow i r (run_pass m config managers d).1
  unfolding row_frame row_stays tables_frame
  run_pass-settled config managers d numbered at settled =
      run_pass-related m row_frame config managers d
        (λ bs e ran.
          each_saved bs (unlock_blocks-IsOther r.id m config.pool_name managers d others ran))
        at
    where
      status_or : Option (Found F) → Bytes
      status_or none = []
      status_or (some b) = b.status

      others : (j : ℕ) (x : Found F) → IsRow j x d → is_pending x ≡ true → x.id ≢ r.id
      others j x at_j pending same =
          let here : i ≡ j = numbered i j r x at at_j (sym same) in
          let one : some r ≡ some x = sym at ∙ ap (get_elem? d.blocks) here ∙ at_j in
          settled (
            ap (λ (o : Option (Found F)). status_or o) one
            ∙ eq_of_bytes_eq x.status status_pending pending)
