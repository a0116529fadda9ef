-- ===== src/Intake/Credit.antt =====
-- Which shares are credited.
use merged_mining_pool.Common.{
  ℕ, ◌≡◌, refl, ◌≢◌, ◌⊎◌, inl, inr, [], ◌∷◌, ◌++◌, Result, ok, err, panic, >>=-eq-ok,
}
use merged_mining_pool.Crypto.{Crypto}
use merged_mining_pool.Target.{Floats}
use merged_mining_pool.Block.{BitcoinBlock, Work}
use merged_mining_pool.Share.{ShareStatus, share_invalid, share_valid, share_candidate}
use merged_mining_pool.Intake.{
  StratumClient, Config, Intake, Nodes, Judged, judge_work, share_of, submitted_blocks, with_blocks,
  submit_candidates, or_kept, credit, settle, settled, recieve_work_from_client,
}

module _ {F B : Type 0} (c : Crypto) (f : Floats F B) (nodes : Nodes) (now : ℕ) (config : Config F)
    (client : StratumClient) where
  -- A share was judged, not found invalid, and put behind the buffer.
  abbrev pub Credits : Result (Judged F) → Intake F → Intake F → Type 0
  Credits judged s s' =
      (j : Judged F) × (judged ≡ ok j)
      × (j.status ≢ share_invalid)
      × (s'.share_buffer ≡ s.share_buffer ++ share_of c f nodes now config client j ∷ [])

  pub kept_buffer :
      (s : Intake F) (r : Result (Intake F))
      → ((s' : Intake F) → r ≡ ok s' → s'.share_buffer ≡ s.share_buffer)
      → (or_kept c f nodes now s r).0.share_buffer ≡ s.share_buffer
  kept_buffer s (ok s') h = h s' refl
  kept_buffer s (err e) h = refl
  kept_buffer s panic h = refl

  pub submit_candidates-buffer :
      (j : Judged F) (s s' : Intake F)
      → submit_candidates c f nodes now config j s ≡ ok s'
      → s'.share_buffer ≡ s.share_buffer
  unfolding submit_candidates
  submit_candidates-buffer j s s' e =
      let (blocks, _, kept) =
        >>=-eq-ok (submitted_blocks c f nodes now config j s.blocks) (with_blocks c f nodes now s)
          e in
      cc

  settle-Credits :
      (status : ShareStatus) (j : Judged F) (s : Intake F)
      → j.status ≡ status
      → let (s', r) = settle c f nodes now status config client j s in
        ((s' ≡ s) × (r ≢ ok tt)) ⊎ Credits (ok j) s s'
  unfolding credit
  settle-Credits share_invalid j s e = inl (refl, λ p. cc)
  settle-Credits share_valid j s e = inr (j, refl, λ p. cc, refl)
  settle-Credits share_candidate j s e = inr (
    j,
    refl,
    λ p. cc,
    kept_buffer (credit c f nodes now config client j s) _
        (submit_candidates-buffer j (credit c f nodes now config client j s)),
  )

  -- Whatever a client sends, one of two things happens: nothing changes and the handler does not
  -- succeed; or the share is judged, not invalid, and stands once behind the buffered shares, also
  -- when the submission of its block is refused.
  pub recieve_work_from_client-Credits :
      (primary : BitcoinBlock) (share : Work) (s : Intake F)
      → let (s', r) = recieve_work_from_client c f nodes now config primary share client s in
        ((s' ≡ s) × (r ≢ ok tt))
        ⊎ Credits (judge_work c f nodes now config primary share client) s s'
  unfolding recieve_work_from_client
  recieve_work_from_client-Credits primary share s =
      cases (judge_work c f nodes now config primary share client)
    where
      cases :
          (judged : Result (Judged F))
          → let (s', r) = settled c f nodes now config client s judged in
            ((s' ≡ s) × (r ≢ ok tt)) ⊎ Credits judged s s'
      cases (ok j) = settle-Credits j.status j s refl
      cases (err e) = inl (refl, λ p. cc)
      cases panic = inl (refl, λ p. cc)
