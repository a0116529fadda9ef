-- ===== src/Server.antt =====
-- pool/buffer.go and pool/extraNonce.go. The shares that are credited wait in a buffer for the
-- goroutine that writes them to the database.
pub mod Conserved
pub mod Fresh
use merged_mining_pool.Common.{
  ℕ, zero, suc, ◌+◌, ◌≡◌, Bool, true, false, ◌||◌, Option, none, some, List, [], ◌∷◌, ◌++◌,
  if◌then◌else◌, get_elem?, Error, Result, ok, err, panic, ◌>>=◌, or_panic, Bytes, codes, bytes_eq,
}
use merged_mining_pool.Rows.{Share}
use merged_mining_pool.Storage.{Outage, Database}
use merged_mining_pool.Storage.Shares.{insert_batch}

-- `to_write` is the variable `sharesToWrite` of the goroutine, from the taking of the buffer to the
-- end of the round.
pub record Server (F : Type 0) : Type 0 where
  pub share_buffer : List (Share F)
  pub to_write : Option (List (Share F))
  pub database : Database F

module _ {F : Type 0} where
  -- Under the lock.
  unfoldable pub take_buffer : Server F → Server F
  take_buffer s = record s { to_write = some s.share_buffer; share_buffer = [] }

  -- What is not written goes back behind what has come since.
  abbrev pub written : List (Share F) → Server F → Result (Unit {0}) × Database F → Server F
  written shares s (ok u, d) = record s { to_write = none; database = d }
  written shares s (err e, d) = record s {
    to_write = none;
    share_buffer = s.share_buffer ++ shares;
    database = d;
  }
  written shares s (panic, d) = record s { database = d }

  unfoldable pub write_shares : List (Share F) → Server F → Server F
  write_shares shares s = written shares s (insert_batch shares s.database)

-- The steps of the server, with the shares that they credit. The buffer is taken when the last
-- round has ended; shares are credited at any time; statements may come to fail.
pub data Step {F : Type 0} : List (Share F) → Server F → Server F → Type 0 where
  credits :
      (share : Share F) (s : Server F)
      → Step (share ∷ []) s (record s { share_buffer = s.share_buffer ++ share ∷ [] })
  takes : (s : Server F) → s.to_write ≡ none → Step [] s (take_buffer s)
  writes :
      (shares : List (Share F)) (s : Server F)
      → s.to_write ≡ some shares
      → Step [] s (write_shares shares s)
  fails :
      (outages : List Outage) (s : Server F)
      → Step [] s (record s { database = record s.database { outages = outages } })

pub data Steps {F : Type 0} : List (Share F) → Server F → Server F → Type 0 where
  done : (s : Server F) → Steps [] s s
  then_step :
      {new later : List (Share F)} {s t u : Server F}
      → Step new s t
      → Steps later t u
      → Steps (new ++ later) s u

-- `extranonces`, the last one in front.
abbrev pub is_used : Bytes → List Bytes → Bool
is_used e [] = false
is_used e (u ∷ used) = bytes_eq u e || is_used e used

abbrev chars : Bytes
chars = codes "0123456789abcdef"

-- `intn i` is what the i-th call of `rand.Intn` returns.
module _ (intn : ℕ → ℕ) where
  unfoldable pub random_hex : ℕ → ℕ → Result Bytes
  random_hex from zero = ok []
  random_hex from (suc strlen) = do
    char ← or_panic (get_elem? chars (intn from))
    rest ← random_hex (from + 1) strlen
    ok (char ∷ rest)

  -- The extranonce, and those in use from then on. The source has no bound on the rounds.
  unfoldable pub unique_extranonce : ℕ → ℕ → ℕ → List Bytes → Result (Bytes × List Bytes)
  unique_extranonce length zero from used = panic
  unique_extranonce length (suc rounds) from used = do
    extranonce ← random_hex from length
    let again = unique_extranonce length rounds (from + length) used
    if is_used extranonce used then again else ok (extranonce, extranonce ∷ used)
