-- ===== src/Queue/Opening.antt =====
-- import.rs: `PendingFinalizeBlockQueue::new` on a client that answers.
use substrate_hot_stuff.Prelude.{ℕ, zero, suc, ◌+◌, ◌-◌, ◌≡◌, refl, List, [], ◌∷◌, Option}
use substrate_hot_stuff.Primitives.{Hash, BlockNumber, ok, answered}
use substrate_hot_stuff.Environment.{Environment}
use substrate_hot_stuff.Queue.{scan, new}

module _ (env : Environment) where
  -- The client finds the hash of a number, or that there is none.
  abbrev pub Answers : env.client.State → Type 0
  Answers s =
      (n : BlockNumber) → (h : Option Hash) × (env.client.block_hash_from_id s n ≡ answered h)

  scan_returns :
      (s : env.client.State) (from : BlockNumber) (n : ℕ)
      → Answers s
      → (found : List (Option Hash × BlockNumber)) × (scan env s from n ≡ ok found)
  unfolding scan
  scan_returns s from zero answers = ([], refl)
  scan_returns s from (suc n) answers =
      let (h, e) = answers from in
      let (rest, r) = scan_returns s (from + 1) n answers in ((h, from) ∷ rest, rw (e, r) refl)

  pub new_returns : (s : env.client.State) → Answers s → new env s ≡ ok []
  unfolding new
  new_returns s answers =
      let info = env.client.info s in
      let (found, e) =
        scan_returns s (info.finalized_number + 1) (info.best_number - info.finalized_number)
          answers in
      rw e refl
