-- ===== src/Queue.antt =====
-- hotstuff/consensus/src/import.rs: `PendingFinalizeBlockQueue`, the blocks that wait to be
-- finalized. What the two notification streams have ready when the queue is polled is a list each;
-- a poisoned lock is a flag. Block numbers do not overflow.
pub mod Polling
pub mod Opening
pub mod Filtering
use substrate_hot_stuff.Prelude.{
  ℕ, zero, suc, ◌+◌, ◌-◌, List, [], ◌∷◌, ◌++◌, Bool, true, false, Option, none, some, ltb,
  if◌then◌else◌,
}
use substrate_hot_stuff.Primitives.{
  Hash, BlockNumber, Result, ok, err, panic, exhausted, ◌>>=◌, map_err, client_error, External,
  answered, failed,
}
use substrate_hot_stuff.Environment.{Environment}
use substrate_hot_stuff.Worker.Defs.{BlockInfo}

-- What is read of an import notification.
pub record ImportNotification : Type 0 where
  pub hash : Hash
  pub number : BlockNumber
  pub is_new_best : Bool

module _ (env : Environment) where
  -- The loop of `new` from `block_number` on.
  scan : env.client.State → BlockNumber → ℕ → Result (List (Option Hash × BlockNumber))
  scan s block_number zero = ok []
  scan s block_number (suc n) = do
    block_hash ← map_err client_error (env.client.block_hash_from_id s block_number)
    rest ← scan s (block_number + 1) n
    ok ((block_hash, block_number) ∷ rest)

  -- The list that the loop builds is not the one that is kept.
  unfoldable pub new : env.client.State → Result (List BlockInfo)
  unfolding scan
  new s = do
    let info = env.client.info s
    queue ← scan s (info.finalized_number + 1) (info.best_number - info.finalized_number)
    ok []

-- The loop over the import notifications.
unfoldable pub push_all : List ImportNotification → List BlockInfo → List BlockInfo
push_all [] queue = queue
push_all (n ∷ notifications) queue =
    let info : BlockInfo = record { hash = some n.hash; number = n.number } in
    push_all notifications (if n.is_new_best then queue ++ info ∷ [] else queue)

-- The inner loop: the front is popped until it is above the finalized block.
unfoldable pub pop_finalized : BlockNumber → List BlockInfo → List BlockInfo
pop_finalized finalized_number [] = []
pop_finalized finalized_number (elem ∷ queue) =
    let rest = pop_finalized finalized_number queue in
    if ltb finalized_number elem.number then elem ∷ queue else rest

-- The loop over the finality notifications.
unfoldable pub pop_all : List BlockNumber → List BlockInfo → List BlockInfo
pop_all [] queue = queue
pop_all (n ∷ notifications) queue = pop_all notifications (pop_finalized n queue)

unfoldable pub poll :
    Bool → List ImportNotification → List BlockNumber → List BlockInfo → List BlockInfo
poll poisoned imported finalized queue =
    if poisoned then queue else pop_all finalized (push_all imported queue)
