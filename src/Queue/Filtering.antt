-- ===== src/Queue/Filtering.antt =====
-- import.rs: `PendingFinalizeBlockQueue::poll` on blocks in the order of their numbers.
use substrate_hot_stuff.Prelude.{
  ◌<◌, ◌≤◌, ◌≡◌, refl, sym, ◌∙◌, ap, List, [], ◌∷◌, ◌++◌, Bool, true, false, ◌&&◌, All, ltb,
  if◌then◌else◌, arith, Bool-cases, inl, inr,
}
use substrate_hot_stuff.Primitives.{BlockNumber}
use substrate_hot_stuff.Worker.Defs.{BlockInfo}
use substrate_hot_stuff.Queue.{ImportNotification, pop_finalized, pop_all, poll}
use substrate_hot_stuff.Queue.Polling.{best_blocks, push_all-append}

-- The blocks that pass a test.
abbrev pub filter : (BlockInfo → Bool) → List BlockInfo → List BlockInfo
filter f [] = []
filter f (b ∷ blocks) = let rest = filter f blocks in if f b then b ∷ rest else rest

-- Above each of the finalized numbers.
abbrev pub is_pending : List BlockNumber → BlockInfo → Bool
is_pending [] b = true
is_pending (n ∷ finalized) b = ltb n b.number && is_pending finalized b

-- No block is below one before it.
abbrev pub IsAscending : List BlockInfo → Type 0
IsAscending [] = Unit
IsAscending (b ∷ blocks) = All (λ (c : BlockInfo). b.number ≤ c.number) blocks × IsAscending blocks

all_above :
    (n : BlockNumber) (b : BlockInfo) (blocks : List BlockInfo)
    → n < b.number
    → All (λ (c : BlockInfo). b.number ≤ c.number) blocks
    → filter (λ c. ltb n c.number) blocks ≡ blocks
all_above n b [] above h = refl
all_above n b (c ∷ blocks) above h =
    let rest = all_above n b blocks above h.1 in ground (arith, h.0, rest)

pop_finalized-filter :
    (n : BlockNumber) (queue : List BlockInfo)
    → IsAscending queue
    → pop_finalized n queue ≡ filter (λ b. ltb n b.number) queue
unfolding pop_finalized
pop_finalized-filter n [] h = refl
pop_finalized-filter n (b ∷ queue) h = elim (Bool-cases (ltb n b.number)) [
  | inl above ↦ rw above (ap (λ q. b ∷ q) (sym (all_above n b queue (ground (arith, above)) h.0)))
  | inr below ↦ rw below (pop_finalized-filter n queue h.1)
]

All-filter :
    (P : BlockInfo → Type 0) (f : BlockInfo → Bool) (blocks : List BlockInfo)
    → All P blocks
    → All P (filter f blocks)
All-filter P f [] h = tt
All-filter P f (b ∷ blocks) h = elim (Bool-cases (f b)) [
  | inl kept ↦ rw kept (h.0, All-filter P f blocks h.1)
  | inr dropped ↦ rw dropped (All-filter P f blocks h.1)
]

IsAscending-filter :
    (f : BlockInfo → Bool) (blocks : List BlockInfo)
    → IsAscending blocks
    → IsAscending (filter f blocks)
IsAscending-filter f [] h = tt
IsAscending-filter f (b ∷ blocks) h = elim (Bool-cases (f b)) [
  | inl kept ↦ rw kept (All-filter _ f blocks h.0, IsAscending-filter f blocks h.1)
  | inr dropped ↦ rw dropped (IsAscending-filter f blocks h.1)
]

filter_both :
    (f g : BlockInfo → Bool) (blocks : List BlockInfo)
    → filter f (filter g blocks) ≡ filter (λ b. g b && f b) blocks
filter_both f g [] = refl
filter_both f g (b ∷ blocks) = elim (Bool-cases (g b)) [
  | inl kept ↦ elim (Bool-cases (f b)) [
    | inl too ↦ rw (kept, too) (ap (λ q. b ∷ q) (filter_both f g blocks))
    | inr gone ↦ rw (kept, gone) (filter_both f g blocks)
  ]
  | inr dropped ↦ rw dropped (filter_both f g blocks)
]

filter_all : (blocks : List BlockInfo) → filter (λ b. true) blocks ≡ blocks
filter_all [] = refl
filter_all (b ∷ blocks) = ap (λ q. b ∷ q) (filter_all blocks)

pop_all-filter :
    (finalized : List BlockNumber) (queue : List BlockInfo)
    → IsAscending queue
    → pop_all finalized queue ≡ filter (is_pending finalized) queue
unfolding pop_all
pop_all-filter [] queue h = sym (filter_all queue)
pop_all-filter (n ∷ finalized) queue h =
    let first = pop_finalized-filter n queue h in
    let then_all =
      pop_all-filter finalized (filter (λ b. ltb n b.number) queue)
        (IsAscending-filter _ queue h) in
    ap (pop_all finalized) first
    ∙ then_all
    ∙ filter_both (is_pending finalized) (λ b. ltb n b.number) queue

-- A poll is a filter. If the blocks of the queue and the new best ones are in the order of their
-- numbers, then a poll, though it only pops at the front, leaves those that are above every
-- number that was finalized, in the same order. The lock must not be poisoned.
pub poll-filter :
    (imported : List ImportNotification) (finalized : List BlockNumber) (queue : List BlockInfo)
    → IsAscending (queue ++ best_blocks imported)
    → poll false imported finalized queue
      ≡ filter (is_pending finalized) (queue ++ best_blocks imported)
unfolding poll
poll-filter imported finalized queue h =
    ap (pop_all finalized) (push_all-append imported queue)
    ∙ pop_all-filter finalized (queue ++ best_blocks imported) h
