-- ===== src/Queue/Polling.antt =====
-- import.rs: what a poll does to the queue.
use Prim.Native.Nat.{max}
use mathlib.Core.List.{append-nil, append_assoc}
use substrate_hot_stuff.Prelude.{
  All-append, ◌<◌, ◌≤◌, ◌≡◌, refl, sym, ◌∙◌, ap, List, [], ◌∷◌, ◌++◌, false, some, All, ltb,
  if◌then◌else◌, arith, Bool-cases, inl, inr,
}
use substrate_hot_stuff.Primitives.{BlockNumber}
use substrate_hot_stuff.Worker.Defs.{BlockInfo}
use substrate_hot_stuff.Queue.{ImportNotification, push_all, pop_finalized, pop_all, poll}

-- The blocks of the notifications that are a new best, in order.
abbrev pub best_blocks : List ImportNotification → List BlockInfo
best_blocks [] = []
best_blocks (n ∷ notifications) =
    let rest = best_blocks notifications in
    let info : BlockInfo = record { hash = some n.hash; number = n.number } in
    if n.is_new_best then info ∷ rest else rest

-- The highest of the finalized numbers, or 0.
abbrev pub highest : List BlockNumber → BlockNumber
highest [] = 0
highest (n ∷ ns) = max n (highest ns)

-- The front of the queue, if any, is above the number.
abbrev pub FrontAbove : BlockNumber → List BlockInfo → Type 0
FrontAbove n [] = Unit
FrontAbove n (b ∷ queue) = n < b.number

pub push_all-append :
    (ns : List ImportNotification) (queue : List BlockInfo)
    → push_all ns queue ≡ queue ++ best_blocks ns
unfolding push_all
push_all-append [] queue = sym (append-nil queue)
push_all-append (n ∷ ns) queue = elim (Bool-cases n.is_new_best) [
  | inl best ↦ rw best (
      push_all-append ns (queue ++ record { hash = some n.hash; number = n.number } ∷ [])
      ∙ append_assoc queue (record { hash = some n.hash; number = n.number } ∷ []) (best_blocks ns))
  | inr other ↦ rw other (push_all-append ns queue)
]

-- What is gone from the queue, all of it at the number or below.
abbrev pub Removed : BlockNumber → List BlockInfo → List BlockInfo → Type 0
Removed n before after =
    (gone : List BlockInfo) × (before ≡ gone ++ after) × All (λ (b : BlockInfo). b.number ≤ n) gone

pop_finalized-Removed :
    (n : BlockNumber) (queue : List BlockInfo) → Removed n queue (pop_finalized n queue)
unfolding pop_finalized
pop_finalized-Removed n [] = ([], refl, tt)
pop_finalized-Removed n (b ∷ queue) = elim (Bool-cases (ltb n b.number)) [
  | inl above ↦ rw above ([], refl, tt)
  | inr below ↦
      let (gone, e, all) = pop_finalized-Removed n queue in
      rw below (b ∷ gone, ap (λ q. b ∷ q) e, (ground arith, all))
]

pop_finalized-FrontAbove :
    (n : BlockNumber) (queue : List BlockInfo) → FrontAbove n (pop_finalized n queue)
unfolding pop_finalized
pop_finalized-FrontAbove n [] = tt
pop_finalized-FrontAbove n (b ∷ queue) = elim (Bool-cases (ltb n b.number)) [
  | inl above ↦ rw above (ground arith)
  | inr below ↦ rw below (pop_finalized-FrontAbove n queue)
]

All-weaken :
    (m n : BlockNumber) (bs : List BlockInfo)
    → m ≤ n
    → All (λ (b : BlockInfo). b.number ≤ m) bs
    → All (λ (b : BlockInfo). b.number ≤ n) bs
All-weaken m n [] h a = tt
All-weaken m n (b ∷ bs) h a = (omega (arith, a.0), All-weaken m n bs h a.1)

pop_all-Removed :
    (ns : List BlockNumber) (queue : List BlockInfo) → Removed (highest ns) queue (pop_all ns queue)
unfolding pop_all
pop_all-Removed [] queue = ([], refl, tt)
pop_all-Removed (n ∷ ns) queue =
    let (first, e, a) = pop_finalized-Removed n queue in
    let (then_gone, f, b) = pop_all-Removed ns (pop_finalized n queue) in
    (
      first ++ then_gone,
      e ∙ ap (λ q. first ++ q) f ∙ sym (append_assoc first then_gone _),
      All-append (λ (b : BlockInfo). b.number ≤ highest (n ∷ ns)) first then_gone
          (All-weaken n _ first (omega arith) a)
          (All-weaken (highest ns) _ then_gone (omega arith) b),
    )

-- Later notifications leave the front above an earlier one.
FrontAbove-pop_finalized :
    (m n : BlockNumber) (queue : List BlockInfo)
    → FrontAbove m queue
    → FrontAbove m (pop_finalized n queue)
unfolding pop_finalized
FrontAbove-pop_finalized m n [] h = tt
FrontAbove-pop_finalized m n (b ∷ queue) h = elim (Bool-cases (ltb n b.number)) [
  | inl above ↦ rw above h
  | inr below ↦ rw below (
      lower (pop_finalized n queue) (omega (arith, h, not_above below))
        (pop_finalized-FrontAbove n queue))
]
  where
    not_above : ltb n b.number ≡ false → b.number ≤ n
    not_above e = ground arith

    lower : (q : List BlockInfo) → m ≤ n → FrontAbove n q → FrontAbove m q
    lower [] le a = tt
    lower (c ∷ q) le a = omega (arith, a)

FrontAbove-pop_all :
    (m : BlockNumber) (ns : List BlockNumber) (queue : List BlockInfo)
    → FrontAbove m queue
    → FrontAbove m (pop_all ns queue)
unfolding pop_all
FrontAbove-pop_all m [] queue h = h
FrontAbove-pop_all m (n ∷ ns) queue h =
    FrontAbove-pop_all m ns (pop_finalized n queue) (FrontAbove-pop_finalized m n queue h)

pop_all-FrontAbove :
    (ns : List BlockNumber) (queue : List BlockInfo) → All (λ n. FrontAbove n (pop_all ns queue)) ns
unfolding pop_all
pop_all-FrontAbove [] queue = tt
pop_all-FrontAbove (n ∷ ns) queue = (
  FrontAbove-pop_all n ns (pop_finalized n queue) (pop_finalized-FrontAbove n queue),
  pop_all-FrontAbove ns (pop_finalized n queue),
)

-- A poll, with the lock not poisoned, appends the blocks that became the best, in order, and takes
-- away from the front blocks at or below the highest finalized number, no others; and the front that
-- is left, if any, is above every finalized number of the poll.
poll-Removed :
    (imported : List ImportNotification) (finalized : List BlockNumber) (queue : List BlockInfo)
    → Removed
        (highest finalized)
        (queue ++ best_blocks imported)
        (poll false imported finalized queue)
      × All (λ n. FrontAbove n (poll false imported finalized queue)) finalized
unfolding poll
poll-Removed imported finalized queue = rw (push_all-append imported queue) (
  pop_all-Removed finalized (queue ++ best_blocks imported),
  pop_all-FrontAbove finalized (queue ++ best_blocks imported),
)
