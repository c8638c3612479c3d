-- ===== src/Worker/Payloads/Choice.antt =====
-- consensus.rs, `get_proposal_payload`: where the payload of a proposal comes from.
use substrate_hot_stuff.Prelude.{
  subst, ◌<◌, ◌≡◌, refl, ap, List, [], ◌∷◌, ◌++◌, Bool, true, Option, none, some, find, ltb, arith,
  ◌⊎◌, inl, inr, Bool-cases, Option-cases,
}
use substrate_hot_stuff.Primitives.{Hash, BlockNumber}
use substrate_hot_stuff.Crypto.{Crypto}
use substrate_hot_stuff.Message.Payload.{Payload}
use substrate_hot_stuff.Worker.Defs.{BlockInfo, Worker, empty_payload_hash}
use substrate_hot_stuff.Worker.Payloads.{unwrap_or, choose_payload, get_proposal_payload}

-- The block stands in the queue.
abbrev pub IsIn : BlockInfo → List BlockInfo → Type 0
IsIn b queue = (before : List BlockInfo) × (after : List BlockInfo) × (queue ≡ before ++ b ∷ after)

find_sound :
    (p : BlockInfo → Bool) (queue : List BlockInfo) (b : BlockInfo)
    → find p queue ≡ some b
    → IsIn b queue × (p b ≡ true)
find_sound p [] b e = absurd (ground arith)
find_sound p (c ∷ queue) b e = elim (Bool-cases (p c)) [
  | inl hit ↦
      let same : c ≡ b = ground (arith, rw hit at e) in
      (([], queue, ap (λ x. x ∷ queue) same), subst (λ x. p x ≡ true) same hit)
  | inr miss ↦
      let ((before, after, split), good) = find_sound p queue b (rw miss at e) in
      ((c ∷ before, after, ap (λ q. c ∷ q) split), good)
]

-- What the choice may be: nothing new of the block in process, or a block of the queue, which is in
-- process from now on.
abbrev pub Chosen :
    Hash → BlockNumber → List BlockInfo → Option BlockInfo → Option BlockInfo → Payload → Type 0
Chosen empty finalized_number queue processing next payload =
    ((b : BlockInfo) × (processing ≡ some b)
      × (next ≡ some b)
      × (payload ≡ record { block_hash = empty; block_number = b.number }))
    ⊎ ((b : BlockInfo) × IsIn b queue
        × (next ≡ some b)
        × (payload ≡ record { block_hash = unwrap_or b.hash empty; block_number = b.number })
        × ((processing ≡ none) ⊎ (finalized_number < b.number)))

choose_payload-Chosen :
    (empty : Hash) (finalized_number : BlockNumber) (queue : List BlockInfo)
    (processing : Option BlockInfo) (payload : Payload)
    → (choose_payload empty finalized_number queue processing).1 ≡ some payload
    → Chosen empty finalized_number queue processing
        (choose_payload empty finalized_number queue processing).0
        payload
unfolding choose_payload
choose_payload-Chosen empty n [] none payload e = absurd (ground arith)
choose_payload-Chosen empty n (b ∷ queue) none payload e =
    inr (b, ([], queue, refl), refl, ground arith, inl refl)
choose_payload-Chosen empty n queue (some b) payload e = elim (Bool-cases (ltb n b.number)) [
  | inl busy ↦ inl (b, refl, rw busy refl, ground arith)
  | inr over ↦ elim (Option-cases (find (λ x. ltb n x.number) queue)) [
    | inl missing ↦ inl (b, refl, rw (over, missing) refl, ground arith)
    | inr (c, found) ↦
        let (place, above) = find_sound (λ x. ltb n x.number) queue c found in
        inr (c, place, rw (over, found) refl, ground arith, inr (ground arith))
  ]
]

-- A payload that `get_proposal_payload` returns, with the finalized number, is of one of two kinds:
-- the empty payload with the number of the block in process, which stays in process; or a block of
-- the queue, which is in process from then on, and which is above the finalized number unless no
-- block was in process.
pub get_proposal_payload-Chosen :
    {Chain : Type 0} (c : Crypto) (finalized_number : BlockNumber) (w : Worker Chain)
    (payload : Payload)
    → (get_proposal_payload c finalized_number w).0 ≡ some payload
    → Chosen
        (empty_payload_hash c)
        finalized_number
        w.pending_finalize_queue
        w.processing_block
        (get_proposal_payload c finalized_number w).1.processing_block
        payload
unfolding get_proposal_payload
get_proposal_payload-Chosen c n w payload e = elim (Bool-cases w.queue_poisoned) [
  | inl bad ↦ absurd (ground (arith, rw bad at e))
  | inr good ↦ rw good (
      choose_payload-Chosen (empty_payload_hash c) n w.pending_finalize_queue w.processing_block
        payload (rw good at e))
]
