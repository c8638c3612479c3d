-- ===== src/Pallet/Slots.antt =====
-- The slots of a chain of blocks, and the authors of the slots.
use substrate_hot_stuff.Prelude.{
  ℕ, ◌==◌, refl, subst, ◌+◌, ◌%◌, ◌^◌, ◌<◌, ◌≤◌, ◌≡◌, List, [], ◌∷◌, true, false, Option, none,
  some, length, if◌then◌else◌, arith, Bool-cases, Option-cases, ◌⊎◌, inl, inr,
}
use substrate_hot_stuff.Primitives.{
  Bytes, AuthorityId, Result, ok, err, panic, exhausted, u64_mod, answered,
}
use substrate_hot_stuff.Pallet.{
  pre_runtime, consensus, seal, another, authorities, Slot, DigestItem, Config, Runtime, slot_of,
  current_slot_from_digests, check_author, new_slot_allowed, enter_slot, on_initialize,
  do_try_state, check_state, find_author, author_of,
}

-- The pre-runtime items of a digest, in order: pairs of an engine and bytes.
abbrev pub pre_runtimes : List DigestItem → List (ℕ × Bytes)
pre_runtimes [] = []
pre_runtimes (pre_runtime id bytes ∷ items) = (id, bytes) ∷ pre_runtimes items
pre_runtimes (_ ∷ items) = pre_runtimes items

module _ (config : Config) where
  -- A block begins with its digest, and is refused if `on_initialize` panics.
  abbrev pub begin : Runtime → List DigestItem → Result (Unit {0}) × Runtime
  begin r digest = on_initialize config (record r { logs = digest })

  abbrev cons_slot : Option Slot → List Slot → List Slot
  cons_slot none slots = slots
  cons_slot (some slot) slots = slot ∷ slots

  abbrev next_slots : Result (Unit {0}) → Option Slot → List Slot → List Slot
  next_slots (ok _) slot slots = cons_slot slot slots
  next_slots _ slot slots = []

  -- The slots of a chain of blocks, up to the first block that is refused.
  abbrev pub slots_of : Runtime → List (List DigestItem) → List Slot
  slots_of r [] = []
  slots_of r (digest ∷ blocks) =
      next_slots (begin r digest).0 (slot_of config digest) (slots_of (begin r digest).1 blocks)

  -- How much a slot must be above the one before.
  abbrev pub gap : ℕ
  gap = if config.allow_multiple_blocks_per_slot then 0 else 1

  abbrev pub Ascends : Slot → List Slot → Type 0
  Ascends low [] = Unit
  Ascends low (slot ∷ slots) = (low + gap ≤ slot) × Ascends slot slots

  -- One block: no slot and the state is kept, or the slot is far enough above the current one and
  -- becomes it, or the block is refused.
  begin_cases :
      (r : Runtime) (digest : List DigestItem)
      → ((slot_of config digest ≡ none) × ((begin r digest).1.current_slot ≡ r.current_slot))
        ⊎ (((begin r digest).0 ≡ panic)
            ⊎ ((slot : Slot) × (slot_of config digest ≡ some slot)
                × (r.current_slot + gap ≤ slot)
                × ((begin r digest).1.current_slot ≡ slot)))
  unfolding on_initialize current_slot_from_digests enter_slot new_slot_allowed
  begin_cases r digest = elim (Option-cases (slot_of config digest)) [
    | inl e ↦ inl (e, rw e)
    | inr (slot, e) ↦ elim (Bool-cases (new_slot_allowed config r.current_slot slot)) [
      | inl fits ↦ inr (inr (slot, e, ground arith, rw e (ground arith)))
      | inr small ↦ inr (inl (rw e (ground arith)))
    ]
  ]

  -- Along any chain of blocks, up to the first that `on_initialize` refuses, the slots never fall,
  -- and each is above the one before it if a slot may have one block only. The current slot of the
  -- start counts as the first.
  pub slots_of-Ascends :
      (r : Runtime) (blocks : List (List DigestItem)) → Ascends r.current_slot (slots_of r blocks)
  slots_of-Ascends r [] = tt
  slots_of-Ascends r (digest ∷ blocks) =
      let rest = slots_of-Ascends (begin r digest).1 blocks in
      elim (begin_cases r digest) [
        | inl (none_here, same) ↦ rw none_here (
            skipped r.current_slot _ (begin r digest).0
              (subst (λ s. Ascends s (slots_of (begin r digest).1 blocks)) same rest))
        | inr (inl refused) ↦ rw refused tt
        | inr (inr (slot, e, above, same)) ↦ rw e (
            taken r.current_slot _ slot (begin r digest).0 above
              (subst (λ s. Ascends s (slots_of (begin r digest).1 blocks)) same rest))
      ]
    where
      skipped :
          (low : Slot) (slots : List Slot) (x : Result (Unit {0}))
          → Ascends low slots
          → Ascends low (next_slots x none slots)
      skipped low slots (ok _) a = a
      skipped low slots (err e) a = tt
      skipped low slots panic a = tt
      skipped low slots exhausted a = tt

      taken :
          (low : Slot) (slots : List Slot) (slot : Slot) (x : Result (Unit {0}))
          → low + gap ≤ slot
          → Ascends slot slots
          → Ascends low (next_slots x (some slot) slots)
      taken low slots slot (ok _) h a = (h, a)
      taken low slots slot (err e) h a = tt
      taken low slots slot panic h a = tt
      taken low slots slot exhausted h a = tt

  -- A block with a slot that is accepted passes the check of its author.
  entered :
      (r : Runtime) (slot : Slot) (xs : List AuthorityId)
      → r.stored_authorities ≡ some xs
      → current_slot_from_digests config r ≡ some slot
      → (on_initialize config r).0 ≡ ok tt
      → (check_author config slot (some (length xs)) ≡ ok tt)
        × ((on_initialize config r).1 ≡ record r { current_slot = slot })
  unfolding on_initialize enter_slot
  entered r slot xs stored e accepted = ground arith

  -- `find_author` and `on_initialize` read the same slot of a digest.
  find_author-slot_of :
      (items : List DigestItem) (r : Runtime)
      → find_author config (pre_runtimes items) r
        ≡ author_of config (slot_of config items) (length (authorities r))
  unfolding find_author slot_of author_of
  find_author-slot_of [] r = refl
  find_author-slot_of (pre_runtime id bytes ∷ items) r =
      elim (Bool-cases (id == config.engine_id)) [
        | inl own ↦ rw own refl
        | inr foreign ↦ rw foreign (find_author-slot_of items r)
      ]
  find_author-slot_of (consensus id bytes ∷ items) r = find_author-slot_of items r
  find_author-slot_of (seal id bytes ∷ items) r = find_author-slot_of items r
  find_author-slot_of (another ∷ items) r = find_author-slot_of items r

  -- After `on_initialize` has accepted a block with a slot and with stored authorities, `find_author` on
  -- the pre-runtime items of the block's digest, whatever other items and engines are among them,
  -- answers with the slot modulo the number of the authorities, and that author is not disabled.
  pub on_initialize-find_author :
      (r : Runtime) (slot : Slot) (xs : List AuthorityId)
      → r.stored_authorities ≡ some xs
      → current_slot_from_digests config r ≡ some slot
      → (on_initialize config r).0 ≡ ok tt
      → (find_author config (pre_runtimes r.logs) (on_initialize config r).1
          ≡ ok (some (slot % length xs % 2 ^ 32)))
        × (config.is_disabled (slot % length xs % 2 ^ 32) ≡ false)
  unfolding check_author current_slot_from_digests author_of
  on_initialize-find_author r slot xs stored e accepted =
      let (checked, after) = entered r slot xs stored e accepted in
      let read = find_author-slot_of r.logs (record r { current_slot = slot }) in
      rw after (ground (arith, checked, read, e, stored))

  -- After `on_initialize` has accepted a block with a slot, with stored authorities, and with a slot
  -- below the last u64 or several blocks allowed in a slot, `do_try_state` finds nothing wrong.
  pub on_initialize-do_try_state :
      (r : Runtime) (slot : Slot) (xs : List AuthorityId)
      → r.stored_authorities ≡ some xs
      → current_slot_from_digests config r ≡ some slot
      → (config.allow_multiple_blocks_per_slot ≡ true) ⊎ (slot + 1 < u64_mod)
      → (on_initialize config r).0 ≡ ok tt
      → do_try_state config (on_initialize config r).1 ≡ answered tt
  unfolding current_slot_from_digests check_author do_try_state check_state
  on_initialize-do_try_state r slot xs stored e room accepted =
      let (checked, after) = entered r slot xs stored e accepted in
      rw (after, e) (ground (arith, checked, room))
