-- ===== src/Examples/Chain.antt =====
-- The parts around the consensus: the queue of blocks, the network task, the genesis authorities
-- and the pallet.
use substrate_hot_stuff.Prelude.{
  ℕ, ◌+◌, ◌≤◌, ◌≡◌, refl, ◌↔◌, inr, List, [], ◌∷◌, Bool, true, false, Option, none, some, length,
  ◌==◌, arith,
}
use substrate_hot_stuff.Primitives.{Bytes, ok, answered, AuthorityList}
use substrate_hot_stuff.Message.Quorum.{ids}
use substrate_hot_stuff.Worker.Defs.{BlockInfo}
use substrate_hot_stuff.Queue.{ImportNotification}
use substrate_hot_stuff.Authorities.{
  AuthoritySet, genesis, block_import, get_genesis_authorities_from_client,
}
use substrate_hot_stuff.Authorities.Genesis.{IsWeighted, genesis_iff, genesis-from_client}
use substrate_hot_stuff.Pallet.{
  Config, Runtime, pre_runtime, another, authorities, on_initialize, find_author, do_try_state,
  current_slot_from_digests, slot_of, enter_slot, check_author, new_slot_allowed, ConsensusLog,
}
use substrate_hot_stuff.Pallet.Slots.{
  slots_of, Ascends, slots_of-Ascends, on_initialize-find_author, on_initialize-do_try_state,
}
use substrate_hot_stuff.Pallet.Sessions.{
  Call, begins_block, changes, starts_genesis_session, starts_session, disables, perform_all,
  perform_all-IsBounded,
}

abbrev block : ℕ → BlockInfo
block n = record { hash = some (100 + n); number = n }

abbrev notice : ℕ → Bool → ImportNotification
notice n best = record { hash = 100 + n; number = n; is_new_best = best }

abbrev imports : List ImportNotification
imports = notice 6 true ∷ notice 7 false ∷ notice 7 true ∷ []

abbrev weighted : AuthorityList
weighted = (1, 5) ∷ (2, 1) ∷ []

abbrev weighted_set : AuthoritySet
weighted_set = record { current_authorities = weighted; authority_set_changes = [] }

genesis_iff_example : (genesis weighted ≡ some weighted_set) ↔ (
    IsWeighted weighted
    × (record { current_authorities = weighted; authority_set_changes = [] } ≡ weighted_set))
genesis_iff_example = genesis_iff weighted weighted_set

genesis-from_client_example :
    ((set : AuthoritySet) × (block_import (answered (1 ∷ 2 ∷ [])) ≡ ok set)
      × (ids set.current_authorities ≡ 1 ∷ 2 ∷ []))
    × ((list : AuthorityList) × (get_genesis_authorities_from_client (answered (1 ∷ 2 ∷ []))
          ≡ ok list)
        × (ids list ≡ 1 ∷ 2 ∷ [])
        × (genesis list ≡ none))
genesis-from_client_example = genesis-from_client 1 (2 ∷ [])

abbrev first_byte : Bytes → Option ℕ
first_byte [] = none
first_byte (b ∷ bytes) = some b

abbrev coded : ConsensusLog → Bytes
coded (ConsensusLog.authorities_change new) = 1 ∷ new
coded (ConsensusLog.on_disabled_log i) = 2 ∷ i ∷ []

-- Three authorities at most; the one with the index 1 is disabled.
abbrev config : Config
config = record {
  max_authorities = 3;
  is_disabled = λ i. i == 1;
  allow_multiple_blocks_per_slot = false;
  minimum_period = 3000;
  engine_id = 77;
  decode_slot = first_byte;
  encode_log = coded;
}

abbrev running : Runtime
running = record {
  stored_authorities = some (1 ∷ 2 ∷ 3 ∷ []);
  current_slot = 4;
  logs = another ∷ pre_runtime 5 (9 ∷ []) ∷ pre_runtime 77 (5 ∷ []) ∷ [];
}

slots_of-Ascends_example : Ascends config 4 (
    slots_of config running
      ((pre_runtime 77 (5 ∷ []) ∷ []) ∷ [] ∷ (pre_runtime 77 (8 ∷ []) ∷ []) ∷ []))
slots_of-Ascends_example =
    slots_of-Ascends config running
      ((pre_runtime 77 (5 ∷ []) ∷ []) ∷ [] ∷ (pre_runtime 77 (8 ∷ []) ∷ []) ∷ [])

reads_slot : current_slot_from_digests config running ≡ some 5
unfolding current_slot_from_digests slot_of
reads_slot = refl

accepts_slot : (on_initialize config running).0 ≡ ok tt
unfolding on_initialize current_slot_from_digests slot_of enter_slot check_author new_slot_allowed
accepts_slot = refl

on_initialize-find_author_example :
    (find_author config ((5, 9 ∷ []) ∷ (77, 5 ∷ []) ∷ []) (on_initialize config running).1
      ≡ ok (some 2))
    × (config.is_disabled 2 ≡ false)
on_initialize-find_author_example =
    on_initialize-find_author config running 5 (1 ∷ 2 ∷ 3 ∷ []) refl reads_slot accepts_slot

on_initialize-do_try_state_example :
    do_try_state config (on_initialize config running).1 ≡ answered tt
on_initialize-do_try_state_example =
    on_initialize-do_try_state config running 5 (1 ∷ 2 ∷ 3 ∷ []) refl reads_slot (inr (omega arith))
      accepts_slot

abbrev four_keys : List (ℕ × ℕ)
four_keys = (10, 1) ∷ (20, 5) ∷ (30, 6) ∷ (40, 7) ∷ []

abbrev session_calls : List Call
session_calls =
    begins_block
    ∷ starts_session true four_keys
    ∷ disables 2
    ∷ starts_genesis_session four_keys
    ∷ changes (9 ∷ [])
    ∷ []

perform_all-IsBounded_example : length (authorities (perform_all config session_calls running)) ≤ 3
perform_all-IsBounded_example = perform_all-IsBounded config session_calls running (omega arith)
