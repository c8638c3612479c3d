-- ===== src/Authorities.antt =====
-- hotstuff/consensus/src/authorities.rs, aux_schema.rs, client.rs and the end of consensus.rs: the
-- authority set of the genesis block, and the two ways in which the program reads it. The runtime's
-- answer to `HotstuffApi_authorities` is the argument: the keys, or the text of an error.
pub mod Genesis
use substrate_hot_stuff.Prelude.{
  ℕ, List, [], ◌∷◌, map, Bool, true, false, Option, none, some, any, ◌==◌, if◌then◌else◌,
}
use substrate_hot_stuff.Primitives.{
  Bytes, Hash, AuthorityId, AuthorityList, BlockNumber, Result, ok, err, panic, exhausted,
  client_error, ◌>>=◌, External, answered, failed, map_err,
}

-- `SharedAuthoritySet` is this behind a lock.
pub record AuthoritySet : Type 0 where
  pub current_authorities : AuthorityList
  pub authority_set_changes : List (ℕ × BlockNumber)

abbrev is_empty : AuthorityList → Bool
is_empty [] = true
is_empty (a ∷ authorities) = false

-- Non-empty, and every weight above 0, or else invalid.
unfoldable pub invalid_authority_list : AuthorityList → Bool
invalid_authority_list authorities =
    if is_empty authorities then true else any (λ a. a.1 == 0) authorities

unfoldable pub genesis : AuthorityList → Option AuthoritySet
genesis initial =
    if invalid_authority_list initial
    then none
    else some (record { current_authorities = initial; authority_set_changes = [] })

unfoldable pub new : AuthorityList → List (ℕ × BlockNumber) → Option AuthoritySet
new authorities changes =
    if invalid_authority_list authorities
    then none
    else some (record { current_authorities = authorities; authority_set_changes = changes })

-- `expect(…)`
abbrev expect : Option AuthoritySet → Result AuthoritySet
expect none = panic
expect (some set) = ok set

unfoldable pub load_persistent : Result AuthorityList → Result AuthoritySet
load_persistent genesis_authorities = do
  authorities ← genesis_authorities
  expect (genesis authorities)

-- `block_import`: each authority has the weight 1.
unfoldable pub block_import : External (List AuthorityId) → Result AuthoritySet
block_import provider =
    load_persistent (map_err client_error provider >>= λ ids. ok (map (λ p. (p, 1)) ids))

-- `GenesisAuthoritySetProvider::get`: the hash of block 0, the runtime's answer at that block, and its
-- decoding, each of which may fail. `get_genesis_authorities_from_client` makes the same calls.
unfoldable pub get :
    External Hash
    → (Hash → External Bytes)
    → (Bytes → Option (List AuthorityId))
    → External (List AuthorityId)
get genesis_hash call decode = with_hash genesis_hash
  where
    decoded : Option (List AuthorityId) → External (List AuthorityId)
    decoded none = failed "failed to decode hotstuff authorities set proof"
    decoded (some ids) = answered ids

    with_data : External Bytes → External (List AuthorityId)
    with_data (answered bytes) = decoded (decode bytes)
    with_data (failed e) = failed e

    with_hash : External Hash → External (List AuthorityId)
    with_hash (answered hash) = with_data (call hash)
    with_hash (failed e) = failed e

abbrev unwrap : External (List AuthorityId) → Result (List AuthorityId)
unwrap (answered ids) = ok ids
unwrap (failed e) = panic

-- `get_genesis_authorities_from_client`: each authority has the weight 0.
unfoldable pub get_genesis_authorities_from_client :
    External (List AuthorityId) → Result AuthorityList
get_genesis_authorities_from_client runtime = do ids ← unwrap runtime; ok (map (λ id. (id, 0)) ids)
