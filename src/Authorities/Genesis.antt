-- ===== src/Authorities/Genesis.antt =====
-- Which lists make an authority set, and what becomes of the genesis authorities.
use substrate_hot_stuff.Prelude.{
  ℕ, ◌<◌, ◌≡◌, ◌≢◌, refl, ◌↔◌, List, [], ◌∷◌, map, false, Option, none, some, any, ◌==◌, All, arith,
}
use substrate_hot_stuff.Primitives.{Bytes, Hash, AuthorityId, AuthorityList, ok, External, answered}
use substrate_hot_stuff.Message.Quorum.{ids}
use substrate_hot_stuff.Authorities.{
  AuthoritySet, get, invalid_authority_list, genesis, load_persistent, block_import,
  get_genesis_authorities_from_client,
}

-- Not empty, and every weight above 0.
abbrev pub IsWeighted : AuthorityList → Type 0
IsWeighted authorities = (authorities ≢ []) × All (λ (a : AuthorityId × ℕ). 0 < a.1) authorities

weighted_sound :
    (authorities : AuthorityList)
    → any (λ a. a.1 == 0) authorities ≡ false
    → All (λ (a : AuthorityId × ℕ). 0 < a.1) authorities
weighted_sound [] e = tt
weighted_sound ((id, w) ∷ rest) e = (ground arith, weighted_sound rest (ground arith))

weighted_complete :
    (authorities : AuthorityList)
    → All (λ (a : AuthorityId × ℕ). 0 < a.1) authorities
    → any (λ a. a.1 == 0) authorities ≡ false
weighted_complete [] h = refl
weighted_complete ((id, w) ∷ rest) h = ground (arith, weighted_complete rest h.1)

some_set : AuthorityList → AuthoritySet
some_set authorities = record { current_authorities = authorities; authority_set_changes = [] }

-- `AuthoritySet::genesis` makes a set of exactly the lists that are not empty and have no weight 0,
-- and the set holds the list with no changes.
pub genesis_iff :
    (authorities : AuthorityList) (set : AuthoritySet)
    → (genesis authorities ≡ some set) ↔ (
        IsWeighted authorities
        × (record { current_authorities = authorities; authority_set_changes = [] } ≡ set))
unfolding genesis invalid_authority_list
genesis_iff [] set = (λ e. absurd (ground arith), λ h. absurd (h.0.0 refl))
genesis_iff ((id, w) ∷ rest) set = (
  λ e. ((λ q. absurd (ground arith), weighted_sound ((id, w) ∷ rest) (ground arith)), ground arith),
  λ h. ground (arith, weighted_complete ((id, w) ∷ rest) h.0.1, h.1),
)

weighted_ones :
    (keys : List AuthorityId)
    → any (λ (a : AuthorityId × ℕ). a.1 == 0) (map (λ p. (p, 1)) keys) ≡ false
weighted_ones [] = refl
weighted_ones (k ∷ keys) = weighted_ones keys

ids-map : (keys : List AuthorityId) (w : ℕ) → ids (map (λ p. (p, w)) keys) ≡ keys
ids-map [] w = refl
ids-map (k ∷ keys) w = rw (ids-map keys w)

-- Of the same keys of the runtime, at least one: `block_import` makes an authority set with these
-- keys, and the list that `start_hotstuff` runs the consensus with has these keys too, but
-- `AuthoritySet::genesis` would refuse it.
pub genesis-from_client :
    (key : AuthorityId) (keys : List AuthorityId)
    → ((set : AuthoritySet) × (block_import (answered (key ∷ keys)) ≡ ok set)
        × (ids set.current_authorities ≡ key ∷ keys))
      × ((list : AuthorityList) × (get_genesis_authorities_from_client (answered (key ∷ keys))
            ≡ ok list)
          × (ids list ≡ key ∷ keys)
          × (genesis list ≡ none))
unfolding block_import load_persistent genesis invalid_authority_list
    get_genesis_authorities_from_client
genesis-from_client key keys = (
  (
    record { current_authorities = map (λ p. (p, 1)) (key ∷ keys); authority_set_changes = [] },
    rw (weighted_ones keys),
    ids-map (key ∷ keys) 1,
  ),
  (map (λ p. (p, 0)) (key ∷ keys), refl, ids-map (key ∷ keys) 0, refl),
)

-- An answer of get is the decoded data of the runtime at the genesis block.
pub get-answered :
    (genesis_hash : External Hash) (call : Hash → External Bytes)
    (decode : Bytes → Option (List AuthorityId)) (ids : List AuthorityId)
    → get genesis_hash call decode ≡ answered ids
    → (hash : Hash) × (bytes : Bytes) × (genesis_hash ≡ answered hash)
      × (call hash ≡ answered bytes)
      × (decode bytes ≡ some ids)
unfolding get
get-answered genesis_hash call decode ids e = ground (arith, e)
