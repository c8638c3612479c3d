-- ===== src/Crypto.antt =====
-- What the consensus takes from sp_core, sp_keystore and the SCALE codec: hashing, signatures, the
-- local keystore, and the bytes of the fields that a digest is made of.
use substrate_hot_stuff.Prelude.{ℕ, Bool, Option}
use substrate_hot_stuff.Primitives.{Bytes, Hash, AuthorityId, AuthoritySignature, External}

pub record Crypto : Type 0 where
  pub hash_of : Bytes → Hash  -- `Hashing::hash_of(&data)`, of a vector of bytes
  pub hash : Bytes → Hash  -- `Hashing::hash(bytes)`
  pub encode_hash : Hash → Bytes
  pub encode_u64 : ℕ → Bytes
  pub encode_authority : AuthorityId → Bytes
  pub encode_number : ℕ → Bytes  -- a block number
  pub verify_signature : AuthoritySignature → Hash → AuthorityId → Bool  -- `AuthorityPair::verify`

pub record Keystore : Type 0 where
  pub has_keys : AuthorityId → Bool
  -- `sign_with`: an error, no key, or the signature's bytes
  pub sign_with : AuthorityId → Hash → External (Option Bytes)
  pub signature_from : Bytes → Option AuthoritySignature  -- `AuthoritySignature::try_from`
