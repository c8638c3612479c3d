-- ===== src/Message/Signed.antt =====
-- hotstuff/consensus/src/message.rs: the checks that `Proposal`, `Vote` and `Timeout` share word
-- for word in their `verify`: the sender is an authority, and it signed the digest.
use substrate_hot_stuff.Prelude.{Option, none, some, find, ◌==◌, if◌then◌else◌}
use substrate_hot_stuff.Primitives.{
  Hash, AuthorityId, AuthoritySignature, AuthorityList, unknown_authority, null_signature,
  invalid_signature, Result, ok, err, ◌>>=◌, ok_or,
}
use substrate_hot_stuff.Crypto.{Crypto}

unfoldable pub check_known : AuthorityList → AuthorityId → Result (Unit {0})
check_known authorities sender = do
  _ ← ok_or (find (λ authority. authority.0 == sender) authorities) (unknown_authority sender)
  ok tt

unfoldable pub check_signature :
    Crypto → Option AuthoritySignature → Hash → AuthorityId → Result (Unit {0})
check_signature c none digest sender = err null_signature
check_signature c (some signature) digest sender =
    if c.verify_signature signature digest sender then ok tt else err (invalid_signature sender)
