-- ===== src/Aggregator/TcMaking.antt =====
-- From timeouts to a TC (aggregator.rs), and why `TC::verify` refuses what comes out.
use substrate_hot_stuff.Prelude.{◌<◌, ◌≡◌, ◌≢◌, List, [], ◌∷◌, ◌++◌, true, some, arith}
use substrate_hot_stuff.Primitives.{
  Hash, AuthorityId, AuthoritySignature, ViewNumber, AuthorityList, ok, u64_mod,
}
use substrate_hot_stuff.Crypto.{Crypto}
use substrate_hot_stuff.Message.Tc.{Tc, vote_digest}
use substrate_hot_stuff.Message.Tc
use substrate_hot_stuff.Message.Timeout.{Timeout}
use substrate_hot_stuff.Message.Timeout
use substrate_hot_stuff.Message.TcQuorum.{TcVote, AllSigned, verify_sound}
use substrate_hot_stuff.Message.Authenticity.{verify_timeout_iff}
use substrate_hot_stuff.Aggregator.{
  TcMaker, append_timeout, append_tc, Aggregator, tc_maker, add_timeout,
}

-- What the consensus relies on: a signature of a key is good for one digest only, and digests of
-- two pairs of views collide only if the pairs have the same second view.
pub record IsBinding (c : Crypto) : Type 0 where
  pub one_digest :
      (s : AuthoritySignature) (d e : Hash) (id : AuthorityId)
      → c.verify_signature s d id ≡ true
      → c.verify_signature s e id ≡ true
      → d ≡ e
  pub no_collision :
      (view a b : ViewNumber)
      → view < u64_mod
      → a < u64_mod
      → b < u64_mod
      → c.hash_of (c.encode_u64 view ++ c.encode_u64 a)
        ≡ c.hash_of (c.encode_u64 view ++ c.encode_u64 b)
      → a ≡ b

AllSigned-last :
    (c : Crypto) (view : ViewNumber) (votes : List TcVote) (v : TcVote)
    → AllSigned c view (votes ++ v ∷ [])
    → c.verify_signature v.1 (vote_digest c view v.2) v.0 ≡ true
AllSigned-last c view [] v h = h.0
AllSigned-last c view (w ∷ votes) v h = AllSigned-last c view votes v h.1

-- A TC holds the votes collected before, and that of the timeout that completes it, with the
-- timeout's own view in the place of its high QC's.
append_tc_last :
    (m : TcMaker) (timeout : Timeout) (authorities : AuthorityList) (s : AuthoritySignature)
    (tc : Tc)
    → timeout.signature ≡ some s
    → (append_tc m timeout authorities).0 ≡ ok (some tc)
    → (tc.view ≡ timeout.view) × (tc.votes ≡ m.votes ++ (timeout.voter, s, timeout.view) ∷ [])
unfolding append_tc append_timeout
append_tc_last m timeout authorities s tc p e = ground arith

module _ (c : Crypto) (binding : IsBinding c) where
  -- With signatures that are good for one digest and digests of view pairs that do not collide, the
  -- TC that a verified timeout completes never verifies if the timeout's view is not the view of the
  -- high QC that it carries, whatever the authorities it is checked against: the signature is for
  -- the QC's view, and the certificate states the timeout's.
  pub add_timeout-verify_fails :
      (a : Aggregator) (timeout : Timeout) (authorities others : AuthorityList) (tc : Tc)
      → timeout.view < u64_mod
      → timeout.high_qc.view < u64_mod
      → Timeout.verify c timeout authorities ≡ ok tt
      → timeout.high_qc.view ≢ timeout.view
      → (add_timeout a timeout authorities).0 ≡ ok (some tc)
      → Tc.verify c tc others ≢ ok tt
  unfolding add_timeout vote_digest Timeout.digest
  add_timeout-verify_fails a timeout authorities others tc small small_qc sent differ e accepted =
      let h = ((verify_timeout_iff c authorities timeout).0 sent).0 in
      let m = tc_maker a timeout.view in
      let (same_view, held) = append_tc_last m timeout authorities h.value tc h.present e in
      let signed : AllSigned c timeout.view
          (m.votes ++ (timeout.voter, h.value, timeout.view) ∷ []) =
        rw (← held, ← same_view) (verify_sound c tc others accepted).signed in
      let good = AllSigned-last c timeout.view m.votes _ signed in
      differ (
        binding.no_collision timeout.view timeout.high_qc.view timeout.view small small_qc small
          (binding.one_digest h.value _ _ timeout.voter h.valid good))
