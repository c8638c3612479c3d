-- ===== src/Examples/Agreeing.antt =====
-- Four replicas vote in view 1, whose leader, authority 2, is faulty. Its proposal reaches the three
-- others.
use substrate_hot_stuff.Prelude.{
  ℕ, zero, suc, ◌+◌, ◌*◌, ◌≡◌, ◌≢◌, refl, subst, List, [], ◌∷◌, map, true, false, ◌&&◌, none, some,
  elem, ◌==◌, if◌then◌else◌, arith, ◌⊎◌, inl, inr,
}
use substrate_hot_stuff.Primitives.{Bytes, Hash, AuthorityId, ok}
use substrate_hot_stuff.Crypto.{Crypto}
use substrate_hot_stuff.Environment.{Environment}
use substrate_hot_stuff.Message.Qc.{Qc}
use substrate_hot_stuff.Message.Qc
use substrate_hot_stuff.Message.Vote.{Vote}
use substrate_hot_stuff.Message.Vote
use substrate_hot_stuff.Message.Proposal.{Proposal}
use substrate_hot_stuff.Message.Proposal
use substrate_hot_stuff.Message.Quorum.{ids}
use substrate_hot_stuff.Consensus.State.{
  ConsensusState, new, make_vote, verify_proposal, view_leader,
}
use substrate_hot_stuff.Worker.Defs
use substrate_hot_stuff.Worker.Steps.{votes, done, more}
use substrate_hot_stuff.Worker.Safety.Traces.{In, signed}
use substrate_hot_stuff.Agreement.{IsDigesting, Replica, IsUnforged, agreement}
use substrate_hot_stuff.Examples.World.{number_of, toy_keystore, toy_client, four}
use substrate_hot_stuff.Examples.Codec.{toy_codec}

-- `x` doubled `v` times.
abbrev pub doubled : ℕ → ℕ → ℕ
doubled zero x = x
doubled (suc v) x = 2 * doubled v x

pub doubled_inj : (v w h k : ℕ) → doubled v (2 * h + 1) ≡ doubled w (2 * k + 1) → (h ≡ k) × (v ≡ w)
doubled_inj zero zero h k e = (omega (arith, e), refl)
doubled_inj zero (suc w) h k e = absurd (omega (arith, e))
doubled_inj (suc v) zero h k e = absurd (omega (arith, e))
doubled_inj (suc v) (suc w) h k e =
    let (p, q) = doubled_inj v w h k (omega (arith, e)) in (p, omega (arith, q))

-- The digest of a vote is made of three numbers, that of a timeout of two, others are longer.
abbrev spread : Bytes → Hash
spread (a ∷ b ∷ []) = 4 * number_of 0 (a ∷ b ∷ []) + 2
spread (h ∷ b ∷ v ∷ []) = 4 * doubled v (2 * h + 1) + 1
spread bytes = 4 * number_of 0 bytes

abbrev proposed : Hash
proposed = 4 * number_of 0 (2 ∷ 9 ∷ 0 ∷ 3 ∷ 1 ∷ 0 ∷ 0 ∷ [])

abbrev vote_digest : Hash
vote_digest = 4 * doubled 1 (2 * proposed + 1) + 1

-- The keys of 1, 3 and 4 have signed the vote's digest only.
abbrev crypto : Crypto
crypto = record {
  hash_of = spread;
  hash = spread;
  encode_hash = λ h. h ∷ 0 ∷ [];
  encode_u64 = λ n. n ∷ [];
  encode_authority = λ id. id ∷ [];
  encode_number = λ n. n ∷ [];
  verify_signature = λ s d id. s == d + id && (if id == 2 then true else d == vote_digest);
}

abbrev env : Environment
env = record { crypto = crypto; codec = toy_codec; client = toy_client }

spread-differs : (h v : ℕ) (p : Proposal) → spread (h ∷ 0 ∷ v ∷ []) ≢ Proposal.digest crypto p
unfolding Proposal.digest
spread-differs h v p e = omega (arith, e)

env-IsDigesting : IsDigesting crypto
env-IsDigesting = record {
  votes_differ = λ h k v w e. doubled_inj v w h k (omega (arith, e));
  vote_not_timeout = λ h v a b e. omega (arith, e);
  vote_not_proposal = spread-differs;
}

abbrev first_proposal : Proposal
first_proposal = record {
  qc = Qc.default;
  tc = none;
  payload = record { block_hash = 9; block_number = 3 };
  view = 1;
  author = 2;
  signature = some (proposed + 2);
}

abbrev replica_state : AuthorityId → ConsensusState
replica_state id = record (new (toy_keystore id) four) { view = 1 }

verified : (id : AuthorityId) → verify_proposal crypto (replica_state id) first_proposal ≡ ok tt
unfolding verify_proposal view_leader Proposal.verify
verified id = refl

abbrev replica : AuthorityId → Replica env
replica id = record {
  start = Defs.new (replica_state id) [] [] false;
  end = record (Defs.new (replica_state id) [] [] false) {
    state = (make_vote crypto (replica_state id) first_proposal).1;
  };
  steps = more done (votes first_proposal none [] (verified id) refl refl);
}

honest_cases :
    (id : AuthorityId)
    → elem id (ids four) ≡ true
    → elem id (2 ∷ []) ≡ false
    → (id ≡ 1) ⊎ ((id ≡ 3) ⊎ (id ≡ 4))
honest_cases id known honest = ground arith

has_signed :
    (id : AuthorityId)
    → (id ≡ 1) ⊎ ((id ≡ 3) ⊎ (id ≡ 4))
    → In vote_digest (signed env (replica id).steps)
unfolding make_vote Vote.digest
has_signed id (inl e) = rw e (inl refl)
has_signed id (inr (inl e)) = rw e (inl refl)
has_signed id (inr (inr e)) = rw e (inl refl)

unforged : IsUnforged env env-IsDigesting four (2 ∷ []) replica
unforged = record {
  by_replica = λ id s d known honest fits.
      let e : vote_digest ≡ d = signed_only id s d honest fits in
      subst (λ x. In x (signed env (replica id).steps)) e
        (has_signed id (honest_cases id known honest));
}
  where
    signed_only :
        (id : AuthorityId) (s : ℕ) (d : Hash)
        → elem id (2 ∷ []) ≡ false
        → crypto.verify_signature s d id ≡ true
        → vote_digest ≡ d
    signed_only id s d honest fits = ground arith

abbrev certificate : List AuthorityId → Qc
certificate voters = record {
  proposal_hash = proposed;
  view = 1;
  votes = map (λ id. (id, vote_digest + id)) voters;
}

certified_by_three : Qc.verify crypto (certificate (1 ∷ 3 ∷ 4 ∷ [])) four ≡ ok tt
unfolding Qc.verify
certified_by_three = refl

certified_with_two : Qc.verify crypto (certificate (1 ∷ 2 ∷ 3 ∷ [])) four ≡ ok tt
unfolding Qc.verify
certified_with_two = refl

agreement_example :
    (certificate (1 ∷ 3 ∷ 4 ∷ [])).proposal_hash ≡ (certificate (1 ∷ 2 ∷ 3 ∷ [])).proposal_hash
agreement_example =
    agreement env env-IsDigesting four (2 ∷ []) replica (certificate (1 ∷ 3 ∷ 4 ∷ []))
      (certificate (1 ∷ 2 ∷ 3 ∷ [])) unforged (omega arith) certified_by_three certified_with_two
      (refl, (refl, (refl, tt))) (refl, (refl, (refl, tt))) refl
