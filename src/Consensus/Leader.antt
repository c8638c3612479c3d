-- ===== src/Consensus/Leader.antt =====
-- consensus.rs, `view_leader` and `is_leader`: who proposes in a view.
use native.Mathlib.Nat.{mod-lt, mod-eq_of_lt, div-add-mod, mul-add-mod_self_left}
use substrate_hot_stuff.Prelude.{
  ℕ, ◌+◌, ◌*◌, ◌/◌, ◌%◌, ◌≤◌, ◌<◌, ◌≡◌, refl, ◌↔◌, ◌⊎◌, inl, inr, [], ◌∷◌, true, false, some,
  length, get_elem?, get_elem?-lt, leb, ◌==◌, arith, Bool-cases, ◌∙◌,
}
use substrate_hot_stuff.Primitives.{AuthorityId, ViewNumber, AuthorityList, ok, panic}
use substrate_hot_stuff.Consensus.State.{
  ConsensusState, leader_at, view_leader, local_authority_id, is_leader,
}

-- The authority at a place of the list.
abbrev pub IsAt : AuthorityList → ℕ → AuthorityId → Type 0
IsAt authorities i id = (w : ℕ) × (get_elem? authorities i ≡ some (id, w))

leader_at-IsAt :
    (s : ConsensusState) (i : ℕ)
    → i < length s.authorities
    → (id : AuthorityId) × (leader_at (get_elem? s.authorities i) ≡ ok id) × IsAt s.authorities i id
leader_at-IsAt s i h = let ((id, w), e) = get_elem?-lt s.authorities i h in (id, rw e, (w, e))

nonempty :
    (s : ConsensusState) (i : ℕ) → i < length s.authorities → (length s.authorities == 0) ≡ false
nonempty s i h = ground arith

-- With any authority at all, every view has a leader, the authority at the view modulo their
-- number; with none `view_leader` panics.
view_leader_total :
    (s : ConsensusState) (view : ViewNumber)
    → ((s.authorities ≡ []) × (view_leader s view ≡ panic))
      ⊎ ((id : AuthorityId) × (view_leader s view ≡ ok id)
          × IsAt s.authorities (view % length s.authorities) id)
unfolding view_leader
view_leader_total s view = by_list s.authorities refl
  where
    by_list :
        (xs : AuthorityList)
        → s.authorities ≡ xs
        → ((s.authorities ≡ []) × (view_leader s view ≡ panic))
          ⊎ ((id : AuthorityId) × (view_leader s view ≡ ok id)
              × IsAt s.authorities (view % length s.authorities) id)
    by_list [] e = inl (e, ground arith)
    by_list (x ∷ xs) e =
        let small : view % length s.authorities < length s.authorities =
          mod-lt view (ground arith) in
        let (id, is, place) = leader_at-IsAt s (view % length s.authorities) small in
        inr (id, rw (nonempty s _ small) is, place)

-- A number in the row from `start` with the remainder `i`.
turn_of : (start n i : ℕ) → i < n → (v : ℕ) × (start ≤ v) × (v < start + n) × (v % n ≡ i)
turn_of start n i h =
    let whole = div-add-mod start n in
    let small : start % n < n = mod-lt start (omega arith) in
    elim (Bool-cases (leb (start % n) i)) [
      | inl le ↦ (
        n * (start / n) + i,
        ground arith,
        ground arith,
        mul-add-mod_self_left n (start / n) i ∙ mod-eq_of_lt h,
      )
      | inr gt ↦ (
        n * (start / n + 1) + i,
        ground arith,
        ground arith,
        mul-add-mod_self_left n (start / n + 1) i ∙ mod-eq_of_lt h,
      )
    ]

-- In any row of as many views as there are authorities, each authority leads a view.
view_leader_rotates :
    (s : ConsensusState) (start i : ℕ) (id : AuthorityId)
    → IsAt s.authorities i id
    → i < length s.authorities
    → (view : ViewNumber) × (start ≤ view)
      × (view < start + length s.authorities)
      × (view_leader s view ≡ ok id)
view_leader_rotates s start i id (w, e) h =
    let (view, low, high, turn) = turn_of start (length s.authorities) i h in
    (view, low, high, leads view turn)
  where
    leads : (view : ViewNumber) → view % length s.authorities ≡ i → view_leader s view ≡ ok id
    leads view turn = unfold view_leader in rw (nonempty s i h, turn, e)

-- The local node leads exactly in the views whose leader is the authority that it signs for.
pub is_leader_iff :
    (s : ConsensusState)
    → (is_leader s ≡ ok true)
      ↔ ((id : AuthorityId) × (local_authority_id s ≡ some id) × (view_leader s s.view ≡ ok id))
unfolding is_leader
is_leader_iff s = (ground arith, ground arith)
