-- ===== src/Pallet/Sessions.antt =====
-- The authorities that the pallet stores over its sessions.
use substrate_hot_stuff.Prelude.{
  ℕ, ◌-◌, ◌≤◌, ◌≡◌, refl, List, [], ◌∷◌, Bool, true, length, map, if◌then◌else◌, arith, Bool-cases,
  inl, inr,
}
use substrate_hot_stuff.Primitives.{AuthorityId}
use substrate_hot_stuff.Pallet.{
  Config, Runtime, authorities, is_empty, change_authorities, initialize_authorities,
  on_genesis_session, same_authorities, truncate_from, on_new_session, on_disabled, on_initialize,
  enter_slot,
}

-- The calls that may change the authorities, and those of a block beside them.
pub data Call : Type 0 where
  begins_block : Call
  changes : List AuthorityId → Call
  starts_genesis_session : List (ℕ × AuthorityId) → Call
  starts_session : Bool → List (ℕ × AuthorityId) → Call
  disables : ℕ → Call

truncate_from-length : (xs : List AuthorityId) (n : ℕ) → length (truncate_from xs n) ≤ n
truncate_from-length [] n = omega arith
truncate_from-length (x ∷ xs) n = ground (arith, truncate_from-length xs (n - 1))

truncate_from_short : (xs : List AuthorityId) (n : ℕ) → length xs ≤ n → truncate_from xs n ≡ xs
truncate_from_short [] n h = refl
truncate_from_short (x ∷ xs) n h = ground (arith, truncate_from_short xs (n - 1))

cons_eq : {x y : ℕ} {xs ys : List ℕ} → x ≡ y → xs ≡ ys → (x ∷ xs) ≡ (y ∷ ys)
cons_eq p q = rw (p, q)

same_authorities-eq : (xs ys : List AuthorityId) → same_authorities xs ys ≡ true → xs ≡ ys
same_authorities-eq [] [] e = refl
same_authorities-eq [] (y ∷ ys) e = absurd (ground arith)
same_authorities-eq (x ∷ xs) [] e = absurd (ground arith)
same_authorities-eq (x ∷ xs) (y ∷ ys) e =
    cons_eq (ground arith) (same_authorities-eq xs ys (ground arith))

module _ (config : Config) where
  -- One call. A `BoundedVec` has at most `max_authorities` elements.
  unfoldable pub perform : Call → Runtime → Runtime
  perform begins_block r = (on_initialize config r).1
  perform (changes new) r = change_authorities config (truncate_from new config.max_authorities) r
  perform (starts_genesis_session validators) r = (on_genesis_session config validators r).1
  perform (starts_session changed validators) r = on_new_session config changed validators r
  perform (disables i) r = on_disabled config i r

  abbrev pub perform_all : List Call → Runtime → Runtime
  perform_all [] r = r
  perform_all (call ∷ calls) r = perform_all calls (perform call r)

  abbrev pub IsBounded : Runtime → Type 0
  IsBounded r = length (authorities r) ≤ config.max_authorities

  change_authorities-IsBounded :
      (new : List AuthorityId) (r : Runtime)
      → length new ≤ config.max_authorities
      → IsBounded r
      → IsBounded (change_authorities config new r)
  unfolding change_authorities
  change_authorities-IsBounded [] r h b = b
  change_authorities-IsBounded (x ∷ xs) r h b = h

  initialize_authorities-IsBounded :
      (new : List AuthorityId) (r : Runtime)
      → IsBounded r
      → IsBounded (initialize_authorities config new r).1
  unfolding initialize_authorities
  initialize_authorities-IsBounded new r b = ground arith

  perform-IsBounded : (call : Call) (r : Runtime) → IsBounded r → IsBounded (perform call r)
  unfolding perform on_initialize enter_slot on_genesis_session on_new_session on_disabled
  perform-IsBounded begins_block r b = ground arith
  perform-IsBounded (changes new) r b =
      change_authorities-IsBounded (truncate_from new config.max_authorities) r
        (truncate_from-length new config.max_authorities) b
  perform-IsBounded (starts_genesis_session validators) r b =
      initialize_authorities-IsBounded (map (λ v. v.1) validators) r b
  perform-IsBounded (starts_session changed validators) r b = ground (
    arith,
    change_authorities-IsBounded (truncate_from (map (λ v. v.1) validators) config.max_authorities)
        r (truncate_from-length (map (λ v. v.1) validators) config.max_authorities) b,
  )
  perform-IsBounded (disables i) r b = b

  -- Whatever calls follow one another, the pallet never stores more than `MaxAuthorities`
  -- authorities, if it did not at the start.
  pub perform_all-IsBounded :
      (calls : List Call) (r : Runtime)
      → length (authorities r) ≤ config.max_authorities
      → length (authorities (perform_all calls r)) ≤ config.max_authorities
  perform_all-IsBounded [] r b = b
  perform_all-IsBounded (call ∷ calls) r b =
      perform_all-IsBounded calls (perform call r) (perform-IsBounded call r b)

  changed_to :
      (new : List AuthorityId) (r : Runtime)
      → authorities (change_authorities config new r)
        ≡ (if is_empty new then authorities r else new)
  unfolding change_authorities
  changed_to [] r = refl
  changed_to (x ∷ xs) r = refl

  -- A changed session leaves the pallet with the session's keys, cut off after `MaxAuthorities`,
  -- whether or not they were its authorities before; with none, it keeps its authorities. This is
  -- of a pallet that stored at most `MaxAuthorities`.
  on_new_session-authorities :
      (validators : List (ℕ × AuthorityId)) (r : Runtime)
      → length (authorities r) ≤ config.max_authorities
      → let next = truncate_from (map (λ v. v.1) validators) config.max_authorities in
        authorities (on_new_session config true validators r)
        ≡ (if is_empty next then authorities r else next)
  unfolding on_new_session
  on_new_session-authorities validators r b =
      elim (Bool-cases (same_authorities (authorities r) (map (λ v. v.1) validators))) [
        | inl same ↦
            let e = same_authorities-eq (authorities r) (map (λ v. v.1) validators) same in
            rw (same, ← e, truncate_from_short (authorities r) config.max_authorities b)
              (kept (authorities r))
        | inr other ↦
            rw other
              (changed_to (truncate_from (map (λ v. v.1) validators) config.max_authorities) r)
      ]
    where
      kept : (xs : List AuthorityId) → xs ≡ (if is_empty xs then xs else xs)
      kept [] = refl
      kept (x ∷ xs) = refl
