-- ===== src/Primitives.antt =====
-- hotstuff/consensus/src/primitives.rs and hotstuff/primitives/src/lib.rs: the identifiers, the
-- errors, and how the model writes a fallible call.
-- A hash, an authority's public key and a signature are byte strings of a fixed width, read as
-- numbers: the program only copies, compares and encodes them. A view and a weight are u64.
use substrate_hot_stuff.Prelude.{
  ℕ, ◌^◌, ◌≡◌, refl, List, String, Option, none, some, Bool, true, false, ◌↔◌, arith,
}

abbrev pub Bytes : Type 0
Bytes = List ℕ

abbrev pub Hash : Type 0
Hash = ℕ

abbrev pub AuthorityId : Type 0
AuthorityId = ℕ

abbrev pub AuthoritySignature : Type 0
AuthoritySignature = ℕ

abbrev pub ViewNumber : Type 0
ViewNumber = ℕ

abbrev pub BlockNumber : Type 0
BlockNumber = ℕ

abbrev pub AuthorityWeight : Type 0
AuthorityWeight = ℕ

abbrev pub AuthorityList : Type 0
AuthorityList = List (AuthorityId × AuthorityWeight)

abbrev pub u64_mod : ℕ
u64_mod = 2 ^ 64

pub data HotstuffError : Type 0 where
  authority_reuse : AuthorityId → HotstuffError
  insufficient_quorum : HotstuffError
  invalid_signature : AuthorityId → HotstuffError
  null_signature : HotstuffError
  unknown_authority : AuthorityId → HotstuffError
  not_authority wrong_proposer proposal_no_parent expired_vote invalid_tc : HotstuffError
  finalize_block save_proposal client_error other : String → HotstuffError

-- `panic` is a Rust panic. `exhausted` is no outcome of the program: the model's fuel ran out.
pub data Result {ℓ} (A : Type ℓ) : Type ℓ where
  ok : A → Result A
  err : HotstuffError → Result A
  panic exhausted : Result A

infixl 5 ◌>>=◌ ◌>>◌
abbrev pub ◌>>=◌ {ℓ κ} : {A : Type ℓ} {B : Type κ} → Result A → (A → Result B) → Result B
ok a >>= f = f a
err e >>= f = err e
panic >>= f = panic
exhausted >>= f = exhausted

abbrev pub ◌>>◌ {ℓ} : {B : Type ℓ} → Result (Unit {0}) → Result B → Result B
m >> k = m >>= λ _. k

-- `ok_or(e)`
abbrev pub ok_or {ℓ} : {A : Type ℓ} → Option A → HotstuffError → Result A
ok_or none e = err e
ok_or (some a) e = ok a

-- `if b { return Err(e) }`
abbrev pub fail_if : Bool → HotstuffError → Result (Unit {0})
fail_if true e = err e
fail_if false e = ok tt

-- The result of a call outside the program, with the text of its error.
pub data External {ℓ} (A : Type ℓ) : Type ℓ where
  answered : A → External A
  failed : String → External A

-- `map_err(|e| f(e.to_string()))`
abbrev pub map_err {ℓ} : {A : Type ℓ} → (String → HotstuffError) → External A → Result A
map_err f (answered a) = ok a
map_err f (failed e) = err (f e)

-- A chain of checks passes exactly if each passes.
pub >>-eq-ok : (m k : Result (Unit {0})) → ((m >> k) ≡ ok tt) ↔ ((m ≡ ok tt) × (k ≡ ok tt))
>>-eq-ok (ok a) k = (λ e. (refl, e), λ e. e.1)
>>-eq-ok (err x) k = (λ e. absurd (ground arith), λ e. absurd (ground arith))
>>-eq-ok panic k = (λ e. absurd (ground arith), λ e. absurd (ground arith))
>>-eq-ok exhausted k = (λ e. absurd (ground arith), λ e. absurd (ground arith))

-- A chain that returns has returned at each step.
pub >>=-eq-ok {ℓ κ} :
    {A : Type ℓ} {B : Type κ} {b : B} (m : Result A) (f : A → Result B)
    → (m >>= f) ≡ ok b
    → (a : A) × (m ≡ ok a) × (f a ≡ ok b)
>>=-eq-ok (ok a) f e = (a, refl, e)
>>=-eq-ok (err x) f e = absurd (ground (arith, e))
>>=-eq-ok panic f e = absurd (ground (arith, e))
>>=-eq-ok exhausted f e = absurd (ground (arith, e))
