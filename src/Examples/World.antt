-- ===== src/Examples/World.antt =====
-- The concrete parameters of the examples: a hash that reads its bytes as digits, signatures that
-- are the digest plus the signer's number, a keystore, and an auxiliary store kept as a list.
use substrate_hot_stuff.Prelude.{
  ℕ, ◌+◌, ◌*◌, ◌≡◌, refl, List, [], ◌∷◌, Bool, true, false, ◌&&◌, Option, none, some, ◌==◌,
  if◌then◌else◌, arith,
}
use substrate_hot_stuff.Primitives.{Bytes, AuthorityId, AuthorityList, answered}
use substrate_hot_stuff.Crypto.{Crypto, Keystore}
use substrate_hot_stuff.Environment.{Client, in_chain}

abbrev pub number_of : ℕ → Bytes → ℕ
number_of acc [] = acc
number_of acc (b ∷ bytes) = number_of (acc * 1000 + b) bytes

abbrev pub toy_crypto : Crypto
toy_crypto = record {
  hash_of = number_of 0;
  hash = number_of 0;
  encode_hash = λ h. h ∷ [];
  encode_u64 = λ n. n ∷ [];
  encode_authority = λ id. id ∷ [];
  encode_number = λ n. n ∷ [];
  verify_signature = λ s d id. s == d + id;
}

abbrev pub toy_signature : Bytes → Option ℕ
toy_signature [] = none
toy_signature (s ∷ bytes) = some s

-- The keystore of the authority `own`.
abbrev pub toy_keystore : AuthorityId → Keystore
toy_keystore own = record {
  has_keys = λ id. id == own;
  sign_with = λ id d. answered (some ((d + id) ∷ []));
  signature_from = toy_signature;
}

abbrev pub four : AuthorityList
four = (1, 1) ∷ (2, 1) ∷ (3, 1) ∷ (4, 1) ∷ []

-- The equality of two keys.
abbrev pub same_bytes : Bytes → Bytes → Bool
same_bytes [] [] = true
same_bytes [] (y ∷ ys) = false
same_bytes (x ∷ xs) [] = false
same_bytes (x ∷ xs) (y ∷ ys) = x == y && same_bytes xs ys

pub same_bytes_refl : (xs : Bytes) → same_bytes xs xs ≡ true
same_bytes_refl [] = refl
same_bytes_refl (x ∷ xs) = ground (arith, same_bytes_refl xs)

cons_eq : {x y : ℕ} {xs ys : Bytes} → x ≡ y → xs ≡ ys → (x ∷ xs) ≡ (y ∷ ys)
cons_eq p q = rw (p, q)

pub same_bytes-eq : (xs ys : Bytes) → same_bytes xs ys ≡ true → xs ≡ ys
same_bytes-eq [] [] e = refl
same_bytes-eq [] (y ∷ ys) e = absurd (ground arith)
same_bytes-eq (x ∷ xs) [] e = absurd (ground arith)
same_bytes-eq (x ∷ xs) (y ∷ ys) e = cons_eq (ground arith) (same_bytes-eq xs ys (ground arith))

abbrev pub lookup : List (Bytes × Bytes) → Bytes → Option Bytes
lookup [] key = none
lookup ((k, value) ∷ entries) key =
    let rest = lookup entries key in if same_bytes k key then some value else rest

abbrev pub toy_client : Client
toy_client = record {
  State = List (Bytes × Bytes);
  info = λ s. record { finalized_hash = 7; finalized_number = 0; best_number = 3 };
  status = λ s hash. answered in_chain;
  block_hash_from_id = λ s number. answered none;
  finalize_block = λ s hash. (answered tt, s);
  get_aux = λ s key. answered (lookup s key);
  insert_aux = λ s key value. (answered tt, (key, value) ∷ s);
}
