-- ===== src/Examples/Remarks.antt =====
-- A remark that pair 5 signs.
use substrate_hot_stuff.Prelude.{ℕ, ◌+◌, [], ◌∷◌, Bool, some, ◌==◌}
use substrate_hot_stuff.Primitives.{Bytes, answered}
use substrate_hot_stuff.Benchmarking.{SignedPayload, Pair, Chain}
use substrate_hot_stuff.Examples.World.{number_of}

abbrev encode : SignedPayload → Bytes
encode p = p.extra.nonce ∷ p.extra.era_period ∷ p.genesis_hash ∷ p.best_hash ∷ []

abbrev verify : ℕ → Bytes → ℕ → Bool
verify s bytes id = s == number_of 0 bytes + id

abbrev five : Pair
five = record { public = 5; sign = λ bytes. number_of 0 bytes + 5 }

abbrev chain : Chain
chain = record { block_hash = answered (some 7); best_hash = 9; best_number = 40 }
