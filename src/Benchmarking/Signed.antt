-- ===== src/Benchmarking/Signed.antt =====
-- benchmarking.rs: what is signed, and how long it is valid.
use substrate_hot_stuff.Prelude.{ℕ, zero, suc, ◌*◌, ◌^◌, ◌≤◌, ◌<◌, ◌≡◌}

-- `p` doubled `k` times.
abbrev room : ℕ → ℕ → ℕ
room zero p = p
room (suc k) p = room k (2 * p)

-- The greatest power of two below a number.
abbrev pub IsPowerBelow : ℕ → ℕ → Type 0
IsPowerBelow n x = (k : ℕ) × (x ≡ 2 ^ k) × (x < n) × (n ≤ 2 * x)
