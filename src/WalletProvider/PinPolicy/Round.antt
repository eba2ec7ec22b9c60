-- ===== src/WalletProvider/PinPolicy/Round.antt =====
-- Attempts counted as completed rounds and a position within the round.
use native.Mathlib.Nat.{
  mul-add-div_right, div-eq_of_lt, mod-eq_of_lt, mul_comm, mul-add-mod_self_left,
}
use nl_wallet.Base.{ℕ, suc, ◌+◌, ◌*◌, ◌/◌, ◌%◌, ◌<◌, ◌≤◌, ◌≡◌, arith}

-- The quotient and the remainder of `q * n + k`.
pub div_at : (q n k : ℕ) → k < n → (q * n + k) / n ≡ q
div_at q n k h = rw (mul-add-div_right {m = n} (omega arith) q k, div-eq_of_lt h) (omega arith)

pub mod_at : (q n k : ℕ) → k < n → (q * n + k) % n ≡ k
mod_at q n k h = rw (mul_comm q n, mul-add-mod_self_left n q k, mod-eq_of_lt h)

-- An attempt before the end of an open round is within those that the policy grants.
pub round_within : (q n k rounds : ℕ) → k < n → q < rounds → q * n + k < rounds * n
round_within q n k rounds h g = grind arith

-- The end of a round is the start of the next.
pub round_end : (q n : ℕ) → q * n + n ≡ suc q * n + 0
round_end q n = omega arith

-- Once all rounds are complete, no attempt is left.
pub rounds_over : (q n k rounds : ℕ) → rounds ≤ q → rounds * n ≤ q * n + k
rounds_over q n k rounds h = grind arith

-- The attempts of one round are no more than those of all rounds.
pub round_small : (n rounds : ℕ) → 0 < rounds → rounds * n < 256 → n < 256
round_small n rounds h g = grind arith

pub product_pos : (a b : ℕ) → 0 < a → 0 < b → 0 < a * b
product_pos a b h g = grind arith
