-- ===== src/WalletProvider/PinPolicy/SingleAttempt.antt =====
-- Policies with one attempt in each round.
use nl_wallet.Base.{ℕ, ◌≡◌, ◌≢◌, Option, none, some, ok, err, panic, ◌>>=◌, false, arith}
use native.Mathlib.Nat.{mod-one}
use nl_wallet.WalletProvider.PinPolicy.{
  PinPolicy, Run, in_timeout, attempts_left_in_round, div_rem, is_blocked, current_timeout, failure,
  timeout_checks, with_timeout, evaluate,
}

failure-ne-in_timeout : (p : PinPolicy) (a left : ℕ) → failure p a ≢ ok (in_timeout left)
unfolding failure
failure-ne-in_timeout p a left e = ground arith

checks-ne-in_timeout :
    (p : PinPolicy) (a last_failed d now left : ℕ)
    → p.attempts_per_round ≡ 1
    → is_blocked p a ≡ ok false
    → timeout_checks p a last_failed d now ≢ ok (in_timeout left)
unfolding timeout_checks attempts_left_in_round div_rem
checks-ne-in_timeout p a last_failed d now left single free e =
    ground (arith, failure-ne-in_timeout p a left, mod-one a)

after_timeout :
    (p : PinPolicy) (a : ℕ) (last_failed_pin : Option ℕ) (now left : ℕ) (duration : Run (Option ℕ))
    → p.attempts_per_round ≡ 1
    → is_blocked p a ≡ ok false
    → (duration >>= λ d. with_timeout p a last_failed_pin d now) ≢ ok (in_timeout left)
unfolding with_timeout
after_timeout p a none now left (ok d) single free e = failure-ne-in_timeout p a left e
after_timeout p a (some t) now left (ok none) single free e = failure-ne-in_timeout p a left e
after_timeout p a (some t) now left (ok (some d)) single free e =
    checks-ne-in_timeout p a t d now left single free e
after_timeout p a last_failed_pin now left (err u) single free e = cc
after_timeout p a last_failed_pin now left panic single free e = cc

-- If each round has a single attempt, `evaluate` never answers `InTimeout`, however soon after the
-- last failure the next attempt comes.
pub evaluate-ne-in_timeout :
    (p : PinPolicy) (attempts : ℕ) (last_failed_pin : Option ℕ) (now left : ℕ)
    → p.attempts_per_round ≡ 1
    → evaluate p attempts last_failed_pin now ≢ ok (in_timeout left)
unfolding evaluate
evaluate-ne-in_timeout p attempts last_failed_pin now left single e =
    ground
      (arith, after_timeout p attempts last_failed_pin now left (current_timeout p attempts) single)
