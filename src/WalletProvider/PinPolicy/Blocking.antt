-- ===== src/WalletProvider/PinPolicy/Blocking.antt =====
-- When `evaluate` blocks an account.
use nl_wallet.Base.{ℕ, ◌*◌, ◌<◌, ◌≤◌, ◌≡◌, ◌≢◌, Option, none, some, ok, err, panic, ◌>>=◌, arith}
use nl_wallet.WalletProvider.PinPolicy.Evaluation.{IsValid}
use nl_wallet.WalletProvider.PinPolicy.{
  PinPolicy, PinPolicyEvaluation, blocked_permanently, Run, is_blocked, current_timeout, failure,
  timeout_checks, with_timeout, evaluate,
}

failure-ne-blocked : (p : PinPolicy) (a : ℕ) → failure p a ≢ ok blocked_permanently
unfolding failure
failure-ne-blocked p a e = ground arith

checks-ne-blocked :
    (p : PinPolicy) (a t d now : ℕ) → timeout_checks p a t d now ≢ ok blocked_permanently
unfolding timeout_checks
checks-ne-blocked p a t d now e = ground (arith, failure-ne-blocked p a)

with_timeout-ne-blocked :
    (p : PinPolicy) (a : ℕ) (last_failed_pin d : Option ℕ) (now : ℕ)
    → with_timeout p a last_failed_pin d now ≢ ok blocked_permanently
unfolding with_timeout
with_timeout-ne-blocked p a none d now e = failure-ne-blocked p a e
with_timeout-ne-blocked p a (some t) none now e = failure-ne-blocked p a e
with_timeout-ne-blocked p a (some t) (some d) now e = checks-ne-blocked p a t d now e

after_timeout :
    (p : PinPolicy) (a : ℕ) (last_failed_pin : Option ℕ) (now : ℕ) (m : Run (Option ℕ))
    → (m >>= λ d. with_timeout p a last_failed_pin d now) ≢ ok blocked_permanently
after_timeout p a l now (ok d) e = with_timeout-ne-blocked p a l d now e
after_timeout p a l now (err u) e = cc
after_timeout p a l now panic e = cc

-- Whenever a valid policy gives an evaluation, it blocks the account exactly if the attempts reach the
-- number of rounds times the attempts in a round.
pub evaluate-blocks :
    (p : PinPolicy) (attempts : ℕ) (last_failed_pin : Option ℕ) (now : ℕ) (e : PinPolicyEvaluation)
    → IsValid p
    → evaluate p attempts last_failed_pin now ≡ ok e
    → (p.rounds * p.attempts_per_round ≤ attempts → e ≡ blocked_permanently)
      × (attempts < p.rounds * p.attempts_per_round → e ≢ blocked_permanently)
unfolding evaluate is_blocked
evaluate-blocks p attempts last_failed_pin now e valid h = (
  λ reached. ground arith,
  λ below b.
      ground (arith, after_timeout p attempts last_failed_pin now (current_timeout p attempts)),
)
