-- ===== src/WalletProvider/PinPolicy.antt =====
-- The PIN retry policy: wallet_provider/service/src/pin_policy.rs and
-- wallet_provider/domain/src/model/pin_policy.rs.
-- A `u8` is a number below 256, and its sums and products wrap as they do in a release build. Times
-- and durations are milliseconds; the timeouts of a policy are not negative, as the conversion of an
-- evaluation to an error requires. The sum of a time and a timeout panics beyond the range of chrono.
pub mod Round
pub mod Evaluation
pub mod Blocking
pub mod SingleAttempt
use nl_wallet.Base.{
  ℕ, ◌+◌, ◌-◌, ◌*◌, ◌/◌, ◌%◌, Bool, true, false, not, ◌&&◌, ◌||◌, Option, none, some, List, length,
  get_elem?, ltb, leb, ◌==◌, if◌then◌else◌, is_some, is_none, Exec, ok, panic, assert, ◌>>=◌, ◌>>◌,
}

pub record PinPolicy : Type 0 where
  pub rounds : ℕ  -- u8
  pub attempts_per_round : ℕ  -- u8
  pub timeouts : List ℕ

pub data PinPolicyEvaluation : Type 0 where
  failed : ℕ → Bool → PinPolicyEvaluation
  timeout : ℕ → PinPolicyEvaluation
  in_timeout : ℕ → PinPolicyEvaluation
  blocked_permanently : PinPolicyEvaluation

abbrev pub u8 : ℕ → ℕ
u8 n = n % 256

-- No error is returned: a failed assertion panics.
abbrev pub Run : Type 0 → Type 0
Run A = Exec ⊥ A

-- The subtraction `usize::from(rounds) - 1` wraps or panics at 0; the assertion fails either way.
unfoldable pub new : ℕ → ℕ → List ℕ → Run PinPolicy
new rounds attempts_per_round timeouts = do
  assert (ltb 0 rounds && length timeouts == rounds - 1)
  ok (record { rounds = rounds; attempts_per_round = attempts_per_round; timeouts = timeouts })

-- The arms of the `match` on the quotient and the remainder.
unfoldable pub round_of : ℕ → ℕ → ℕ
round_of q r = if q == 0 then 1 else if r == 0 then q else u8 (q + 1)

-- A `u8` division and remainder: a zero divisor panics.
unfoldable pub div_rem : ℕ → ℕ → Run (ℕ × ℕ)
div_rem a b = if b == 0 then panic else ok (a / b, a % b)

unfoldable pub current_round : PinPolicy → ℕ → Run ℕ
unfolding round_of div_rem
current_round p attempts = do
  assert (ltb 0 attempts)
  (q, r) ← div_rem attempts p.attempts_per_round
  ok (round_of q r)

unfoldable pub is_blocked : PinPolicy → ℕ → Run Bool
is_blocked p attempts = do
  assert (ltb 0 attempts)
  let total_attempts = u8 (p.rounds * p.attempts_per_round)
  ok (leb total_attempts attempts)

unfoldable pub is_final_round : PinPolicy → ℕ → Run Bool
is_final_round p attempts = do
  assert (ltb 0 attempts)
  blocked ← is_blocked p attempts
  if blocked then ok true else (do round ← current_round p attempts; ok (round == p.rounds))

unfoldable pub attempts_left_in_round : PinPolicy → ℕ → Run ℕ
unfolding div_rem
attempts_left_in_round p attempts = do
  assert (ltb 0 attempts)
  blocked ← is_blocked p attempts
  if blocked
      then ok 0
      else (do (_, r) ← div_rem attempts p.attempts_per_round; ok (p.attempts_per_round - r))

unfoldable pub current_timeout : PinPolicy → ℕ → Run (Option ℕ)
unfolding div_rem
current_timeout p attempts = do
  assert (ltb 0 attempts)
  (i, _) ← div_rem attempts p.attempts_per_round
  blocked ← is_blocked p attempts
  ok (if not blocked && ltb 1 attempts && ltb 0 i then get_elem? p.timeouts (i - 1) else none)

-- The value at the end of `evaluate`.
unfoldable pub failure : PinPolicy → ℕ → Run PinPolicyEvaluation
failure p attempts = do
  left ← attempts_left_in_round p attempts
  final ← is_final_round p attempts
  ok (failed left final)

-- chrono's `DateTime::MAX_UTC`, in milliseconds.
abbrev pub max_time : ℕ
max_time = 8210266876799999

-- The sum of a time and a duration, which panics when chrono has no such time.
abbrev pub add_time : ℕ → ℕ → Run ℕ
add_time time duration = do assert (leb (time + duration) max_time); ok (time + duration)

-- The body of the `if let`, with the returns that leave `evaluate` and the fall through.
unfoldable pub timeout_checks : PinPolicy → ℕ → ℕ → ℕ → ℕ → Run PinPolicyEvaluation
timeout_checks p attempts last_failed duration now = do
  timed_out_until ← add_time last_failed duration
  left ← attempts_left_in_round p attempts
  let end_of_round = p.attempts_per_round == left
  let start_of_next_round = p.attempts_per_round == u8 (left + 1)
  if end_of_round
      then ok (timeout duration)
      else if ltb now timed_out_until && start_of_next_round
      then ok (in_timeout (timed_out_until - now))
      else failure p attempts

unfoldable pub with_timeout : PinPolicy → ℕ → Option ℕ → Option ℕ → ℕ → Run PinPolicyEvaluation
with_timeout p attempts (some last_failed) (some duration) now =
    timeout_checks p attempts last_failed duration now
with_timeout p attempts (some last_failed) none now = failure p attempts
with_timeout p attempts none _ now = failure p attempts

unfoldable pub evaluate : PinPolicy → ℕ → Option ℕ → ℕ → Run PinPolicyEvaluation
evaluate p attempts last_failed_pin now = do
  let is_first_attempt = is_none last_failed_pin && attempts == 1
  let has_failed_earlier = is_some last_failed_pin && ltb 1 attempts
  assert (is_first_attempt || has_failed_earlier)
  blocked ← is_blocked p attempts
  if blocked then ok blocked_permanently else (do
    duration ← current_timeout p attempts
    with_timeout p attempts last_failed_pin duration now)
