-- ===== src/WalletProvider/PinPolicy/Evaluation.antt =====
-- `evaluate` against a description by completed rounds and the position in the current round.
use nl_wallet.Base.{
  ℕ, suc, ◌+◌, ◌-◌, ◌*◌, ◌/◌, ◌%◌, ◌<◌, ◌≤◌, ◌≡◌, inl, inr, ◌&&◌, none, some, List, length,
  get_elem?, get_elem?-some, ltb, leb, le→leb, ◌==◌, if◌then◌else◌, Bool-cases, ok, arith,
}
use native.Mathlib.Decide.{dec_lt, dec_le}
use nl_wallet.WalletProvider.PinPolicy.Round.{
  div_at, mod_at, round_within, round_end, rounds_over, round_small,
}
use nl_wallet.WalletProvider.PinPolicy.{
  PinPolicy, PinPolicyEvaluation, failed, timeout, in_timeout, blocked_permanently, round_of,
  div_rem, current_round, is_blocked, is_final_round, attempts_left_in_round, current_timeout,
  failure, timeout_checks, with_timeout, evaluate, max_time,
}

-- A policy that `new` accepts, whose number of attempts fits a `u8`.
pub record IsValid (p : PinPolicy) : Type 0 where
  pub some_rounds : 0 < p.rounds
  pub some_attempts : 0 < p.attempts_per_round
  pub fits : p.rounds * p.attempts_per_round < 256
  pub all_timeouts : length p.timeouts ≡ p.rounds - 1

abbrev pub get_or : List ℕ → ℕ → ℕ
get_or xs i = elim (get_elem? xs i) [ none ↦ 0 | some x ↦ x ]

-- The rounds that are complete once the attempt at position `k` of the round after `q` complete ones
-- has failed.
abbrev pub completed : PinPolicy → ℕ → ℕ → ℕ
completed p q k = if k == p.attempts_per_round then q + 1 else q

-- The end of the pause that the last failure before the round after `q` complete ones started.
abbrev pub pause_end : PinPolicy → ℕ → ℕ → ℕ
pause_end p q last_failed = last_failed + get_or p.timeouts (q - 1)

abbrev pub verdict : PinPolicy → ℕ → ℕ → ℕ → ℕ → PinPolicyEvaluation
verdict p q k last_failed now =
    if leb p.rounds (completed p q k)
    then blocked_permanently
    else if k == p.attempts_per_round
    then timeout (get_or p.timeouts q)
    else if ltb 0 q && k == 1 && ltb now (pause_end p q last_failed)
    then in_timeout (pause_end p q last_failed - now)
    else failed (p.attempts_per_round - k) (q + 1 == p.rounds)

-- The policy's timeouts can be added to the time of the last failure.
abbrev pub IsTimely : PinPolicy → ℕ → Type 0
IsTimely p last_failed = (i : ℕ) → last_failed + get_or p.timeouts i ≤ max_time

module _ (p : PinPolicy) (valid : IsValid p) (a : ℕ) (positive : 0 < a) where
  is_blocked_lem : is_blocked p a ≡ ok (leb (p.rounds * p.attempts_per_round) a)
  unfolding is_blocked
  is_blocked_lem = ground arith

  current_timeout_lem :
      a < p.rounds * p.attempts_per_round
      → current_timeout p a
        ≡ ok (
            if ltb 1 a && ltb 0 (a / p.attempts_per_round)
            then get_elem? p.timeouts (a / p.attempts_per_round - 1)
            else none)
  unfolding current_timeout div_rem
  current_timeout_lem h = rw is_blocked_lem (ground arith)

  attempts_left_lem :
      a < p.rounds * p.attempts_per_round
      → attempts_left_in_round p a ≡ ok (p.attempts_per_round - a % p.attempts_per_round)
  unfolding attempts_left_in_round div_rem
  attempts_left_lem h = ground (arith, is_blocked_lem)

  is_final_round_lem :
      a < p.rounds * p.attempts_per_round
      → is_final_round p a
        ≡ ok (round_of (a / p.attempts_per_round) (a % p.attempts_per_round) == p.rounds)
  unfolding is_final_round current_round div_rem
  is_final_round_lem h = ground (arith, is_blocked_lem)

  failure_lem :
      a < p.rounds * p.attempts_per_round
      → failure p a
        ≡ ok (
            failed
              (p.attempts_per_round - a % p.attempts_per_round)
              (round_of (a / p.attempts_per_round) (a % p.attempts_per_round) == p.rounds))
  unfolding failure
  failure_lem h = rw (attempts_left_lem h, is_final_round_lem h)

-- The attempt at position `k` within a round, with more to come.
module _ (p : PinPolicy) (valid : IsValid p) (q k last_failed now : ℕ)
    (many : 1 < q * p.attempts_per_round + k) where
  blocked_lem :
      p.rounds * p.attempts_per_round ≤ q * p.attempts_per_round + k
      → evaluate p (q * p.attempts_per_round + k) (some last_failed) now ≡ ok blocked_permanently
  unfolding evaluate
  blocked_lem h =
      ground (arith, is_blocked_lem p valid (q * p.attempts_per_round + k) (omega arith))

  open_lem :
      q * p.attempts_per_round + k < p.rounds * p.attempts_per_round
      → evaluate p (q * p.attempts_per_round + k) (some last_failed) now
        ≡ with_timeout p
            (q * p.attempts_per_round + k)
            (some last_failed)
            (if ltb 0 ((q * p.attempts_per_round + k) / p.attempts_per_round)
              then get_elem? p.timeouts ((q * p.attempts_per_round + k) / p.attempts_per_round - 1)
              else none)
            now
  unfolding evaluate
  open_lem h = ground (
    arith,
    is_blocked_lem p valid (q * p.attempts_per_round + k) (omega arith),
    current_timeout_lem p valid (q * p.attempts_per_round + k) (omega arith) h,
  )

  left_at :
      k < p.attempts_per_round
      → q < p.rounds
      → attempts_left_in_round p (q * p.attempts_per_round + k) ≡ ok (p.attempts_per_round - k)
  left_at lt opened =
      rw
        (attempts_left_lem p valid (q * p.attempts_per_round + k) (omega arith)
          (round_within q p.attempts_per_round k p.rounds lt opened))
        (rw (mod_at q p.attempts_per_round k lt))

  failure_at :
      0 < k
      → k < p.attempts_per_round
      → q < p.rounds
      → failure p (q * p.attempts_per_round + k)
        ≡ ok (failed (p.attempts_per_round - k) (q + 1 == p.rounds))
  unfolding round_of
  failure_at pos lt opened =
      rw
        (failure_lem p valid (q * p.attempts_per_round + k) (omega arith)
          (round_within q p.attempts_per_round k p.rounds lt opened))
        (rw (mod_at q p.attempts_per_round k lt, div_at q p.attempts_per_round k lt)
          (ground (arith, grounded)))
    where
      grounded : q < 256
      grounded = grind arith

  -- What `current_timeout` finds: the timeout of the last complete round.
  timeout_found : (i : ℕ) → suc i < p.rounds → get_elem? p.timeouts i ≡ some (get_or p.timeouts i)
  timeout_found i h = ground (arith, get_elem?-some p.timeouts i (omega arith))

  checks_lem :
      (d : ℕ)
      → last_failed + d ≤ max_time
      → 0 < k
      → k < p.attempts_per_round
      → q < p.rounds
      → timeout_checks p (q * p.attempts_per_round + k) last_failed d now
        ≡ ok (
            if k == 1 && ltb now (last_failed + d)
            then in_timeout (last_failed + d - now)
            else failed (p.attempts_per_round - k) (q + 1 == p.rounds))
  unfolding timeout_checks
  checks_lem d fits pos lt opened =
      rw
        (
          le→leb (last_failed + d) max_time fits,
          left_at lt opened,
          timeout_checks,
          failure_at pos lt opened,
        )
        (ground (arith, round_small p.attempts_per_round p.rounds valid.some_rounds valid.fits))

  -- Before the round's last attempt.
  within_lem :
      IsTimely p last_failed
      → 0 < k
      → k < p.attempts_per_round
      → q < p.rounds
      → evaluate p (q * p.attempts_per_round + k) (some last_failed) now
        ≡ ok (verdict p q k last_failed now)
  unfolding with_timeout
  within_lem timely pos lt opened =
      rw
        (
          open_lem (round_within q p.attempts_per_round k p.rounds lt opened),
          div_at q p.attempts_per_round k lt,
        )
        (elim (Bool-cases (ltb 0 q)) [
          | inl later ↦
              rw (later, timeout_found (q - 1) (ground arith), with_timeout)
                (rw (checks_lem (get_or p.timeouts (q - 1)) (timely (q - 1)) pos lt opened)
                  (ground arith))
          | inr first ↦ rw first (ground (arith, failure_at pos lt opened))
        ])

-- The last attempt of a round but the last one.
last_lem :
    (p : PinPolicy) (valid : IsValid p) (q last_failed now : ℕ)
    → IsTimely p last_failed
    → 1 < p.attempts_per_round
    → suc q < p.rounds
    → evaluate p (suc q * p.attempts_per_round + 0) (some last_failed) now
      ≡ ok (timeout (get_or p.timeouts q))
unfolding with_timeout timeout_checks
last_lem p valid q last_failed now timely several opened =
    rw
      (
        open_lem p valid (suc q) 0 last_failed now many within,
        div_at (suc q) p.attempts_per_round 0 (omega arith),
      )
      (rw (less, timeout_found p valid (suc q) 0 last_failed now many q opened)
        (ground
          (arith, timely q, left_at p valid (suc q) 0 last_failed now many (omega arith) opened)))
  where
    many : 1 < suc q * p.attempts_per_round + 0
    many = grind arith

    within : suc q * p.attempts_per_round + 0 < p.rounds * p.attempts_per_round
    within = round_within (suc q) p.attempts_per_round 0 p.rounds (omega arith) opened

    less : suc q - 1 ≡ q
    less = omega arith

-- The last attempt of a round, which may be that of the last round.
last_case :
    (p : PinPolicy) (valid : IsValid p) (q k last_failed now : ℕ)
    → IsTimely p last_failed
    → 1 < p.attempts_per_round
    → q < p.rounds
    → k ≡ p.attempts_per_round
    → evaluate p (q * p.attempts_per_round + k) (some last_failed) now
      ≡ ok (verdict p q k last_failed now)
last_case p valid q k last_failed now timely several opened full =
    rw (full, round_end q p.attempts_per_round)
      (elim (dec_lt (suc q) p.rounds) [
        | yes more ↦ rw (last_lem p valid q last_failed now timely several more) (ground arith)
        | no final ↦
            rw
              (blocked_lem p valid (suc q) 0 last_failed now (grind arith)
                (rounds_over (suc q) p.attempts_per_round 0 p.rounds (omega arith)))
              (ground arith)
      ])

-- For a valid policy with more than one attempt in a round, whose timeouts can be added to the time of the
-- last failure within the range of chrono, `evaluate` answers the attempt at position
-- `k` of the round after `q` complete ones as `verdict` says: blocked once all rounds are complete, the
-- round's timeout at the end of a round, the rest of the running timeout when the first attempt of a
-- later round comes before its end, and otherwise the number of attempts left in the round and whether
-- it is the last one.
pub evaluate-verdict :
    (p : PinPolicy) (q k last_failed now : ℕ)
    → IsValid p
    → IsTimely p last_failed
    → 1 < p.attempts_per_round
    → 0 < k
    → k ≤ p.attempts_per_round
    → 1 < q * p.attempts_per_round + k
    → evaluate p (q * p.attempts_per_round + k) (some last_failed) now
      ≡ ok (verdict p q k last_failed now)
evaluate-verdict p q k last_failed now valid timely several pos le many = elim (dec_le p.rounds q) [
  | yes over ↦
      rw
        (blocked_lem p valid q k last_failed now many
          (rounds_over q p.attempts_per_round k p.rounds over))
        (ground arith)
  | no opened ↦ elim (dec_lt k p.attempts_per_round) [
    | yes lt ↦ within_lem p valid q k last_failed now many timely pos lt (omega arith)
    | no full ↦ last_case p valid q k last_failed now timely several (omega arith) (omega arith)
  ]
]
