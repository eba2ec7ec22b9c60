-- ===== src/WalletProvider/AccountServer/Retries.antt =====
-- The number of PIN attempts: what every instruction keeps of each user's row.
pub mod Runs
use nl_wallet.Base.{
  ℕ, ◌+◌, ◌*◌, ◌<◌, ◌≡◌, refl, sym, ap, ◌∙◌, subst, true, false, inl, inr, none, some, is_some,
  String, List, Exec, ok, arith,
}
use nl_wallet.WalletProvider.PinPolicy.{PinPolicy, PinPolicyEvaluation, u8, evaluate}
use nl_wallet.WalletProvider.PinPolicy.Evaluation.{IsValid}
use nl_wallet.WalletProvider.PinPolicy.Round.{product_pos}
use nl_wallet.WalletProvider.PinPolicy.Blocking.{evaluate-blocks}
use nl_wallet.WalletProvider.Users.{
  Db, UserRow, WalletUser, wallet_user, find_row, update_rows, without_challenge, with_failed_pin,
  without_failed_pins, with_sequence_number,
}
use nl_wallet.WalletProvider.Users.Lookup.{find-update_cases, find-update_self}
use nl_wallet.WalletProvider.AccountServer.{Environment, Instruction, InstructionError}
use nl_wallet.WalletProvider.AccountServer.Certificate.Owner.{
  IsOwner, verify_wallet_certificate-IsOwner,
}
use nl_wallet.WalletProvider.AccountServer.Instruct.{
  Generated, is_blocked_permanently, handle_instruction,
}
use nl_wallet.WalletProvider.AccountServer.Ends.{
  Evaluates, cleared_and, Outcome, refused, paused, wrong_pin, accepted,
}
use nl_wallet.WalletProvider.AccountServer.Outcome.{handle_instruction-Outcome}

-- A row that is not blocked has attempts left, and the time of a last failure is there exactly if a
-- failure is counted.
pub record IsRetryState (p : PinPolicy) (u : UserRow) : Type 0 where
  pub open_below : u.is_blocked ≡ false → u.pin_entries < p.rounds * p.attempts_per_round
  pub none_failed : u.pin_entries ≡ 0 → u.last_unsuccessful_pin ≡ none
  pub some_failed : 0 < u.pin_entries → is_some u.last_unsuccessful_pin ≡ true

-- So for every user that can be found.
abbrev pub AreRetryStates : PinPolicy → List UserRow → Type 0
AreRetryStates p us = (i : String) (u : UserRow) → find_row i us ≡ some u → IsRetryState p u

update-AreRetryStates :
    (p : PinPolicy) (i : String) (f : UserRow → UserRow) (us : List UserRow)
    → ((u : UserRow) → (f u).wallet_id ≡ u.wallet_id)
    → ((u : UserRow) → find_row i us ≡ some u → IsRetryState p (f u))
    → AreRetryStates p us
    → AreRetryStates p (update_rows i f us)
update-AreRetryStates p i f us keeps good all j v e = elim (find-update_cases i j f us v keeps e) [
  | inl (_, (u, hit, same)) ↦ subst (IsRetryState p) (sym same) (good u hit)
  | inr (_, old) ↦ all j v old
]

-- Counting a failure: the last attempt that the policy grants blocks the row.
with_failed_pin-IsRetryState :
    (p : PinPolicy) (u : UserRow) (e : PinPolicyEvaluation) (now later : ℕ)
    → IsValid p
    → IsRetryState p u
    → u.is_blocked ≡ false
    → evaluate p (u8 ((wallet_user u).unsuccessful_pin_entries + 1)) u.last_unsuccessful_pin now
      ≡ ok e
    → IsRetryState p (with_failed_pin (is_blocked_permanently e) later u)
with_failed_pin-IsRetryState p u e now later valid state free h =
    let below = state.open_below free in
    let (reached, _) =
      evaluate-blocks p (u8 ((wallet_user u).unsuccessful_pin_entries + 1)) u.last_unsuccessful_pin
        now e valid h in
    record {
      open_below = λ open_row. ground (arith, reached);
      none_failed = λ z. ground arith;
      some_failed = λ z. refl;
    }

without_failed_pins-IsRetryState :
    (p : PinPolicy) (u : UserRow) → IsValid p → IsRetryState p (without_failed_pins u)
without_failed_pins-IsRetryState p u valid = record {
  open_below =
      λ open_row. product_pos p.rounds p.attempts_per_round valid.some_rounds valid.some_attempts;
  none_failed = λ z. refl;
  some_failed = λ z. absurd (omega arith);
}

without_challenge-IsRetryState :
    (p : PinPolicy) (u : UserRow) → IsRetryState p u → IsRetryState p (without_challenge u)
without_challenge-IsRetryState p u s = record {
  open_below = s.open_below;
  none_failed = s.none_failed;
  some_failed = s.some_failed;
}

with_sequence_number-IsRetryState :
    (p : PinPolicy) (n : ℕ) (u : UserRow)
    → IsRetryState p u
    → IsRetryState p (with_sequence_number n u)
with_sequence_number-IsRetryState p n u s = record {
  open_below = s.open_below;
  none_failed = s.none_failed;
  some_failed = s.some_failed;
}

module _ (p : PinPolicy) (valid : IsValid p) (env : Environment) (g : Generated) (i : Instruction)
    (db : Db) (all : AreRetryStates p db.users) where
  cleared : (w : String) → AreRetryStates p (update_rows w without_challenge db.users)
  cleared w =
      update-AreRetryStates p w without_challenge db.users (λ u. refl)
        (λ u hit. without_challenge-IsRetryState p u (all w u hit)) all

  failed_once :
      (user : WalletUser) (e : PinPolicyEvaluation)
      → IsOwner env i.certificate db user
      → Evaluates env (evaluate p) g i db user e
      → (v : UserRow)
      → find_row user.wallet_id (update_rows user.wallet_id without_challenge db.users) ≡ some v
      → IsRetryState p (with_failed_pin (is_blocked_permanently e) g.failure_time v)
  failed_once user e owner h v hit =
      let (u, found_u, same) =
        find-update_self user.wallet_id without_challenge db.users v (λ u. refl) hit in
      let row_is : owner.row ≡ u = cc owner.stored in
      let state =
        without_challenge-IsRetryState p owner.row (all user.wallet_id owner.row owner.stored) in
      let evaluated =
        subst (λ (x : WalletUser). Evaluates env (evaluate p) g i db x e) owner.read h in
      subst
        (λ (x : UserRow).
          IsRetryState p (with_failed_pin (is_blocked_permanently e) g.failure_time x))
        (ap without_challenge row_is ∙ sym same)
        (with_failed_pin-IsRetryState p (without_challenge owner.row) e g.policy_time g.failure_time
          valid state owner.not_blocked evaluated)

  Outcome-AreRetryStates :
      {r : Exec InstructionError String} {us : List UserRow}
      → Outcome env (evaluate p) g i db r us
      → AreRetryStates p us
  Outcome-AreRetryStates (refused _ same) = rw same all
  Outcome-AreRetryStates (paused user left c h _ same) = rw same (cleared user.wallet_id)
  Outcome-AreRetryStates (wrong_pin user e signed c h _ _ _ same) = rw same (
      update-AreRetryStates p user.wallet_id _ _ (λ u. refl)
        (failed_once user e (verify_wallet_certificate-IsOwner env i.certificate db user c) h)
        (cleared user.wallet_id))
  Outcome-AreRetryStates (accepted user e payload c h _ _ _ same) = rw same (
      update-AreRetryStates p user.wallet_id _ _ (λ u. refl)
        (λ u hit.
          with_sequence_number-IsRetryState p payload.sequence_number u
            (reset user.wallet_id user.wallet_id u hit))
        (reset user.wallet_id))
    where
      reset : (w : String) → AreRetryStates p (cleared_and w without_failed_pins db.users)
      reset w =
          update-AreRetryStates p w without_failed_pins _ (λ u. refl)
            (λ u hit. without_failed_pins-IsRetryState p u valid) (cleared w)

-- With a valid policy, every instruction, however it ends, keeps for each user: a row that is not blocked
-- has fewer failures than the policy grants attempts, and the time of the last failure is there exactly
-- if a failure is counted.
pub handle_instruction-AreRetryStates :
    (p : PinPolicy) (env : Environment) (g : Generated) (i : Instruction) (db : Db)
    → IsValid p
    → AreRetryStates p db.users
    → AreRetryStates p (handle_instruction env (evaluate p) g i db).1.users
handle_instruction-AreRetryStates p env g i db valid all =
    Outcome-AreRetryStates p valid env g i db all
      (handle_instruction-Outcome env (evaluate p) g i db)
