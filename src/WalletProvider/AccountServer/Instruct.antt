-- ===== src/WalletProvider/AccountServer/Instruct.antt =====
-- `handle_instruction`, `verify_instruction`, and the handlers of the instructions.
pub mod Keys
use nl_wallet.Base.{
  ℕ, ◌+◌, ◌%◌, Bool, true, false, Option, none, some, String, Bytes, ltb, if◌then◌else◌, Exec, ok,
  err, panic, ok_or, guard, map_err, ◌>>=◌, ◌>>◌,
}
use nl_wallet.WalletCommon.Signed.{ChallengeResponsePayload, larger_than, parse_and_verify}
use nl_wallet.WalletProvider.PinPolicy.{
  PinPolicyEvaluation, in_timeout, blocked_permanently, u8, Run,
}
use nl_wallet.WalletProvider.Users.{
  Db, WalletUser, InstructionChallenge, clear_instruction_challenge, reset_unsuccessful_pin_entries,
  update_instruction_sequence_number, register_unsuccessful_pin_entry,
}
use nl_wallet.WalletProvider.AccountServer.{
  Environment, Instruction, InstructionPayload, InstructionResult, InstructionError,
  InstructionValidationError, challenge_mismatch, challenge_timeout, validation_hsm_error,
  verification_failed, instruction_validation, wallet_certificate, storage, result_signing,
  transaction, execution, error_of_evaluation, Decision, reject, proceed, settle, db_call, begin,
  clear_challenge, reset_pins, write_sequence, register_pin, commit,
}
use nl_wallet.WalletProvider.AccountServer.Certificate.{verify_wallet_certificate}
use Keys.{handle}

-- What the generators yield for one instruction: the times read for the policy, for the challenge and
-- for the record of a failure, and the identifiers of new keys.
pub record Generated : Type 0 where
  pub policy_time : ℕ
  pub challenge_time : ℕ
  pub failure_time : ℕ
  pub uuid : ℕ → ℕ

-- `PinPolicyEvaluator`
abbrev pub Evaluator : Type 0
Evaluator = ℕ → Option ℕ → ℕ → Run PinPolicyEvaluation

abbrev pub is_in_timeout : PinPolicyEvaluation → Bool
is_in_timeout (in_timeout _) = true
is_in_timeout _ = false

abbrev pub is_blocked_permanently : PinPolicyEvaluation → Bool
is_blocked_permanently blocked_permanently = true
is_blocked_permanently _ = false

abbrev pub Payload : Type 0
Payload = ChallengeResponsePayload InstructionPayload

module _ (env : Environment) where
  unfoldable pub verify_instruction :
      String → WalletUser → ℕ → Exec InstructionValidationError Payload
  verify_instruction instruction user now = do
    challenge ← ok_or user.instruction_challenge challenge_mismatch
    if ltb challenge.expiration_date_time now then err challenge_timeout else (do
      pin_pubkey ← ok_or (env.decrypt user.encrypted_pin_pubkey) validation_hsm_error
      map_err verification_failed (
          parse_and_verify env.codec instruction challenge.bytes
            (larger_than user.instruction_sequence_number) user.hw_pubkey pin_pubkey))

  -- The arms of the `match` on the verification. `Err(validation_error)?` returns before the commit.
  unfoldable pub conclude :
      Generated
      → WalletUser
      → PinPolicyEvaluation
      → Db
      → Exec InstructionValidationError Payload
      → Exec InstructionError (Decision InstructionError Payload × Db)
  conclude generated user pin_eval db (ok payload) = do
    db_call env reset_pins (storage execution)
    let db1 = reset_unsuccessful_pin_entries user.wallet_id db
    db_call env write_sequence (storage execution)
    let db2 = update_instruction_sequence_number user.wallet_id payload.sequence_number db1
    db_call env commit (storage transaction)
    ok (proceed payload, db2)
  conclude generated user pin_eval db (err (verification_failed e)) = do
    db_call env register_pin (storage execution)
    let blocks = is_blocked_permanently pin_eval
    let db1 = register_unsuccessful_pin_entry user.wallet_id blocks generated.failure_time db
    db_call env commit (storage transaction)
    ok (reject (error_of_evaluation pin_eval), db1)
  conclude generated user pin_eval db (err e) = err (instruction_validation e)
  conclude generated user pin_eval db panic = panic

  -- The transaction that clears the challenge, evaluates the policy and verifies the instruction.
  unfoldable pub instruction_transaction :
      Evaluator
      → Generated
      → String
      → WalletUser
      → Db
      → Exec InstructionError (Decision InstructionError Payload × Db)
  instruction_transaction evaluate generated instruction user db = do
    db_call env begin (storage transaction)
    db_call env clear_challenge (storage execution)
    let db1 = clear_instruction_challenge user.wallet_id db
    pin_eval ← map_err absurd (
        evaluate (u8 (user.unsuccessful_pin_entries + 1)) user.last_unsuccessful_pin_entry
          generated.policy_time)
    if is_in_timeout pin_eval
        then (do
          db_call env commit (storage transaction)
          ok (reject (error_of_evaluation pin_eval), db1))
        else conclude generated user pin_eval db1
            (verify_instruction instruction user generated.challenge_time)

  -- After the commit: the instruction itself, and the signature on its result.
  unfoldable pub carry_out :
      Generated → WalletUser → Payload → Db → Exec InstructionError String × Db
  carry_out generated user payload db =
      let (result, db') = handle env generated.uuid user payload.payload db in
      (result >>= (λ r. ok_or (env.sign_result r) result_signing), db')

  unfoldable pub handle_instruction :
      Evaluator → Generated → Instruction → Db → Exec InstructionError String × Db
  handle_instruction evaluate generated i db =
      elim (verify_wallet_certificate env i.certificate db) [
        | err e ↦ (err (wallet_certificate e), db)
        | panic ↦ (panic, db)
        | ok user ↦
            settle db (instruction_transaction evaluate generated i.instruction user db)
              (carry_out generated user)
      ]
