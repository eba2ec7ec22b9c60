-- ===== src/WalletProvider/AccountServer/Ends.antt =====
-- The ends that `handle_instruction` can come to, as a relation.
use nl_wallet.Base.{ℕ, ◌+◌, ◌≡◌, ◌≢◌, false, ok_or, ◌>>=◌, String, List, Exec, ok, err, panic}
use nl_wallet.WalletCommon.Signed.{SignedError}
use nl_wallet.WalletProvider.PinPolicy.{PinPolicyEvaluation, in_timeout, u8}
use nl_wallet.WalletProvider.Users.{
  Db, UserRow, WalletUser, without_challenge, with_failed_pin, without_failed_pins,
  with_sequence_number, update_rows,
}
use nl_wallet.WalletProvider.AccountServer.{
  Environment, Instruction, InstructionError, WalletCertificateError, InstructionValidationError,
  instruction_validation, wallet_certificate, result_signing, DbCall, PersistenceError,
  verification_failed, error_of_evaluation, storage,
}
use nl_wallet.WalletProvider.AccountServer.Certificate.{verify_wallet_certificate}
use nl_wallet.WalletProvider.AccountServer.Instruct.{
  Generated, Evaluator, Payload, is_blocked_permanently, verify_instruction,
}
use nl_wallet.WalletProvider.AccountServer.Instruct.Keys.{handle}

-- The users after the challenge of wallet `i` is cleared and `f` is done to its row.
abbrev pub cleared_and : String → (UserRow → UserRow) → List UserRow → List UserRow
cleared_and i f us = update_rows i f (update_rows i without_challenge us)

module _ (env : Environment) (evaluate : Evaluator) (g : Generated) (i : Instruction)
    (db : Db) where
  -- The evaluation of the policy for the user's next attempt.
  abbrev pub Evaluates : WalletUser → PinPolicyEvaluation → Type 0
  Evaluates user e =
      evaluate (u8 (user.unsuccessful_pin_entries + 1)) user.last_unsuccessful_pin_entry
        g.policy_time
      ≡ ok e

  -- Why an instruction is refused with the users as they were.
  pub data IsRefused (r : Exec InstructionError String) : Type 0 where
    no_owner :
        (x : WalletCertificateError)
        → verify_wallet_certificate env i.certificate db ≡ err x
        → r ≡ err (wallet_certificate x)
        → IsRefused r
    owner_panic : verify_wallet_certificate env i.certificate db ≡ panic → r ≡ panic → IsRefused r
    no_storage :
        (call : DbCall) (x : PersistenceError)
        → env.db_ok call ≡ false
        → r ≡ err (storage x)
        → IsRefused r
    evaluation_panic :
        (user : WalletUser)
        → verify_wallet_certificate env i.certificate db ≡ ok user
        → evaluate
            (u8 (user.unsuccessful_pin_entries + 1))
            user.last_unsuccessful_pin_entry
            g.policy_time
          ≡ panic
        → r ≡ panic
        → IsRefused r
    invalid :
        (user : WalletUser) (x : InstructionValidationError)
        → verify_wallet_certificate env i.certificate db ≡ ok user
        → verify_instruction env i.instruction user g.challenge_time ≡ err x
        → ((s : SignedError) → x ≢ verification_failed s)
        → r ≡ err (instruction_validation x)
        → IsRefused r
    verification_panic :
        (user : WalletUser)
        → verify_wallet_certificate env i.certificate db ≡ ok user
        → verify_instruction env i.instruction user g.challenge_time ≡ panic
        → r ≡ panic
        → IsRefused r

  -- The users after the transaction of an accepted instruction.
  abbrev pub accepted_users : WalletUser → Payload → List UserRow
  accepted_users user payload =
      update_rows user.wallet_id (with_sequence_number payload.sequence_number)
        (cleared_and user.wallet_id without_failed_pins db.users)

  -- The result and the users afterwards.
  pub data Outcome (r : Exec InstructionError String) (us : List UserRow) : Type 0 where
    refused : IsRefused r → us ≡ db.users → Outcome r us
    paused :
        (user : WalletUser) (left : ℕ)
        → verify_wallet_certificate env i.certificate db ≡ ok user
        → Evaluates user (in_timeout left)
        → r ≡ err (error_of_evaluation (in_timeout left))
        → us ≡ update_rows user.wallet_id without_challenge db.users
        → Outcome r us
    wrong_pin :
        (user : WalletUser) (e : PinPolicyEvaluation) (signed : SignedError)
        → verify_wallet_certificate env i.certificate db ≡ ok user
        → Evaluates user e
        → ((left : ℕ) → e ≢ in_timeout left)
        → verify_instruction env i.instruction user g.challenge_time
          ≡ err (verification_failed signed)
        → r ≡ err (error_of_evaluation e)
        → us
          ≡ cleared_and user.wallet_id
              (with_failed_pin (is_blocked_permanently e) g.failure_time)
              db.users
        → Outcome r us
    accepted :
        (user : WalletUser) (e : PinPolicyEvaluation) (payload : Payload)
        → verify_wallet_certificate env i.certificate db ≡ ok user
        → Evaluates user e
        → ((left : ℕ) → e ≢ in_timeout left)
        → verify_instruction env i.instruction user g.challenge_time ≡ ok payload
        → r ≡ (
            (handle env g.uuid user payload.payload
              (record { users = accepted_users user payload; keys = db.keys })).0
            >>= λ x. ok_or (env.sign_result x) result_signing)
        → us ≡ accepted_users user payload
        → Outcome r us

  -- What is refused is not a success.
  pub refused-fails : (r : Exec InstructionError String) (text : String) → IsRefused r → r ≢ ok text
  refused-fails r text (no_owner x _ e) h = cc
  refused-fails r text (owner_panic _ e) h = cc
  refused-fails r text (no_storage call x _ e) h = cc
  refused-fails r text (evaluation_panic user _ _ e) h = cc
  refused-fails r text (invalid user x _ _ _ e) h = cc
  refused-fails r text (verification_panic user _ _ e) h = cc
