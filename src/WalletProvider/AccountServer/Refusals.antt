-- ===== src/WalletProvider/AccountServer/Refusals.antt =====
-- Why the transaction of an instruction ends without a result to commit.
use nl_wallet.Base.{
  ◌+◌, ◌≡◌, refl, ap, Bool-cases, ◌>>=◌, if◌then◌else◌, Exec, ok, err, panic, map_err, ◌>>◌, inl,
  inr, ◌⊎◌, arith,
}
use nl_wallet.WalletProvider.PinPolicy.{
  PinPolicyEvaluation, failed, timeout, in_timeout, blocked_permanently, u8, Run,
}
use nl_wallet.WalletProvider.Users.{Db, WalletUser, clear_instruction_challenge}
use nl_wallet.WalletProvider.AccountServer.{
  Environment, Instruction, InstructionError, InstructionValidationError, challenge_mismatch,
  challenge_timeout, validation_hsm_error, DbCall, PersistenceError, reset_pins, write_sequence,
  register_pin, verification_failed, error_of_evaluation, Decision, reject, db_call, begin,
  clear_challenge, storage, commit, transaction, execution,
}
use nl_wallet.WalletProvider.AccountServer.Certificate.{verify_wallet_certificate}
use nl_wallet.WalletProvider.AccountServer.Instruct.{
  Generated, Evaluator, Payload, is_in_timeout, verify_instruction, conclude,
  instruction_transaction,
}
use nl_wallet.WalletProvider.AccountServer.Ends.{
  IsRefused, no_storage, evaluation_panic, invalid, verification_panic,
}

module _ (env : Environment) (evaluate : Evaluator) (g : Generated) (i : Instruction) (db : Db)
    (user : WalletUser) where
  -- A call of the database that fails is the cause of the refusal.
  failed_call :
      {A : Type 0} (call : DbCall) (x : PersistenceError) (k : Exec InstructionError A)
      (e : InstructionError)
      → (db_call env call (storage x) >> k) ≡ err e
      → IsRefused env evaluate g i db (err e) ⊎ (k ≡ err e)
  failed_call call x k e h = elim (Bool-cases (env.db_ok call)) [
    | inl up ↦ inr (ground (arith, up))
    | inr down ↦ inl (no_storage call x down (ap err (ground (arith, down))))
  ]

  call-panic :
      {A : Type 0} (call : DbCall) (x : PersistenceError) (k : Exec InstructionError A)
      → (db_call env call (storage x) >> k) ≡ panic
      → k ≡ panic
  call-panic call x k h = elim (Bool-cases (env.db_ok call)) [
    | inl up ↦ ground (arith, up)
    | inr down ↦ absurd (ground (arith, down))
  ]

  module _ (certified : verify_wallet_certificate env i.certificate db ≡ ok user) where
    concluded_err :
        (e : PinPolicyEvaluation) (d : Db) (v : Exec InstructionValidationError Payload)
        (x : InstructionError)
        → verify_instruction env i.instruction user g.challenge_time ≡ v
        → conclude env g user e d v ≡ err x
        → IsRefused env evaluate g i db (err x)
    unfolding conclude
    concluded_err e d (ok p) x w h = elim (failed_call reset_pins execution _ x h) [
      | inl cause ↦ cause
      | inr h1 ↦ elim (failed_call write_sequence execution _ x h1) [
        | inl cause ↦ cause
        | inr h2 ↦ elim (failed_call commit transaction _ x h2) [
          | inl cause ↦ cause
          | inr h3 ↦ absurd (cc)
        ]
      ]
    ]
    concluded_err e d (err (verification_failed s)) x w h =
        elim (failed_call register_pin execution _ x h) [
          | inl cause ↦ cause
          | inr h1 ↦ elim (failed_call commit transaction _ x h1) [
            | inl cause ↦ cause
            | inr h2 ↦ absurd (cc)
          ]
        ]
    concluded_err e d (err challenge_mismatch) x w h =
        invalid user challenge_mismatch certified w (λ s n. cc) (ap err (ground arith))
    concluded_err e d (err challenge_timeout) x w h =
        invalid user challenge_timeout certified w (λ s n. cc) (ap err (ground arith))
    concluded_err e d (err validation_hsm_error) x w h =
        invalid user validation_hsm_error certified w (λ s n. cc) (ap err (ground arith))
    concluded_err e d panic x w h = cc

    concluded_panic :
        (e : PinPolicyEvaluation) (d : Db) (v : Exec InstructionValidationError Payload)
        → verify_instruction env i.instruction user g.challenge_time ≡ v
        → conclude env g user e d v ≡ panic
        → IsRefused env evaluate g i db panic
    unfolding conclude
    concluded_panic e d (ok p) w h =
        let h1 = call-panic reset_pins execution _ h in
        let h2 = call-panic write_sequence execution _ h1 in
        let h3 = call-panic commit transaction _ h2 in absurd (cc)
    concluded_panic e d (err (verification_failed s)) w h =
        let h1 = call-panic register_pin execution _ h in
        let h2 = call-panic commit transaction _ h1 in absurd (cc)
    concluded_panic e d (err challenge_mismatch) w h = cc
    concluded_panic e d (err challenge_timeout) w h = cc
    concluded_panic e d (err validation_hsm_error) w h = cc
    concluded_panic e d panic w h = verification_panic user certified w refl

    after_err :
        (e : PinPolicyEvaluation) (d : Db) (x : InstructionError)
        → (if is_in_timeout e
            then (db_call env commit (storage transaction)
                >> ok (reject (error_of_evaluation e), d))
            else conclude env g user e d
                (verify_instruction env i.instruction user g.challenge_time))
          ≡ err x
        → IsRefused env evaluate g i db (err x)
    after_err (in_timeout left) d x h = elim (failed_call commit transaction _ x h) [
      | inl cause ↦ cause
      | inr h1 ↦ absurd (cc)
    ]
    after_err (failed n b) d x h = concluded_err (failed n b) d _ x refl h
    after_err (timeout n) d x h = concluded_err (timeout n) d _ x refl h
    after_err blocked_permanently d x h = concluded_err blocked_permanently d _ x refl h

    after_panic :
        (e : PinPolicyEvaluation) (d : Db)
        → (if is_in_timeout e
            then (db_call env commit (storage transaction)
                >> ok (reject (error_of_evaluation e), d))
            else conclude env g user e d
                (verify_instruction env i.instruction user g.challenge_time))
          ≡ panic
        → IsRefused env evaluate g i db panic
    after_panic (in_timeout left) d h = let h1 = call-panic commit transaction _ h in absurd (cc)
    after_panic (failed n b) d h = concluded_panic (failed n b) d _ refl h
    after_panic (timeout n) d h = concluded_panic (timeout n) d _ refl h
    after_panic blocked_permanently d h = concluded_panic blocked_permanently d _ refl h

    evaluated_err :
        (v : Run PinPolicyEvaluation)
        (k : PinPolicyEvaluation → Exec InstructionError (Decision InstructionError Payload × Db))
        (x : InstructionError)
        → ((e : PinPolicyEvaluation) → k e ≡ err x → IsRefused env evaluate g i db (err x))
        → (map_err absurd v >>= k) ≡ err x
        → IsRefused env evaluate g i db (err x)
    evaluated_err (ok e) k x rest h = rest e h
    evaluated_err (err u) k x rest h = absurd u
    evaluated_err panic k x rest h = cc

    evaluated_panic :
        (v : Run PinPolicyEvaluation)
        (k : PinPolicyEvaluation → Exec InstructionError (Decision InstructionError Payload × Db))
        → evaluate
            (u8 (user.unsuccessful_pin_entries + 1))
            user.last_unsuccessful_pin_entry
            g.policy_time
          ≡ v
        → ((e : PinPolicyEvaluation) → k e ≡ panic → IsRefused env evaluate g i db panic)
        → (map_err absurd v >>= k) ≡ panic
        → IsRefused env evaluate g i db panic
    evaluated_panic (ok e) k w rest h = rest e h
    evaluated_panic (err u) k w rest h = absurd u
    evaluated_panic panic k w rest h = evaluation_panic user certified w refl

    pub transaction_err :
        (x : InstructionError)
        → instruction_transaction env evaluate g i.instruction user db ≡ err x
        → IsRefused env evaluate g i db (err x)
    unfolding instruction_transaction
    transaction_err x h = elim (failed_call begin transaction _ x h) [
      | inl cause ↦ cause
      | inr h1 ↦ elim (failed_call clear_challenge execution _ x h1) [
        | inl cause ↦ cause
        | inr h2 ↦
            evaluated_err _ _ x (λ e. after_err e (clear_instruction_challenge user.wallet_id db) x)
              h2
      ]
    ]

    pub transaction_panic :
        instruction_transaction env evaluate g i.instruction user db ≡ panic
        → IsRefused env evaluate g i db panic
    unfolding instruction_transaction
    transaction_panic h =
        let h1 = call-panic begin transaction _ h in
        let h2 = call-panic clear_challenge execution _ h1 in
        evaluated_panic _ _ refl
          (λ e. after_panic e (clear_instruction_challenge user.wallet_id db)) h2
