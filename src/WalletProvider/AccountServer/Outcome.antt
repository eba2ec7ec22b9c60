-- ===== src/WalletProvider/AccountServer/Outcome.antt =====
-- What an instruction does to the users: each run of `handle_instruction` comes to one of its ends.
use nl_wallet.Base.{
  ℕ, ◌+◌, ◌≡◌, refl, ap, ◌≢◌, ok_or, ◌>>=◌, List, if◌then◌else◌, Exec, ok, err, panic, map_err,
  ◌>>◌, ◌∙◌, >>=-ok, map_err-ok, inl, inr, ◌⊎◌, arith,
}
use nl_wallet.WalletCommon.Signed.{SignedError}
use nl_wallet.WalletProvider.PinPolicy.{
  PinPolicyEvaluation, failed, timeout, in_timeout, blocked_permanently, u8,
}
use nl_wallet.WalletProvider.Users.{
  Db, KeyRow, WalletUser, with_failed_pin, without_failed_pins, with_sequence_number, update_rows,
  update_many, clear_instruction_challenge, reset_unsuccessful_pin_entries,
  update_instruction_sequence_number, register_unsuccessful_pin_entry,
}
use nl_wallet.WalletProvider.AccountServer.{
  Environment, Instruction, InstructionPayload, check_pin, generate_key, sign, InstructionResult,
  InstructionError, WalletCertificateError, InstructionValidationError, result_signing,
  verification_failed, error_of_evaluation, Decision, reject, proceed, settle, db_call, begin,
  clear_challenge, storage, commit, transaction, execution,
}
use nl_wallet.WalletProvider.AccountServer.Certificate.{verify_wallet_certificate}
use nl_wallet.WalletProvider.AccountServer.Instruct.{
  Generated, Evaluator, Payload, is_in_timeout, is_blocked_permanently, verify_instruction,
  conclude, instruction_transaction, carry_out, handle_instruction,
}
use nl_wallet.WalletProvider.AccountServer.Instruct.Keys.{handle, generate_keys, committed}
use nl_wallet.WalletProvider.AccountServer.Ends.{
  Evaluates, no_owner, owner_panic, Outcome, refused, paused, wrong_pin, accepted,
}
use nl_wallet.WalletProvider.AccountServer.Refusals.{transaction_err, transaction_panic}

-- The handlers of single instructions leave the users alone.
committed-users :
    (env : Environment) (db : Db) (m : Exec InstructionError (InstructionResult × List KeyRow))
    → (committed env db m).1.users ≡ db.users
committed-users env db (ok (r, rows)) = refl
committed-users env db (err e) = refl
committed-users env db panic = refl

handle-users :
    (env : Environment) (uuid : ℕ → ℕ) (user : WalletUser) (p : InstructionPayload) (db : Db)
    → (handle env uuid user p db).1.users ≡ db.users
unfolding handle
handle-users env uuid user check_pin db = refl
handle-users env uuid user (sign messages) db = refl
handle-users env uuid user (generate_key ids) db =
    committed-users env db (generate_keys env uuid user ids db)

module _ (env : Environment) (evaluate : Evaluator) (g : Generated) (i : Instruction) (db : Db)
    (user : WalletUser) where
  concluded_proceed :
      (e : PinPolicyEvaluation) (d db' : Db) (p : Payload)
      (v : Exec InstructionValidationError Payload)
      → conclude env g user e d v ≡ ok (proceed p, db')
      → (v ≡ ok p)
        × (db' ≡ record {
          users =
              update_rows user.wallet_id
                (with_sequence_number p.sequence_number)
                (update_rows user.wallet_id without_failed_pins d.users);
          keys = d.keys;
        })
  unfolding conclude reset_unsuccessful_pin_entries update_instruction_sequence_number update_many
  concluded_proceed e d db' p (ok q) h = ground arith
  concluded_proceed e d db' p (err (verification_failed x)) h = ground arith
  concluded_proceed e d db' p (err x) h = ground arith
  concluded_proceed e d db' p panic h = cc

  concluded_reject :
      (e : PinPolicyEvaluation) (d db' : Db) (x : InstructionError)
      (v : Exec InstructionValidationError Payload)
      → conclude env g user e d v ≡ ok (reject x, db')
      → (s : SignedError) × (v ≡ err (verification_failed s))
        × (x ≡ error_of_evaluation e)
        × (db'.users
            ≡ update_rows user.wallet_id
                (with_failed_pin (is_blocked_permanently e) g.failure_time)
                d.users)
  unfolding conclude register_unsuccessful_pin_entry update_many
  concluded_reject e d db' x (ok q) h = absurd (ground arith)
  concluded_reject e d db' x (err (verification_failed s)) h = (s, refl, ground arith, ground arith)
  concluded_reject e d db' x (err z) h = absurd (ground arith)
  concluded_reject e d db' x panic h = cc

  -- What follows the evaluation: a pause, or the conclusion `c`.
  after_evaluation :
      (e : PinPolicyEvaluation) (db1 : Db)
      (c : Exec InstructionError (Decision InstructionError Payload × Db))
      (d : Decision InstructionError Payload × Db)
      → (if is_in_timeout e
          then (db_call env commit (storage transaction)
              >> ok (reject (error_of_evaluation e), db1))
          else c)
        ≡ ok d
      → ((left : ℕ) × (e ≡ in_timeout left) × (d ≡ (reject (error_of_evaluation e), db1)))
        ⊎ (((left : ℕ) → e ≢ in_timeout left) × (c ≡ ok d))
  after_evaluation (in_timeout left) db1 c d h =
      let (_, _, h1) = >>=-ok (db_call env commit (storage transaction)) _ h in inl (left, refl, cc)
  after_evaluation (failed n b) db1 c d h = inr (λ left p. cc, h)
  after_evaluation (timeout n) db1 c d h = inr (λ left p. cc, h)
  after_evaluation blocked_permanently db1 c d h = inr (λ left p. cc, h)

  -- A transaction that commits: paused, or concluded by the verification.
  committed_transaction :
      (d : Decision InstructionError Payload × Db)
      → instruction_transaction env evaluate g i.instruction user db ≡ ok d
      → (e : PinPolicyEvaluation) × Evaluates env evaluate g i db user e
        × (((left : ℕ) × (e ≡ in_timeout left)
              × (d ≡ (
                reject (error_of_evaluation e),
                clear_instruction_challenge user.wallet_id db,
              )))
            ⊎ (((left : ℕ) → e ≢ in_timeout left)
                × (conclude env g user e
                      (clear_instruction_challenge user.wallet_id db)
                      (verify_instruction env i.instruction user g.challenge_time)
                    ≡ ok d)))
  unfolding instruction_transaction
  committed_transaction d h =
      let (_, _, h1) = >>=-ok (db_call env begin (storage transaction)) _ h in
      let (_, _, h2) = >>=-ok (db_call env clear_challenge (storage execution)) _ h1 in
      let (e, v, h3) =
        >>=-ok
          (map_err absurd (
            evaluate (u8 (user.unsuccessful_pin_entries + 1)) user.last_unsuccessful_pin_entry
              g.policy_time))
          _ h2 in
      (
        e,
        map_err-ok absurd _ v,
        after_evaluation e (clear_instruction_challenge user.wallet_id db) _ d h3,
      )

  module _ (certified : verify_wallet_certificate env i.certificate db ≡ ok user) where
    settled :
        (d : Exec InstructionError (Decision InstructionError Payload × Db))
        → instruction_transaction env evaluate g i.instruction user db ≡ d
        → let h = settle db d (carry_out env g user) in Outcome env evaluate g i db h.0 h.1.users
    unfolding carry_out clear_instruction_challenge update_many
    settled (err e) t = refused (transaction_err env evaluate g i db user certified e t) refl
    settled panic t = refused (transaction_panic env evaluate g i db user certified t) refl
    settled (ok (reject x, db')) t =
        let (e, v, cases) = committed_transaction (reject x, db') t in
        elim cases [
          | inl (left, p, q) ↦ paused user left certified (cc) (ground arith) (ground arith)
          | inr (p, c) ↦
              let (s, w, xe, us) = concluded_reject e _ db' x _ c in
              wrong_pin user e s certified v p w (ap err xe) us
        ]
    settled (ok (proceed payload, db')) t =
        let (e, v, cases) = committed_transaction (proceed payload, db') t in
        elim cases [
          | inl (left, p, q) ↦ absurd (ground arith)
          | inr (p, c) ↦
              let (w, us) = concluded_proceed e _ db' payload _ c in
              accepted user e payload certified v p w
                (ap
                  (λ c. (handle env g.uuid user payload.payload c).0 >>= λ x.
                    ok_or (env.sign_result x) result_signing)
                  us)
                (handle-users env g.uuid user payload.payload db' ∙ ap (λ c. c.users) us)
        ]

-- Whatever the environment answers, an instruction is refused with the users as they were, or it is paused
-- with the challenge cleared, or its signatures, challenge or sequence number did not verify, and a failure is
-- recorded, or it is accepted, with the failures reset and the sequence number taken over. Refused means:
-- the certificate has no owner, a call of the database failed, the challenge is missing or expired or the
-- PIN key does not decrypt, or the code panics in one of these or in the policy. The result is the error of
-- the cause, that of the policy's evaluation after a pause or a failure, and the signed result of the
-- instruction's handler, or its error, once it is accepted.
pub handle_instruction-Outcome :
    (env : Environment) (evaluate : Evaluator) (g : Generated) (i : Instruction) (db : Db)
    → let h = handle_instruction env evaluate g i db in Outcome env evaluate g i db h.0 h.1.users
unfolding handle_instruction
handle_instruction-Outcome env evaluate g i db =
    by_certificate (verify_wallet_certificate env i.certificate db) refl
  where
    by_certificate :
        (c : Exec WalletCertificateError WalletUser)
        → verify_wallet_certificate env i.certificate db ≡ c
        → let h = handle_instruction env evaluate g i db in
          Outcome env evaluate g i db h.0 h.1.users
    by_certificate (ok user) e =
        rw (e, handle_instruction) (settled env evaluate g i db user e _ refl)
    by_certificate (err x) e = rw (e, handle_instruction) (refused (no_owner x e refl) refl)
    by_certificate panic e = rw (e, handle_instruction) (refused (owner_panic e refl) refl)
