-- ===== src/WalletProvider/AccountServer/Challenge.antt =====
-- `instruction_challenge`: a wallet asks for a challenge before each instruction.
use nl_wallet.Base.{
  ℕ, ◌+◌, ◌<◌, ◌≡◌, ◌≢◌, ◌⊎◌, refl, ap, inl, inr, some, String, Bytes, List, leb, if◌then◌else◌,
  Exec, ok, err, panic, ok_or, ok_or-ok, map_err, map_err-ok, ◌>>=◌, ◌>>◌, >>=-ok, arith,
}
use nl_wallet.WalletProvider.Users.{
  Db, UserRow, find_row, WalletUser, InstructionChallenge, update_rows, update_many, with_challenge,
  with_sequence_number, update_instruction_sequence_number,
  update_instruction_challenge_and_sequence_number,
}
use nl_wallet.WalletProvider.Users.Lookup.{find-update_hit}
use nl_wallet.WalletProvider.AccountServer.{
  Environment, ChallengeError, challenge_storage, challenge_validation, challenge_certificate,
  sequence_number_validation, transaction, execution, Decision, reject, proceed, settle, db_call,
  begin, write_challenge, commit,
}
use nl_wallet.WalletProvider.AccountServer.Certificate.{verify_wallet_certificate}
use nl_wallet.WalletProvider.AccountServer.Certificate.Owner.{
  IsOwner, verify_wallet_certificate-IsOwner,
}

-- `InstructionChallengeRequestMessage`, with what the server generates for it: random bytes and the time,
-- and the server's setting `instruction_challenge_timeout`.
pub record ChallengeRequest : Type 0 where
  pub message : String
  pub certificate : String
  pub random : Bytes
  pub time : ℕ
  pub timeout : ℕ

abbrev pub new_challenge : ChallengeRequest → InstructionChallenge
new_challenge q = record { bytes = q.random; expiration_date_time = q.time + q.timeout }

module _ (env : Environment) (q : ChallengeRequest) (db : Db) where
  unfoldable pub answer_challenge :
      WalletUser → ℕ → Exec ChallengeError (Decision ChallengeError Bytes × Db)
  answer_challenge user number =
      if leb number user.instruction_sequence_number
      then (do
        db_call env commit (challenge_storage transaction)
        ok (reject sequence_number_validation, db))
      else (do
        db_call env write_challenge (challenge_storage execution)
        let db' =
            update_instruction_challenge_and_sequence_number user.wallet_id (new_challenge q) number
              db
        db_call env commit (challenge_storage transaction)
        ok (proceed q.random, db'))

  unfoldable pub challenge_transaction : Exec ChallengeError (Decision ChallengeError Bytes × Db)
  challenge_transaction = do
    db_call env begin (challenge_storage transaction)
    user ← map_err challenge_certificate (verify_wallet_certificate env q.certificate db)
    number ← ok_or (env.parse_challenge_request q.message user.hw_pubkey) challenge_validation
    answer_challenge user number

  unfoldable pub instruction_challenge : Exec ChallengeError Bytes × Db
  instruction_challenge = settle db challenge_transaction (λ bytes db'. (ok bytes, db'))

  -- What a challenge that is handed out rests on, and what it leaves.
  pub record IsChallenged (r : Exec ChallengeError Bytes) (after : List UserRow) : Type 0 where
    pub user : WalletUser
    pub owner : IsOwner env q.certificate db user
    pub number : ℕ
    pub requested : env.parse_challenge_request q.message user.hw_pubkey ≡ some number
    pub advances : user.instruction_sequence_number < number
    pub answer : r ≡ ok q.random
    pub updated :
        after
        ≡ update_rows user.wallet_id
            (with_challenge
              (record { bytes = q.random; expiration_date_time = q.time + q.timeout }))
            (update_rows user.wallet_id (with_sequence_number number) db.users)
    pub row_after :
        find_row user.wallet_id after
        ≡ some (record owner.row {
          instruction_sequence_number = number;
          challenge = some (record { bytes = q.random; expiration_date_time = q.time + q.timeout });
        })

  answered :
      (user : WalletUser) (number : ℕ) (bytes : Bytes) (db' : Db)
      → answer_challenge user number ≡ ok (proceed bytes, db')
      → (user.instruction_sequence_number < number)
        × (bytes ≡ q.random)
        × (db'.users
            ≡ update_rows user.wallet_id
                (with_challenge
                  (record { bytes = q.random; expiration_date_time = q.time + q.timeout }))
                (update_rows user.wallet_id (with_sequence_number number) db.users))
  unfolding answer_challenge update_instruction_challenge_and_sequence_number
      update_instruction_sequence_number update_many
  answered user number bytes db' e = (ground arith, ground arith, ground arith)

  rejected :
      (user : WalletUser) (number : ℕ) (x : ChallengeError) (db' : Db)
      → answer_challenge user number ≡ ok (reject x, db')
      → db' ≡ db
  unfolding answer_challenge
  rejected user number x db' e = ground arith

  found_after :
      (w : String) (number : ℕ) (row : UserRow) (after : List UserRow)
      → find_row w db.users ≡ some row
      → after
        ≡ update_rows w
            (with_challenge
              (record { bytes = q.random; expiration_date_time = q.time + q.timeout }))
            (update_rows w (with_sequence_number number) db.users)
      → find_row w after
        ≡ some (record row {
          instruction_sequence_number = number;
          challenge = some (record { bytes = q.random; expiration_date_time = q.time + q.timeout });
        })
  found_after w number row after stored same = rw same (
      find-update_hit w
        (with_challenge (record { bytes = q.random; expiration_date_time = q.time + q.timeout })) _
        _ (λ u. refl)
        (find-update_hit w (with_sequence_number number) db.users row (λ u. refl) stored))

  settled :
      (t : Exec ChallengeError (Decision ChallengeError Bytes × Db))
      → challenge_transaction ≡ t
      → let h = settle db t (λ bytes db'. (ok bytes, db')) in
        (((bytes : Bytes) → h.0 ≢ ok bytes) × (h.1 ≡ db)) ⊎ IsChallenged h.0 h.1.users
  unfolding challenge_transaction
  settled (err x) e = inl (λ b h. cc, refl)
  settled panic e = inl (λ b h. cc, refl)
  settled (ok (reject x, db')) e =
      let (_, _, e1) = >>=-ok (db_call env begin (challenge_storage transaction)) _ e in
      let (user, c, e2) =
        >>=-ok (map_err challenge_certificate (verify_wallet_certificate env q.certificate db)) _
          e1 in
      let (number, n, e3) =
        >>=-ok (ok_or (env.parse_challenge_request q.message user.hw_pubkey) challenge_validation) _
          e2 in
      inl (λ b h. cc, rejected user number x db' e3)
  settled (ok (proceed bytes, db')) e =
      let (_, _, e1) = >>=-ok (db_call env begin (challenge_storage transaction)) _ e in
      let (user, c, e2) =
        >>=-ok (map_err challenge_certificate (verify_wallet_certificate env q.certificate db)) _
          e1 in
      let (number, n, e3) =
        >>=-ok (ok_or (env.parse_challenge_request q.message user.hw_pubkey) challenge_validation) _
          e2 in
      let (advances, answer, updated) = answered user number bytes db' e3 in
      let owner =
        verify_wallet_certificate-IsOwner env q.certificate db user
          (map_err-ok challenge_certificate _ c) in
      inr (record {
        user = user;
        owner = owner;
        number = number;
        requested =
            ok_or-ok (env.parse_challenge_request q.message user.hw_pubkey) challenge_validation n;
        advances = advances;
        answer = ap ok answer;
        updated = updated;
        row_after = found_after user.wallet_id number owner.row _ owner.stored updated;
      })

-- A request for a challenge fails and leaves the database as it was, or it was made for the owner of the
-- certificate with a sequence number above the last one; then the answer is the generated random bytes, and
-- the owner's row alone is changed: it holds this number, and these bytes as the challenge, which expires
-- when the timeout of the settings has passed since the request's time.
pub instruction_challenge-IsChallenged :
    (env : Environment) (q : ChallengeRequest) (db : Db)
    → let h = instruction_challenge env q db in
      (((bytes : Bytes) → h.0 ≢ ok bytes) × (h.1 ≡ db)) ⊎ IsChallenged env q db h.0 h.1.users
unfolding instruction_challenge
instruction_challenge-IsChallenged env q db = settled env q db (challenge_transaction env q db) refl
