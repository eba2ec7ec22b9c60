-- ===== src/Scenarios/Server.antt =====
-- The wallet provider with one registered wallet, which has a challenge open.
use nl_wallet.Base.{
  ℕ, zero, suc, ◌+◌, ◌<◌, ◌≤◌, ◌≡◌, ◌≢◌, ◌⊎◌, refl, subst, true, false, some, String, List, Bytes,
  bytes_eq, [], ◌∷◌, ok, arith, ltb,
}
use nl_wallet.WalletCommon.Signed.{
  larger_than, parse_and_verify_message, verify, dangerous_parse_unverified, parse_and_verify,
}
use nl_wallet.WalletCommon.Signed.Verified.{IsSigned, IsCoherent, parse_and_verify-IsSigned}
use nl_wallet.WalletProvider.PinPolicy.{
  PinPolicy, failed, in_timeout, blocked_permanently, u8, round_of, div_rem, current_round,
  is_blocked, is_final_round, attempts_left_in_round, current_timeout, failure, timeout_checks,
  with_timeout, evaluate,
}
use nl_wallet.WalletProvider.PinPolicy.Evaluation.{IsValid, IsTimely, evaluate-verdict}
use nl_wallet.WalletProvider.PinPolicy.Blocking.{evaluate-blocks}
use nl_wallet.WalletProvider.PinPolicy.SingleAttempt.{evaluate-ne-in_timeout}
use nl_wallet.WalletProvider.Users.{
  Db, UserRow, find_row, update_rows, wallet_user, find_wallet_user_by_wallet_id,
}
use nl_wallet.WalletProvider.AccountServer.{
  Environment, Instruction, check_pin, Registration, WalletCertificateClaims,
}
use nl_wallet.WalletProvider.AccountServer.Certificate.{
  verify_pin_pubkey, check_user, verify_wallet_certificate,
}
use nl_wallet.WalletProvider.AccountServer.Certificate.Owner.{
  IsOwner, verify_wallet_certificate-IsOwner,
}
use nl_wallet.WalletProvider.AccountServer.Challenge.{
  ChallengeRequest, instruction_challenge, IsChallenged, instruction_challenge-IsChallenged,
}
use nl_wallet.WalletProvider.AccountServer.Instruct.{
  Generated, verify_instruction, conclude, instruction_transaction, carry_out, handle_instruction,
}
use nl_wallet.WalletProvider.AccountServer.Instruct.Keys.{handle}
use nl_wallet.WalletProvider.AccountServer.Ends.{Outcome}
use nl_wallet.WalletProvider.AccountServer.Outcome.{handle_instruction-Outcome}
use nl_wallet.WalletProvider.AccountServer.Retries.{
  IsRetryState, AreRetryStates, handle_instruction-AreRetryStates,
}
use nl_wallet.WalletProvider.AccountServer.Retries.Runs.{
  ServerRequest, registers, challenges, instructs, run, empty_db, run-AreRetryStates,
}
use nl_wallet.WalletProvider.AccountServer.Replay.{
  IsAccepted, Handled, handle_all, handle_instruction-IsAccepted, handle_instruction-once,
  handle_instruction-blocked, handle_instruction-expired,
}
use nl_wallet.WalletProvider.AccountServer.Register.{RegistrationRequest}
use nl_wallet.Scenarios.{codec_of, codec_of-IsCoherent, content}

abbrev policy : PinPolicy
policy = record { rounds = 3; attempts_per_round = 4; timeouts = 1000 ∷ 2000 ∷ [] }

policy-IsValid : IsValid policy
policy-IsValid = record {
  some_rounds = omega arith;
  some_attempts = omega arith;
  fits = omega arith;
  all_timeouts = refl;
}

abbrev single_policy : PinPolicy
single_policy = record { rounds = 3; attempts_per_round = 1; timeouts = 1000 ∷ 2000 ∷ [] }

timely : IsTimely policy 100
timely zero = omega arith
timely (suc zero) = omega arith
timely (suc (suc i)) = omega arith

-- The first attempt of the second round, before the end of its pause.
evaluate-verdict_example : evaluate policy 5 (some 100) 400 ≡ ok (in_timeout 700)
evaluate-verdict_example =
    evaluate-verdict policy 1 1 100 400 policy-IsValid timely (omega arith) (omega arith)
      (omega arith) (omega arith)

evaluate_at_end : evaluate policy 12 (some 100) 400 ≡ ok blocked_permanently
unfolding evaluate is_blocked
evaluate_at_end = refl

evaluate-blocks_example :
    (12 ≤ 12 → blocked_permanently ≡ blocked_permanently)
    × (12 < 12 → blocked_permanently ≢ blocked_permanently)
evaluate-blocks_example =
    evaluate-blocks policy 12 (some 100) 400 blocked_permanently policy-IsValid evaluate_at_end

evaluate-ne-in_timeout_example : evaluate single_policy 2 (some 100) 101 ≢ ok (in_timeout 999)
evaluate-ne-in_timeout_example = evaluate-ne-in_timeout single_policy 2 (some 100) 101 999 refl

abbrev claims : WalletCertificateClaims
claims = record { wallet_id = "wallet"; hw_pubkey = 1 ∷ []; pin_pubkey_hash = 2 ∷ []; version = 0 }

abbrev keys : Registration
keys = record { pin_pubkey = 2 ∷ []; hw_pubkey = 1 ∷ [] }

abbrev env : Environment
env = record {
  codec = codec_of (λ _. false) check_pin 5;
  registration_codec = codec_of (λ _. false) keys 0;
  parse_certificate = λ _. some claims;
  parse_challenge_request = λ _ _. some 5;
  from_utf8 = λ _. some "challenge";
  parse_registration_challenge = λ _. some "wallet";
  sign_certificate = λ _. some "certificate";
  sign_result = λ _. some "result";
  to_public_key_der = some;
  decrypt = λ e. some e.ciphertext;
  encrypt = λ k. some (record { ciphertext = k; iv = 0 ∷ [] });
  sign_hmac = some;
  verify_hmac = bytes_eq;
  generate_wrapped_keys = λ _. some [];
  sign_wrapped = λ _ message. some message;
  db_ok = λ _. true;
}

abbrev row : UserRow
row = record {
  id = 1;
  wallet_id = "wallet";
  hw_pubkey = 1 ∷ [];
  encrypted_pin_pubkey = record { ciphertext = 2 ∷ []; iv = 0 ∷ [] };
  instruction_sequence_number = 4;
  pin_entries = 1;
  last_unsuccessful_pin = some 10;
  is_blocked = false;
  challenge = some (record { bytes = 7 ∷ []; expiration_date_time = 100 });
}

abbrev db : Db
db = record { users = row ∷ []; keys = [] }

abbrev blocked_row : UserRow
blocked_row = record row { is_blocked = true }

abbrev blocked_db : Db
blocked_db = record { users = blocked_row ∷ []; keys = [] }

abbrev at : ℕ → Generated
at now = record { policy_time = now; challenge_time = now; failure_time = now; uuid = λ n. n }

abbrev instruction : Instruction
instruction = record { instruction = "outer"; certificate = "certificate" }

abbrev challenge_request : ChallengeRequest
challenge_request = record {
  message = "request";
  certificate = "certificate";
  random = 8 ∷ [];
  time = 50;
  timeout = 15;
}

codec-IsCoherent : IsCoherent env.codec
codec-IsCoherent = codec_of-IsCoherent (λ _. false) check_pin 5

registration-IsCoherent : IsCoherent env.registration_codec
registration-IsCoherent = codec_of-IsCoherent (λ _. false) keys 0

verified :
    parse_and_verify env.codec "outer" (7 ∷ []) (larger_than 4) (1 ∷ []) (2 ∷ [])
    ≡ ok (content check_pin 5)
unfolding parse_and_verify verify parse_and_verify_message dangerous_parse_unverified bytes_eq
verified = refl

parse_and_verify-IsSigned_example :
    IsSigned env.codec "outer" (7 ∷ []) (larger_than 4) (1 ∷ []) (2 ∷ [])
    × (◌≡◌ {A = Bytes} (7 ∷ []) (7 ∷ []))
    × (ltb 4 5 ≡ true)
parse_and_verify-IsSigned_example =
    parse_and_verify-IsSigned env.codec "outer" (7 ∷ []) (larger_than 4) (1 ∷ []) (2 ∷ [])
      (content check_pin 5) codec-IsCoherent verified

certified : verify_wallet_certificate env "certificate" db ≡ ok (wallet_user row)
unfolding verify_wallet_certificate find_wallet_user_by_wallet_id find_row check_user
    verify_pin_pubkey bytes_eq
certified = refl

verify_wallet_certificate-IsOwner_example : IsOwner env "certificate" db (wallet_user row)
verify_wallet_certificate-IsOwner_example =
    verify_wallet_certificate-IsOwner env "certificate" db (wallet_user row) certified

succeeds : (handle_instruction env (evaluate policy) (at 50) instruction db).0 ≡ ok "result"
unfolding handle_instruction verify_wallet_certificate find_wallet_user_by_wallet_id find_row
    update_rows check_user verify_pin_pubkey bytes_eq instruction_transaction verify_instruction
    conclude carry_out handle parse_and_verify verify parse_and_verify_message
    dangerous_parse_unverified evaluate current_timeout is_blocked with_timeout timeout_checks
    failure attempts_left_in_round is_final_round current_round div_rem round_of
succeeds = refl

handle_instruction-IsAccepted_example :
    IsAccepted env instruction db.users
      (handle_instruction env (evaluate policy) (at 50) instruction db).1.users
handle_instruction-IsAccepted_example =
    handle_instruction-IsAccepted env (evaluate policy) (at 50) instruction db "result"
      codec-IsCoherent succeeds

abbrev replayed : Handled
replayed = (env, evaluate policy, at 55, instruction)

handle_instruction-once_example :
    (handle_instruction env (evaluate policy) (at 60) instruction (
      handle_all
        (replayed ∷ [])
        (handle_instruction env (evaluate policy) (at 50) instruction db).1)).0
    ≢ ok "result"
handle_instruction-once_example =
    handle_instruction-once env env (evaluate policy) (evaluate policy) (at 50) (at 60) instruction
      instruction db "result" "result" claims claims (replayed ∷ []) codec-IsCoherent
      codec-IsCoherent refl refl refl succeeds

handle_instruction-Outcome_example :
    let h = handle_instruction env (evaluate policy) (at 50) instruction db in
    Outcome env (evaluate policy) (at 50) instruction db h.0 h.1.users
handle_instruction-Outcome_example =
    handle_instruction-Outcome env (evaluate policy) (at 50) instruction db

row-IsRetryState : IsRetryState policy row
row-IsRetryState = record {
  open_below = λ _. omega arith;
  none_failed = λ e. cc;
  some_failed = λ _. refl;
}

db-AreRetryStates : AreRetryStates policy db.users
unfolding find_row
db-AreRetryStates i u e = subst (IsRetryState policy) (ground arith) row-IsRetryState

handle_instruction-AreRetryStates_example :
    AreRetryStates policy (handle_instruction env (evaluate policy) (at 50) instruction db).1.users
handle_instruction-AreRetryStates_example =
    handle_instruction-AreRetryStates policy env (at 50) instruction db policy-IsValid
      db-AreRetryStates

blocked_row_found : find_row "wallet" blocked_db.users ≡ some blocked_row
unfolding find_row
blocked_row_found = refl

handle_instruction-blocked_example :
    ((text : String)
      → (handle_instruction env (evaluate policy) (at 50) instruction blocked_db).0 ≢ ok text)
    × ((handle_instruction env (evaluate policy) (at 50) instruction blocked_db).1 ≡ blocked_db)
    × ((bytes : Bytes) → (instruction_challenge env challenge_request blocked_db).0 ≢ ok bytes)
    × ((instruction_challenge env challenge_request blocked_db).1 ≡ blocked_db)
handle_instruction-blocked_example =
    handle_instruction-blocked env (evaluate policy) (at 50) instruction challenge_request
      blocked_db claims blocked_row refl refl blocked_row_found refl

second_attempt : evaluate policy 2 (some 10) 200 ≡ ok (failed 2 false)
unfolding evaluate current_timeout is_blocked with_timeout timeout_checks failure
    attempts_left_in_round is_final_round current_round div_rem round_of
second_attempt = refl

unpaused : (left : ℕ) → ¬ (evaluate policy (u8 (1 + 1)) (some 10) 200 ≡ ok (in_timeout left))
unpaused left e = cc (second_attempt)

handle_instruction-expired_example :
    ((text : String)
      → (handle_instruction env (evaluate policy) (at 200) instruction db).0 ≢ ok text)
    × ((handle_instruction env (evaluate policy) (at 200) instruction db).1.users ≡ db.users)
handle_instruction-expired_example =
    handle_instruction-expired env (evaluate policy) (at 200) instruction db (wallet_user row)
      (record { bytes = 7 ∷ []; expiration_date_time = 100 }) certified refl (omega arith) unpaused

instruction_challenge-IsChallenged_example :
    let h = instruction_challenge env challenge_request db in
    (((bytes : Bytes) → h.0 ≢ ok bytes) × (h.1 ≡ db))
    ⊎ IsChallenged env challenge_request db h.0 h.1.users
instruction_challenge-IsChallenged_example =
    instruction_challenge-IsChallenged env challenge_request db

abbrev empty : Db
empty = record { users = []; keys = [] }

abbrev registration : RegistrationRequest
registration = record { message = "outer"; uuid = 1 }

abbrev requests : List ServerRequest
requests =
    registers registration ∷ challenges challenge_request ∷ instructs (at 50) instruction ∷ []

run-AreRetryStates_example : AreRetryStates policy (run policy (λ _. env) 0 requests empty_db).users
run-AreRetryStates_example =
    run-AreRetryStates policy (λ _. env) requests policy-IsValid (λ _. registration-IsCoherent)
