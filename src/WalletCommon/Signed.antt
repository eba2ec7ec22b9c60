-- ===== src/WalletCommon/Signed.antt =====
-- Messages that the wallet signs with its PIN key and its hardware key:
-- wallet_common/src/account/signed.rs.
-- JSON (serde_json) and ECDSA (p256) are the parameter `Codec`; keys and signatures are byte strings.
pub mod Verified
use nl_wallet.Base.{
  ℕ, Bool, true, false, Option, String, Bytes, bytes_eq, ltb, ◌==◌, Exec, ok, guard, ok_or, ◌>>=◌,
  ◌>>◌,
}

pub data SignedType : Type 0 where
  pin hw : SignedType

abbrev pub same_type : SignedType → SignedType → Bool
same_type pin pin = true
same_type pin hw = false
same_type hw pin = false
same_type hw hw = true

-- `signed` is the text of the signed JSON value.
pub record SignedMessage : Type 0 where
  pub signed : String
  pub signature : Bytes
  pub typ : SignedType

pub record ChallengeResponsePayload (A : Type 0) : Type 0 where
  pub payload : A
  pub challenge : Bytes
  pub sequence_number : ℕ

pub data SignedError : Type 0 where
  json_parsing : SignedError
  ecdsa : SignedError
  type_mismatch : SignedType → SignedType → SignedError
  signing : SignedError
  challenge_mismatch : SignedError
  sequence_number_mismatch : SignedError

pub data SequenceNumberComparison : Type 0 where
  equal_to : ℕ → SequenceNumberComparison
  larger_than : ℕ → SequenceNumberComparison

abbrev pub verify_sequence_number : SequenceNumberComparison → ℕ → Bool
verify_sequence_number (equal_to n) received = received == n
verify_sequence_number (larger_than n) received = ltb n received

-- What the code calls of serde_json and p256: the JSON readers and printers, each at the type it is
-- used at, and ECDSA. `try_sign` takes a private key.
pub record Codec (A : Type 0) : Type 0 where
  pub parse_message : String → Option SignedMessage
  pub parse_payload : String → Option (ChallengeResponsePayload String)
  pub parse_nested : String → Option (ChallengeResponsePayload A)
  pub print_message : SignedMessage → Option String
  pub print_payload : ChallengeResponsePayload A → Option String
  pub verify_signature : Bytes → String → Bytes → Bool
  pub try_sign : Bytes → String → Option Bytes
  pub public_key : Bytes → Bytes

module _ {A : Type 0} (codec : Codec A) where
  open codec use {
    parse_message, parse_payload, parse_nested, print_message, print_payload, verify_signature,
    try_sign,
  }

  unfoldable pub parse_and_verify_message :
      String → SignedType → Bytes → Exec SignedError SignedMessage
  parse_and_verify_message signed typ pubkey = do
    message ← ok_or (parse_message signed) json_parsing
    guard (verify_signature pubkey message.signed message.signature) ecdsa
    guard (same_type message.typ typ) (type_mismatch typ message.typ)
    ok message

  unfoldable pub verify :
      String → Bytes → SequenceNumberComparison → Bytes → Bytes → Exec SignedError (Unit {0})
  verify double challenge comparison hw_pubkey pin_pubkey = do
    outer ← parse_and_verify_message double hw hw_pubkey
    inner ← parse_and_verify_message outer.signed pin pin_pubkey
    signed ← ok_or (parse_payload inner.signed) json_parsing
    guard (bytes_eq challenge signed.challenge) challenge_mismatch
    guard (verify_sequence_number comparison signed.sequence_number) sequence_number_mismatch

  unfoldable pub dangerous_parse_unverified : String → Exec SignedError (ChallengeResponsePayload A)
  dangerous_parse_unverified double = ok_or (parse_nested double) json_parsing

  unfoldable pub parse_and_verify :
      String
      → Bytes
      → SequenceNumberComparison
      → Bytes
      → Bytes
      → Exec SignedError (ChallengeResponsePayload A)
  parse_and_verify double challenge comparison hw_pubkey pin_pubkey = do
    verify double challenge comparison hw_pubkey pin_pubkey
    dangerous_parse_unverified double

  unfoldable pub sign_message : String → SignedType → Bytes → Exec SignedError String
  sign_message message typ privkey = do
    signature ← ok_or (try_sign privkey message) signing
    ok_or (print_message (record { signed = message; signature = signature; typ = typ }))
        json_parsing

  unfoldable pub sign : A → Bytes → ℕ → Bytes → Bytes → Exec SignedError String
  sign payload challenge serial_number hw_privkey pin_privkey = do
    message ←
        ok_or
          (print_payload
            (record { payload = payload; challenge = challenge; sequence_number = serial_number }))
          json_parsing
    signed_inner ← sign_message message pin pin_privkey
    sign_message signed_inner hw hw_privkey
