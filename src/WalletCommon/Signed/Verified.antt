-- ===== src/WalletCommon/Signed/Verified.antt =====
-- What a verified message is known to be.
use nl_wallet.Base.{
  ℕ, ◌≡◌, refl, sym, ◌∙◌, true, some, String, Bytes, bytes_eq_iff, ok, ok_or, ◌>>=◌, ==_iff, >>=-ok,
  guard-ok, ok_or-ok, arith,
}
use nl_wallet.WalletCommon.Signed.{
  SignedType, pin, hw, SignedMessage, ChallengeResponsePayload, SequenceNumberComparison, equal_to,
  same_type, json_parsing, signing, verify_sequence_number, Codec, parse_and_verify_message, verify,
  dangerous_parse_unverified, parse_and_verify, sign_message, sign,
}

-- The message at both levels, and what ties it to the challenge, the keys and the sequence number.
pub record IsSigned {A : Type 0} (codec : Codec A) (double : String) (challenge : Bytes)
    (comparison : SequenceNumberComparison) (hw_pubkey pin_pubkey : Bytes) : Type 0 where
  pub outer : SignedMessage
  pub inner : SignedMessage
  pub content : ChallengeResponsePayload String
  pub outer_parsed : codec.parse_message double ≡ some outer
  pub inner_parsed : codec.parse_message outer.signed ≡ some inner
  pub content_parsed : codec.parse_payload inner.signed ≡ some content
  pub hw_signed : codec.verify_signature hw_pubkey outer.signed outer.signature ≡ true
  pub pin_signed : codec.verify_signature pin_pubkey inner.signed inner.signature ≡ true
  pub hw_typed : outer.typ ≡ hw
  pub pin_typed : inner.typ ≡ pin
  pub challenged : challenge ≡ content.challenge
  pub in_sequence : verify_sequence_number comparison content.sequence_number ≡ true

module _ {A : Type 0} (codec : Codec A) where
  message_inv :
      (s : String) (typ : SignedType) (key : Bytes) (m : SignedMessage)
      → parse_and_verify_message codec s typ key ≡ ok m
      → (codec.parse_message s ≡ some m)
        × (codec.verify_signature key m.signed m.signature ≡ true)
        × (m.typ ≡ typ)
  unfolding parse_and_verify_message
  message_inv s typ key m e = ground arith

  verify_inv :
      (double : String) (challenge : Bytes) (comparison : SequenceNumberComparison)
      (hw_pubkey pin_pubkey : Bytes)
      → verify codec double challenge comparison hw_pubkey pin_pubkey ≡ ok tt
      → IsSigned codec double challenge comparison hw_pubkey pin_pubkey
  unfolding verify
  verify_inv double challenge comparison hw_pubkey pin_pubkey e =
      let (outer, eo, e1) = >>=-ok _ _ e in
      let (inner, ei, e2) = >>=-ok _ _ e1 in
      let (content, ec, e3) = >>=-ok _ _ e2 in
      let (_, g, e4) = >>=-ok _ _ e3 in
      let (po, vo, to) = message_inv double hw hw_pubkey outer eo in
      let (pi, vi, ti) = message_inv outer.signed pin pin_pubkey inner ei in
      record {
        outer = outer;
        inner = inner;
        content = content;
        outer_parsed = po;
        inner_parsed = pi;
        content_parsed = ok_or-ok _ _ ec;
        hw_signed = vo;
        pin_signed = vi;
        hw_typed = to;
        pin_typed = ti;
        challenged = (bytes_eq_iff challenge content.challenge).0 (guard-ok _ _ g);
        in_sequence = guard-ok _ _ e4;
      }

-- serde_json reads what it prints, nested values included, and ECDSA accepts what the matching private
-- key signed.
pub record IsCodec {A : Type 0} (codec : Codec A) : Type 0 where
  pub message_read :
      (m : SignedMessage) (s : String)
      → codec.print_message m ≡ some s
      → codec.parse_message s ≡ some m
  pub payload_read :
      (c : ChallengeResponsePayload A) (s : String)
      → codec.print_payload c ≡ some s
      → (r : ChallengeResponsePayload String) × (codec.parse_payload s ≡ some r)
        × (r.challenge ≡ c.challenge)
        × (r.sequence_number ≡ c.sequence_number)
  pub nested_read :
      (c : ChallengeResponsePayload A) (s t u : String) (inner outer : SignedMessage)
      → codec.print_payload c ≡ some s
      → inner.signed ≡ s
      → codec.print_message inner ≡ some t
      → outer.signed ≡ t
      → codec.print_message outer ≡ some u
      → codec.parse_nested u ≡ some c
  pub signature_verified :
      (key : Bytes) (s : String) (sig : Bytes)
      → codec.try_sign key s ≡ some sig
      → codec.verify_signature (codec.public_key key) s sig ≡ true

same_type_refl : (t : SignedType) → same_type t t ≡ true
same_type_refl pin = refl
same_type_refl hw = refl

module _ {A : Type 0} (codec : Codec A) (laws : IsCodec codec) where
  signed_message :
      (s : String) (typ : SignedType) (key : Bytes) (t : String)
      → sign_message codec s typ key ≡ ok t
      → (m : SignedMessage) × (m.signed ≡ s)
        × (codec.print_message m ≡ some t)
        × (parse_and_verify_message codec t typ (codec.public_key key) ≡ ok m)
  unfolding sign_message parse_and_verify_message
  signed_message s typ key t e =
      let with = λ (sig : Bytes).
        ok_or (codec.print_message (record { signed = s; signature = sig; typ = typ }))
          json_parsing in
      let (sig, es, e1) = >>=-ok (ok_or (codec.try_sign key s) signing) with e in
      let m : SignedMessage = record { signed = s; signature = sig; typ = typ } in
      let printed = ok_or-ok (codec.print_message m) json_parsing e1 in
      let verified =
        laws.signature_verified key s sig (ok_or-ok (codec.try_sign key s) signing es) in
      (m, refl, printed, rw (laws.message_read m t printed, verified, same_type_refl typ))

-- Under the laws of serde_json and ECDSA, what `sign` makes verifies with the matching public keys, for
-- the same challenge and exactly the same sequence number, and yields the signed payload.
pub parse_and_verify-sign :
    {A : Type 0} (codec : Codec A) (payload : A) (challenge : Bytes) (n : ℕ)
    (hw_key pin_key : Bytes) (double : String)
    → IsCodec codec
    → sign codec payload challenge n hw_key pin_key ≡ ok double
    → parse_and_verify codec double challenge
        (equal_to n)
        (codec.public_key hw_key)
        (codec.public_key pin_key)
      ≡ ok (record { payload = payload; challenge = challenge; sequence_number = n })
unfolding sign parse_and_verify verify dangerous_parse_unverified
parse_and_verify-sign {A} codec payload challenge n hw_key pin_key double laws e =
    let c : ChallengeResponsePayload A = record {
      payload = payload;
      challenge = challenge;
      sequence_number = n;
    } in
    let (message, em, e1) =
      >>=-ok (ok_or (codec.print_payload c) json_parsing)
        (λ (message : String).
          sign_message codec message pin pin_key >>= λ inner. sign_message codec inner hw hw_key)
        e in
    let (signed_inner, ei, e2) =
      >>=-ok (sign_message codec message pin pin_key)
        (λ (inner : String). sign_message codec inner hw hw_key) e1 in
    let (inner, is, ip, iv) = signed_message codec laws message pin pin_key signed_inner ei in
    let (outer, os, op, ov) = signed_message codec laws signed_inner hw hw_key double e2 in
    let printed = ok_or-ok (codec.print_payload c) json_parsing em in
    let (raw, rp, rc, rn) = laws.payload_read c message printed in
    let whole = laws.nested_read c message signed_inner double inner outer printed is ip os op in
    rw (
      ov,
      os,
      iv,
      is,
      rp,
      rc,
      rn,
      whole,
      (bytes_eq_iff challenge challenge).1 refl,
      (==_iff n n).1 refl,
    )

-- The nested reader and the readers of the single levels agree on the two fields that are checked.
abbrev pub IsCoherent : {A : Type 0} → Codec A → Type 0
IsCoherent {A} codec =
    (double : String) (outer inner : SignedMessage) (raw : ChallengeResponsePayload String)
    (c : ChallengeResponsePayload A)
    → codec.parse_nested double ≡ some c
    → codec.parse_message double ≡ some outer
    → codec.parse_message outer.signed ≡ some inner
    → codec.parse_payload inner.signed ≡ some raw
    → (raw.challenge ≡ c.challenge) × (raw.sequence_number ≡ c.sequence_number)

-- If `parse_and_verify` accepts a message, then it carries the hardware signature over the PIN
-- signature over its content, each of its own type and with its own key, and its content holds the
-- challenge and a sequence number that passes the comparison; the payload that is returned holds the
-- same two, if the JSON readers agree on them.
pub parse_and_verify-IsSigned :
    {A : Type 0} (codec : Codec A) (double : String) (challenge : Bytes)
    (comparison : SequenceNumberComparison) (hw_pubkey pin_pubkey : Bytes)
    (c : ChallengeResponsePayload A)
    → IsCoherent codec
    → parse_and_verify codec double challenge comparison hw_pubkey pin_pubkey ≡ ok c
    → IsSigned codec double challenge comparison hw_pubkey pin_pubkey
      × (c.challenge ≡ challenge)
      × (verify_sequence_number comparison c.sequence_number ≡ true)
unfolding parse_and_verify dangerous_parse_unverified
parse_and_verify-IsSigned codec double challenge comparison hw_pubkey pin_pubkey c coherent e =
    let (_, v, e1) =
      >>=-ok (verify codec double challenge comparison hw_pubkey pin_pubkey)
        (λ (u : Unit {0}). ok_or (codec.parse_nested double) json_parsing) e in
    let s = verify_inv codec double challenge comparison hw_pubkey pin_pubkey v in
    let (same_challenge, same_number) =
      coherent double s.outer s.inner s.content c
        (ok_or-ok (codec.parse_nested double) json_parsing e1) s.outer_parsed s.inner_parsed
        s.content_parsed in
    (s, sym same_challenge ∙ sym s.challenged, rw (← same_number) s.in_sequence)
