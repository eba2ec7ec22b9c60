-- ===== src/Scenarios.antt =====
-- Concrete runs: an environment whose services are functions, and the theorems at inputs that
-- exercise the code.
pub mod Issuance
pub mod Stores
pub mod Server
pub mod Presentation
pub mod Verifying
pub mod Pins
use nl_wallet.Base.{
  ℕ, ◌+◌, ◌<◌, ◌≡◌, ◌≢◌, ◌⊎◌, inl, inr, refl, sym, ap, ◌∙◌, Bool, true, false, ◌&&◌, Option, none,
  some, String, str_eq, eq_iff, Bytes, bytes_eq, bytes_eq_iff, List, [], ◌∷◌, ◌==◌, ==_iff,
  if◌then◌else◌, Exec, ok, arith,
}
use nl_wallet.WalletCommon.Signed.{
  Codec, SignedType, pin, hw, same_type, SignedMessage, ChallengeResponsePayload, equal_to, sign,
  sign_message, parse_and_verify,
}
use nl_wallet.WalletCommon.Signed.Verified.{
  IsCodec, IsCoherent, parse_and_verify-sign, parse_and_verify-IsSigned,
}

-- The messages of one signed text, at its two levels. A signature is its key.
abbrev pub outer_message : SignedMessage
outer_message = record { signed = "inner"; signature = 1 ∷ []; typ = hw }

abbrev pub inner_message : SignedMessage
inner_message = record { signed = "content"; signature = 2 ∷ []; typ = pin }

abbrev pub same_message : SignedMessage → SignedMessage → Bool
same_message a b =
    str_eq a.signed b.signed && (bytes_eq a.signature b.signature && same_type a.typ b.typ)

abbrev pub content : {A : Type 0} → A → ℕ → ChallengeResponsePayload A
content payload n = record { payload = payload; challenge = 7 ∷ []; sequence_number = n }

-- Reads and prints this one text only, with the payload and the number that are given.
abbrev pub codec_of : {A : Type 0} → (A → Bool) → A → ℕ → Codec A
codec_of same payload n = record {
  parse_message = λ s.
      if str_eq s "outer"
      then some outer_message
      else if str_eq s "inner"
      then some inner_message
      else none;
  parse_payload = λ s. if str_eq s "content" then some (content "payload" n) else none;
  parse_nested = λ s. if str_eq s "outer" then some (content payload n) else none;
  print_message = λ m.
      if same_message m outer_message
      then some "outer"
      else if same_message m inner_message
      then some "inner"
      else none;
  print_payload = λ c.
      if same c.payload && (bytes_eq c.challenge (7 ∷ []) && c.sequence_number == n)
      then some "content"
      else none;
  verify_signature = λ key s signature. bytes_eq key signature;
  try_sign = λ key s. some key;
  public_key = λ key. key;
}

pub codec_of-IsCoherent :
    {A : Type 0} (same : A → Bool) (payload : A) (n : ℕ) → IsCoherent (codec_of same payload n)
codec_of-IsCoherent same payload n double outer inner raw c h1 h2 h3 h4 =
    (ground arith, ground arith)

same_type_lem : (a b : SignedType) → same_type a b ≡ true → a ≡ b
same_type_lem pin pin e = refl
same_type_lem pin hw e = cc
same_type_lem hw pin e = cc
same_type_lem hw hw e = refl

abbrev message : String → Bytes → SignedType → SignedMessage
message s signature typ = record { signed = s; signature = signature; typ = typ }

same_message_lem : (a b : SignedMessage) → same_message a b ≡ true → a ≡ b
same_message_lem a b e =
    let p : a.signed ≡ b.signed = ground (arith, eq_iff a.signed b.signed) in
    let q : a.signature ≡ b.signature = ground (arith, bytes_eq_iff a.signature b.signature) in
    let r : a.typ ≡ b.typ = ground (arith, same_type_lem a.typ b.typ) in
    ap (λ s. message s a.signature a.typ) p
    ∙ (ap (λ k. message b.signed k a.typ) q ∙ ap (λ t. message b.signed b.signature t) r)

content_lem :
    (c : ChallengeResponsePayload Bytes)
    → c.payload ≡ 9 ∷ []
    → c.challenge ≡ 7 ∷ []
    → c.sequence_number ≡ 5
    → content (9 ∷ []) 5 ≡ c
content_lem c p q r = sym (
    ap (λ s. record { payload = s; challenge = c.challenge; sequence_number = c.sequence_number }) p
    ∙ (ap (λ k. record { payload = 9 ∷ []; challenge = k; sequence_number = c.sequence_number }) q
        ∙ ap (content (9 ∷ [])) r))

abbrev pub bytes_codec : Codec Bytes
bytes_codec = codec_of (λ b. bytes_eq b (9 ∷ [])) (9 ∷ []) 5

printed_message :
    (m : SignedMessage) (s : String)
    → bytes_codec.print_message m ≡ some s
    → ((m ≡ outer_message) × (s ≡ "outer")) ⊎ ((m ≡ inner_message) × (s ≡ "inner"))
printed_message m s e =
    ground (arith, same_message_lem m outer_message, same_message_lem m inner_message)

printed_payload :
    (c : ChallengeResponsePayload Bytes) (s : String)
    → bytes_codec.print_payload c ≡ some s
    → (content (9 ∷ []) 5 ≡ c) × (s ≡ "content")
printed_payload c s e =
    let p : c.payload ≡ 9 ∷ [] = ground (arith, bytes_eq_iff c.payload (9 ∷ [])) in
    let q : c.challenge ≡ 7 ∷ [] = ground (arith, bytes_eq_iff c.challenge (7 ∷ [])) in
    let r : c.sequence_number ≡ 5 = ground (arith, ==_iff c.sequence_number 5) in
    (content_lem c p q r, ground arith)

read_message :
    (m : SignedMessage) (s : String)
    → ((m ≡ outer_message) × (s ≡ "outer")) ⊎ ((m ≡ inner_message) × (s ≡ "inner"))
    → bytes_codec.parse_message s ≡ some m
read_message m s (inl (p, q)) = rw (p, q) refl
read_message m s (inr (p, q)) = rw (p, q) refl

read_payload :
    (s : String) → s ≡ "content" → bytes_codec.parse_payload s ≡ some (content "payload" 5)
read_payload s e = rw e refl

read_nested : (s : String) → s ≡ "outer" → bytes_codec.parse_nested s ≡ some (content (9 ∷ []) 5)
read_nested s e = rw e refl

nested_is_outer :
    (s t u : String) (inner outer : SignedMessage)
    → s ≡ "content"
    → inner.signed ≡ s
    → bytes_codec.print_message inner ≡ some t
    → outer.signed ≡ t
    → bytes_codec.print_message outer ≡ some u
    → u ≡ "outer"
nested_is_outer s t u inner outer es e2 e3 e4 e5 = elim (printed_message inner t e3) [
  | inl (p, _) ↦ absurd (different "inner" "content" refl (sym (ap (λ m. m.signed) p) ∙ (e2 ∙ es)))
  | inr (_, q) ↦ elim (printed_message outer u e5) [
    | inl (_, r) ↦ r
    | inr (p, _) ↦ absurd (different "content" "inner" refl (sym (ap (λ m. m.signed) p) ∙ (e4 ∙ q)))
  ]
]
  where
    different : (a b : String) → str_eq a b ≡ false → a ≢ b
    different a b e h = ground (arith, eq_iff a b)

bytes_codec-IsCodec : IsCodec bytes_codec
bytes_codec-IsCodec = record {
  message_read = λ m s e. read_message m s (printed_message m s e);
  payload_read = λ c s e.
      let (p, q) = printed_payload c s e in
      (
        content "payload" 5,
        read_payload s q,
        ap (λ c. c.challenge) p,
        ap (λ c. c.sequence_number) p,
      );
  nested_read = λ c s t u inner outer e1 e2 e3 e4 e5.
      let (p, q) = printed_payload c s e1 in
      read_nested u (nested_is_outer s t u inner outer q e2 e3 e4 e5) ∙ ap some p;
  signature_verified = λ key s sig e. (bytes_eq_iff key sig).1 (ground arith);
}

parse_and_verify-sign_example :
    parse_and_verify bytes_codec "outer" (7 ∷ []) (equal_to 5) (1 ∷ []) (2 ∷ [])
    ≡ ok (content (9 ∷ []) 5)
unfolding sign sign_message bytes_eq
parse_and_verify-sign_example =
    parse_and_verify-sign bytes_codec (9 ∷ []) (7 ∷ []) 5 (1 ∷ []) (2 ∷ []) "outer"
      bytes_codec-IsCodec refl
