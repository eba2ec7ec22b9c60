-- ===== src/Openid4vc/Verifier/Steps.antt =====
-- The steps of a session of the verifier, up to its authorization request.
use Prim.Native.String.{◌++◌ as append}
use nl_wallet.Base.{
  ℕ, ◌+◌, Bool, not, Option, none, some, is_some, is_none, String, Bytes, ltb, Exec, ok, err, panic,
  guard, unwrap, ok_or, map_err, ◌>>=◌, ◌>>◌, find_key,
}
use nl_wallet.SessionStore.{SessionState}
use nl_wallet.Openid4vc.Openid4vp.{Jwk}
use nl_wallet.Openid4vc.Openid4vp.Requests.{validate_jwk, new_request, from_iso}
use nl_wallet.Openid4vc.Verifier.{
  RedirectUri, uri_from_option, Created, WaitingForResponse, result_done, result_failed,
  result_cancelled, result_expired, DisclosureData, created, waiting_for_response, done,
  SessionError, unexpected_state, expired, GetAuthRequestError, invalid_ephemeral_id,
  expired_ephemeral_id, encryption_key, jwt, get_return_url_configuration_mismatch, auth_request,
  get_unknown_use_case, WithRedirectUri, SessionType, same_device, cross_device,
  SessionTypeReturnUrl, neither, same_device_url, both, VerifierUrlParameters, Verifier, Fresh,
}

-- `SessionState::new` with the token of the session.
abbrev pub transition :
    {A : Type 0} → ℕ → SessionState A → DisclosureData → SessionState DisclosureData
transition now session data' = record { data_of = data'; token = session.token; last_active = now }

abbrev pub to_created : SessionState DisclosureData → Exec SessionError (SessionState Created)
to_created session = elim (session.data_of) [
  | created c ↦
      ok (record { data_of = c; token = session.token; last_active = session.last_active })
  | waiting_for_response _ ↦ err unexpected_state
  | done result_expired ↦ err expired
  | done (result_done _ _) ↦ err unexpected_state
  | done (result_failed _) ↦ err unexpected_state
  | done result_cancelled ↦ err unexpected_state
]

abbrev pub to_waiting :
    SessionState DisclosureData → Exec SessionError (SessionState WaitingForResponse)
to_waiting session = elim (session.data_of) [
  | created _ ↦ err unexpected_state
  | waiting_for_response w ↦
      ok (record { data_of = w; token = session.token; last_active = session.last_active })
  | done result_expired ↦ err expired
  | done (result_done _ _) ↦ err unexpected_state
  | done (result_failed _) ↦ err unexpected_state
  | done result_cancelled ↦ err unexpected_state
]

-- `From<T> for WithRedirectUri<T>`
abbrev pub without_uri : {E : Type 0} → E → WithRedirectUri E
without_uri e = record { error = e; redirect_uri = none }

abbrev pub with_uri : {E : Type 0} → Option RedirectUri → E → WithRedirectUri E
with_uri redirect e = record { error = e; redirect_uri = uri_from_option redirect }

-- Whether the template does not fit the settings of the use case.
abbrev pub is_mismatch : SessionTypeReturnUrl → Option String → Bool
is_mismatch neither template = is_some template
is_mismatch same_device_url template = is_none template
is_mismatch both template = is_none template

abbrev pub ephemeral_id_validity : ℕ
ephemeral_id_validity = 10000

-- `JwePublicKey::try_from(…).unwrap()`
abbrev pub valid_or_panic : {E F : Type 0} → Exec E (Unit {0}) → Jwk → Exec F Jwk
valid_or_panic (ok _) jwk = ok jwk
valid_or_panic (err _) jwk = panic
valid_or_panic panic jwk = panic

module _ (verifier : Verifier) where
  abbrev pub format_ephemeral_id_payload : String → ℕ → Bytes
  format_ephemeral_id_payload session_token time =
      verifier.bytes_of (append session_token (append "|" (verifier.to_rfc3339 time)))

  abbrev pub generate_ephemeral_id : String → ℕ → Bytes
  generate_ephemeral_id session_token time =
      verifier.hmac_sign (format_ephemeral_id_payload session_token time)

  unfoldable pub verify_ephemeral_id :
      ℕ → String → VerifierUrlParameters → Exec GetAuthRequestError (Unit {0})
  verify_ephemeral_id now session_token params = do
    guard (not (ltb (params.time + ephemeral_id_validity) now))
        (expired_ephemeral_id params.ephemeral_id)
    guard
        (verifier.hmac_verify (format_ephemeral_id_payload session_token params.time)
          params.ephemeral_id)
        (invalid_ephemeral_id params.ephemeral_id)

  -- `ReturnUrlTemplate::into_url`, with its two `expect`s.
  abbrev pub into_url : {E : Type 0} → String → String → Exec E String
  into_url template session_token = do
    text ← unwrap (verifier.strfmt template session_token)
    unwrap (verifier.parse_url text)

  abbrev pub redirect_of : Fresh → String → String → Exec GetAuthRequestError (Option RedirectUri)
  redirect_of fresh session_token template = do
    url ← into_url template session_token
    ok (
        some (record {
          uri = verifier.append_nonce url fresh.redirect_nonce;
          nonce = fresh.redirect_nonce;
        }))

  abbrev pub redirect_uri_and_nonce :
      Fresh
      → String
      → SessionTypeReturnUrl
      → SessionType
      → Option String
      → Exec GetAuthRequestError (Option RedirectUri)
  redirect_uri_and_nonce fresh token both session_type (some template) =
      redirect_of fresh token template
  redirect_uri_and_nonce fresh token both session_type none =
      err get_return_url_configuration_mismatch
  redirect_uri_and_nonce fresh token same_device_url same_device (some template) =
      redirect_of fresh token template
  redirect_uri_and_nonce fresh token same_device_url same_device none =
      err get_return_url_configuration_mismatch
  redirect_uri_and_nonce fresh token same_device_url cross_device template = ok none
  redirect_uri_and_nonce fresh token neither session_type template = ok none

  unfoldable pub process_get_request_inner :
      Fresh
      → Created
      → String
      → String
      → SessionType
      → Option String
      → Exec (WithRedirectUri GetAuthRequestError) (String × WaitingForResponse)
  process_get_request_inner fresh session session_token response_uri session_type wallet_nonce = do
    usecase ←
        ok_or (find_key session.usecase_id verifier.use_cases)
          (without_uri (get_unknown_use_case session.usecase_id))
    redirect ← map_err without_uri (
        redirect_uri_and_nonce fresh session_token usecase.session_type_return_url session_type
          session.redirect_uri_template)
    (private_key, public_jwk) ← ok_or fresh.key_pair (with_uri redirect encryption_key)
    jwk ← valid_or_panic (validate_jwk public_jwk) public_jwk
    request ←
        map_err (λ e. with_uri redirect (auth_request e))
          (new_request verifier.requests session.items_requests usecase.certificate
            fresh.definition_id fresh.request_nonce jwk response_uri wallet_nonce)
    jws ← ok_or (verifier.sign_with_certificate (from_iso request) usecase) (with_uri redirect jwt)
    ok (
      jws,
      record { auth_request = request; encryption_key = private_key; redirect_uri = redirect },
    )
