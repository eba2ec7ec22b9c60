-- ===== src/Openid4vc/Verifier/Started.antt =====
-- How a disclosure is started.
use nl_wallet.Base.{
  not-true, ℕ, ◌+◌, ◌<◌, ◌≤◌, ◌≡◌, ◌⊎◌, inl, inr, refl, sym, true, false, not, Bool-cases,
  Option-cases, panic, Option, none, some, String, Bytes, List, is_empty, ltb, Exec, ok, err, guard,
  guard-ok, ok_or, ok_or-ok, >>=-ok, find_key, arith,
}
use nl_wallet.SessionStore.Interface.{Store, with_session-ok, written_next-ok}
use nl_wallet.Mdoc.{ItemsRequest}
use nl_wallet.Openid4vc.Verifier.{
  RedirectUri, DisclosureData, session_error, session_store, unknown_use_case,
  return_url_configuration_mismatch, no_items_requests, VerificationError, expired_ephemeral_id,
  GetAuthRequestError, SessionType, same_device, cross_device, SessionTypeReturnUrl,
  VerifierUrlParameters, neither, same_device_url, both, UseCase, Verifier, Fresh,
}
use nl_wallet.Openid4vc.Verifier.Steps.{
  is_mismatch, ephemeral_id_validity, generate_ephemeral_id, format_ephemeral_id_payload,
  verify_ephemeral_id, redirect_uri_and_nonce, into_url, redirect_of,
}
use nl_wallet.Openid4vc.Verifier.Endpoints.{new_session}

-- If the HMAC accepts what it signed, then the ephemeral ID of a link is accepted for its session until
-- its validity is over, to the millisecond, and is refused as expired afterwards.
pub verify_ephemeral_id-generate :
    (verifier : Verifier) (now time : ℕ) (session_token : String) (session_type : SessionType)
    → ((payload : Bytes) → verifier.hmac_verify payload (verifier.hmac_sign payload) ≡ true)
    → let params : VerifierUrlParameters = record {
      session_type = session_type;
      ephemeral_id = generate_ephemeral_id verifier session_token time;
      time = time;
    } in
      ((now ≤ time + ephemeral_id_validity)
        × (verify_ephemeral_id verifier now session_token params ≡ ok tt))
      ⊎ ((time + ephemeral_id_validity < now)
          × (verify_ephemeral_id verifier now session_token params
              ≡ err (expired_ephemeral_id params.ephemeral_id)))
unfolding verify_ephemeral_id
verify_ephemeral_id-generate verifier now time session_token session_type law =
    elim (Bool-cases (ltb (time + ephemeral_id_validity) now)) [
      | inl late ↦ inr (ground arith, rw late refl)
      | inr early ↦ inl (
        ground arith,
        rw (early, law (format_ephemeral_id_payload verifier session_token time)) refl,
      )
    ]

-- A redirect URI is there, or its template cannot be made a URL, which panics.
abbrev pub IsFitting :
    Verifier → String → Option String → Exec GetAuthRequestError (Option RedirectUri) → Type 0
IsFitting verifier token template result =
    ((r : Option RedirectUri) × (result ≡ ok r))
    ⊎ ((text : String) × (template ≡ some text)
        × (into_url verifier {E = GetAuthRequestError} text token ≡ panic)
        × (result ≡ panic))

redirect_of-IsFitting :
    (verifier : Verifier) (fresh : Fresh) (token template : String)
    → IsFitting verifier token (some template) (redirect_of verifier fresh token template)
redirect_of-IsFitting verifier fresh token template =
    elim (Option-cases (verifier.strfmt template token)) [
      | inl unformatted ↦ inr (template, refl, rw unformatted refl, rw unformatted refl)
      | inr (text, formatted) ↦ elim (Option-cases (verifier.parse_url text)) [
        | inl unparsed ↦
            inr (template, refl, rw (formatted, unparsed) refl, rw (formatted, unparsed) refl)
        | inr (url, parsed) ↦ inl (
          some (record {
            uri = verifier.append_nonce url fresh.redirect_nonce;
            nonce = fresh.redirect_nonce;
          }),
          rw (formatted, parsed) refl,
        )
      ]
    ]

fitting_lem :
    (verifier : Verifier) (fresh : Fresh) (token : String) (setting : SessionTypeReturnUrl)
    (session_type : SessionType) (template : Option String)
    → is_mismatch setting template ≡ false
    → IsFitting verifier token template
        (redirect_uri_and_nonce verifier fresh token setting session_type template)
fitting_lem verifier fresh token neither session_type template e = inl (none, refl)
fitting_lem verifier fresh token both session_type none e = cc
fitting_lem verifier fresh token both session_type (some x) e =
    redirect_of-IsFitting verifier fresh token x
fitting_lem verifier fresh token same_device_url same_device none e = cc
fitting_lem verifier fresh token same_device_url same_device (some x) e =
    redirect_of-IsFitting verifier fresh token x
fitting_lem verifier fresh token same_device_url cross_device template e = inl (none, refl)

-- If a session is created, then its use case is configured, and as long as this configuration stays, no
-- wallet's request for the session, by either kind of session, is refused for its return URL: there is a
-- redirect URI, or none is needed, or the code panics since the template is not made a URL.
pub redirect_uri_and_nonce-new_session :
    {S : Type 0} (verifier : Verifier) (sessions : Store DisclosureData S) (fresh fresh' : Fresh)
    (items_requests : List ItemsRequest) (usecase_id : String) (template : Option String)
    (session_type : SessionType) (st : S) (token : String)
    → (new_session verifier sessions fresh items_requests usecase_id template st).0 ≡ ok token
    → (usecase : UseCase) × (find_key usecase_id verifier.use_cases ≡ some usecase)
      × (token ≡ fresh.session_token)
      × IsFitting verifier token template (
          redirect_uri_and_nonce verifier fresh' token usecase.session_type_return_url session_type
            template)
unfolding new_session
redirect_uri_and_nonce-new_session verifier sessions fresh fresh' items_requests usecase_id template
      session_type st token e =
    let (usecase, c, w, _) = with_session-ok _ _ st token e in
    let (_, _, c1) = >>=-ok (guard (not (is_empty items_requests)) no_items_requests) _ c in
    let (found, f, c2) =
      >>=-ok (ok_or (find_key usecase_id verifier.use_cases) (unknown_use_case usecase_id)) _ c1 in
    let (_, g, c3) =
      >>=-ok
        (guard (not (is_mismatch found.session_type_return_url template))
          return_url_configuration_mismatch)
        _ c2 in
    let (named, _) =
      written_next-ok (λ x. session_error (session_store x)) _ (ok fresh.session_token) st token
        w in
    let fits =
      fitting_lem verifier fresh' token found.session_type_return_url session_type template
        (not-true (is_mismatch found.session_type_return_url template) (guard-ok _ _ g)) in
    (
      found,
      ok_or-ok (find_key usecase_id verifier.use_cases) (unknown_use_case usecase_id) f,
      sym (same_token named),
      fits,
    )
  where
    same_token : {a b : String} → ◌≡◌ {A = Exec VerificationError String} (ok a) (ok b) → a ≡ b
    same_token h = cc
