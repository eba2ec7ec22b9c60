-- ===== src/Openid4vc/Verifier/Requested.antt =====
-- What an authorization request of the verifier leaves behind.
use nl_wallet.Base.{
  ℕ, ◌≡◌, refl, sym, ap, subst, ◌∙◌, false, Option, some, String, Exec, ok, err, panic, ok_or,
  ok_or-ok, map_err, map_err-ok, >>=-ok, find_key, arith,
}
use nl_wallet.SessionStore.{SessionState}
use nl_wallet.SessionStore.Interface.{Store, IsStore, with_session-ok, written_next-ok}
use nl_wallet.Openid4vc.Openid4vp.{Jwk, AuthRequestValidationError}
use nl_wallet.Openid4vc.Openid4vp.Requests.{validate_jwk, new_request, from_iso}
use nl_wallet.Openid4vc.Verifier.{
  uri_from_option, Created, WaitingForResponse, result_done, result_failed, result_cancelled,
  result_expired, DisclosureData, created, waiting_for_response, done, session_store,
  unknown_session, GetAuthRequestError, get_session_error, encryption_key, jwt,
  query_parameters_missing, query_parameters_deserialization, auth_request, get_unknown_use_case,
  WithRedirectUri, SessionType, UseCase, VerifierUrlParameters, Verifier, Fresh,
}
use nl_wallet.Openid4vc.Verifier.Steps.{
  transition, to_created, without_uri, with_uri, verify_ephemeral_id, redirect_uri_and_nonce,
  valid_or_panic, process_get_request_inner,
}
use nl_wallet.Openid4vc.Verifier.Endpoints.{
  get_session_state, get_created, checked_request, finish_get, process_get_request,
}

-- `From<Session<Created>>`
abbrev pub created_state : SessionState Created → SessionState DisclosureData
created_state session = record {
  data_of = created session.data_of;
  token = session.token;
  last_active = session.last_active;
}

to_created_lem :
    (d : DisclosureData) (t : String) (n : ℕ) (session : SessionState Created)
    → to_created (record { data_of = d; token = t; last_active = n }) ≡ ok session
    → record { data_of = d; token = t; last_active = n } ≡ created_state session
to_created_lem (created c) t n session e =
    let same : record { data_of = c; token = t; last_active = n } ≡ session = ground arith in
    ap created_state same
to_created_lem (waiting_for_response w) t n session e = cc
to_created_lem (done (result_done a b)) t n session e = cc
to_created_lem (done (result_failed x)) t n session e = cc
to_created_lem (done result_cancelled) t n session e = cc
to_created_lem (done result_expired) t n session e = cc

valid_lem :
    (v : Exec AuthRequestValidationError (Unit {0})) (k jwk : Jwk)
    → valid_or_panic {F = WithRedirectUri GetAuthRequestError} v k ≡ ok jwk
    → (v ≡ ok tt) × (k ≡ jwk)
valid_lem (ok u) k jwk e = (refl, cc)
valid_lem (err x) k jwk e = cc
valid_lem panic k jwk e = cc

-- A session that waits for the answer to a signed request: for the attributes that it was created for,
-- by its use case and for the session type of the link, to be encrypted with a key whose private part it holds.
pub record IsRequested (verifier : Verifier) (fresh : Fresh) (token response_uri : String)
    (session_type : SessionType) (wallet_nonce : Option String) (session : Created) (jws : String)
    (waiting : WaitingForResponse) : Type 0 where
  pub usecase : UseCase
  pub jwk : Jwk
  pub configured : find_key session.usecase_id verifier.use_cases ≡ some usecase
  pub keyed : fresh.key_pair ≡ some (waiting.encryption_key, jwk)
  pub key_valid : validate_jwk jwk ≡ ok tt
  pub redirected :
      redirect_uri_and_nonce verifier fresh token usecase.session_type_return_url session_type
        session.redirect_uri_template
      ≡ ok waiting.redirect_uri
  pub requested :
      new_request verifier.requests session.items_requests usecase.certificate fresh.definition_id
        fresh.request_nonce jwk response_uri wallet_nonce
      ≡ ok waiting.auth_request
  pub signed : verifier.sign_with_certificate (from_iso waiting.auth_request) usecase ≡ some jws

inner-IsRequested :
    (verifier : Verifier) (fresh : Fresh) (session : Created) (token response_uri : String)
    (session_type : SessionType) (wallet_nonce : Option String) (jws : String)
    (waiting : WaitingForResponse)
    → process_get_request_inner verifier fresh session token response_uri session_type wallet_nonce
      ≡ ok (jws, waiting)
    → IsRequested verifier fresh token response_uri session_type wallet_nonce session jws waiting
unfolding process_get_request_inner
inner-IsRequested verifier fresh session token response_uri session_type wallet_nonce jws waiting
      e =
    let (usecase, u, e1) =
      >>=-ok
        (ok_or (find_key session.usecase_id verifier.use_cases)
          (without_uri (get_unknown_use_case session.usecase_id)))
        _ e in
    let (redirect, r, e2) =
      >>=-ok
        (map_err without_uri (
          redirect_uri_and_nonce verifier fresh token usecase.session_type_return_url session_type
            session.redirect_uri_template))
        _ e1 in
    let ((private_key, public_jwk), k, e3) =
      >>=-ok (ok_or fresh.key_pair (with_uri redirect encryption_key)) _ e2 in
    let (jwk, v, e4) = >>=-ok (valid_or_panic (validate_jwk public_jwk) public_jwk) _ e3 in
    let (request, q, e5) =
      >>=-ok
        (map_err (λ x. with_uri redirect (auth_request x))
          (new_request verifier.requests session.items_requests usecase.certificate
            fresh.definition_id fresh.request_nonce jwk response_uri wallet_nonce))
        _ e4 in
    let (text, s, e6) =
      >>=-ok
        (ok_or (verifier.sign_with_certificate (from_iso request) usecase) (with_uri redirect jwt))
        _ e5 in
    let (valid_key, is_key) = valid_lem (validate_jwk public_jwk) public_jwk jwk v in
    let (is_text, is_waiting) = pair_ok e6 in
    subst
      (λ w. IsRequested verifier fresh token response_uri session_type wallet_nonce session jws w)
      is_waiting
      (record {
        usecase = usecase;
        jwk = public_jwk;
        configured = ok_or-ok (find_key session.usecase_id verifier.use_cases) _ u;
        keyed = ok_or-ok fresh.key_pair (with_uri redirect encryption_key) k;
        key_valid = valid_key;
        redirected =
            map_err-ok without_uri
              (redirect_uri_and_nonce verifier fresh token usecase.session_type_return_url
                session_type session.redirect_uri_template)
              r;
        requested =
            subst
              (λ x.
                new_request verifier.requests session.items_requests usecase.certificate
                  fresh.definition_id fresh.request_nonce x response_uri wallet_nonce
                ≡ ok request)
              (sym is_key)
              (map_err-ok (λ x. with_uri redirect (auth_request x))
                (new_request verifier.requests session.items_requests usecase.certificate
                  fresh.definition_id fresh.request_nonce jwk response_uri wallet_nonce)
                q);
        signed =
            ok_or-ok (verifier.sign_with_certificate (from_iso request) usecase)
              (with_uri redirect jwt) s
            ∙ ap some is_text;
      })
  where
    pair_ok :
        {a b : String} {c d : WaitingForResponse}
        → ◌≡◌ {A = Exec (WithRedirectUri GetAuthRequestError) (String × WaitingForResponse)}
            (ok (a, c))
            (ok (b, d))
        → (a ≡ b) × (c ≡ d)
    pair_ok h = (cc, cc)

module _ (verifier : Verifier) {S : Type 0} (sessions : Store DisclosureData S) where
  finish_get-ok :
      (fresh : Fresh) (session : SessionState Created)
      (r : Exec (WithRedirectUri GetAuthRequestError) (String × WaitingForResponse)) (st : S)
      (jws : String)
      → (finish_get verifier sessions fresh session r st).0 ≡ ok jws
      → (waiting : WaitingForResponse) × (r ≡ ok (jws, waiting))
        × (sessions.write (transition fresh.now session (waiting_for_response waiting)) false st
            ≡ ok (finish_get verifier sessions fresh session r st).1)
  finish_get-ok fresh session (ok (text, waiting)) st jws e =
      let (same, written) =
        written_next-ok
          (λ x. record {
            error = get_session_error (session_store x);
            redirect_uri = uri_from_option waiting.redirect_uri;
          })
          (sessions.write (transition fresh.now session (waiting_for_response waiting)) false st)
          (ok text) st jws e in
      (waiting, ap (λ t. ok (t, waiting)) (text_ok same), written)
    where
      text_ok :
          {a b : String}
          → ◌≡◌ {A = Exec (WithRedirectUri GetAuthRequestError) String} (ok a) (ok b)
          → a ≡ b
      text_ok h = cc
  finish_get-ok fresh session (err x) st jws e =
      let (wrong, _) =
        written_next-ok
          (λ y. record {
            error = get_session_error (session_store y);
            redirect_uri = x.redirect_uri;
          })
          (sessions.write
            (transition fresh.now session (done (result_failed (verifier.describe_get x.error))))
            false st)
          (err x) st jws e in
      absurd (no_value wrong)
    where
      no_value :
          {y : WithRedirectUri GetAuthRequestError}
          → ◌≡◌ {A = Exec (WithRedirectUri GetAuthRequestError) String} (err y) (ok jws)
          → ⊥
      no_value h = cc
  finish_get-ok fresh session panic st jws e = cc

  get_created_lem :
      (token : String) (st : S) (session : SessionState Created)
      → IsStore sessions
      → get_created verifier sessions token st ≡ ok session
      → (session.token ≡ token) × (sessions.get token st ≡ ok (some (created_state session)))
  unfolding get_created get_session_state
  get_created_lem token st session laws e =
      let (s, h, w) = >>=-ok (get_session_state verifier sessions token st) _ e in
      let (found, f, o) = >>=-ok (map_err session_store (sessions.get token st)) _ h in
      let stored =
        map_err-ok session_store (sessions.get token st) f
        ∙ ap ok (ok_or-ok found (unknown_session token) o) in
      let shape = to_created_lem s.data_of s.token s.last_active session w in
      (
        sym (ap (λ x. x.token) shape) ∙ laws.token_kept token st s stored,
        stored ∙ ap (λ x. ok (some x)) shape,
      )

  created_lem :
      (fresh : Fresh) (token : String) (query : Option String) (st : S)
      (session : SessionState Created) (params : VerifierUrlParameters)
      → IsStore sessions
      → checked_request verifier sessions fresh token query st ≡ ok (session, params)
      → (session.token ≡ token)
        × (sessions.get token st ≡ ok (some (created_state session)))
        × ((text : String) × (query ≡ some text) × (verifier.parse_query text ≡ some params))
        × (verify_ephemeral_id verifier fresh.now token params ≡ ok tt)
  unfolding checked_request
  created_lem fresh token query st session params laws e =
      let (c, g, e1) =
        >>=-ok
          (map_err (λ x. without_uri (get_session_error x))
            (get_created verifier sessions token st))
          _ e in
      let (text, q, e2) = >>=-ok (ok_or query (without_uri query_parameters_missing)) _ e1 in
      let (p, r, e3) =
        >>=-ok (ok_or (verifier.parse_query text) (without_uri query_parameters_deserialization)) _
          e2 in
      let (_, v, e4) =
        >>=-ok (map_err without_uri (verify_ephemeral_id verifier fresh.now token p)) _ e3 in
      let is_session : c ≡ session = ground arith in
      let is_params : p ≡ params = ground arith in
      let (named, stored) = get_created_lem token st session laws (
        map_err-ok (λ x. without_uri (get_session_error x)) (get_created verifier sessions token st)
          g
        ∙ ap ok is_session) in
      (
        named,
        stored,
        (
          text,
          ok_or-ok query (without_uri query_parameters_missing) q,
          ok_or-ok (verifier.parse_query text) (without_uri query_parameters_deserialization) r
              ∙ ap some is_params,
        ),
        subst (λ x. verify_ephemeral_id verifier fresh.now token x ≡ ok tt) is_params
            (map_err-ok without_uri (verify_ephemeral_id verifier fresh.now token p) v),
      )

-- For a store that keeps its promises: if a wallet gets an authorization request, then the query of its
-- link was read as parameters whose ephemeral ID is valid for the token, the session under the token was newly
-- created, and it now waits for the response to this request, which is for what the session was created for
-- and for the session type of the link.
pub process_get_request-IsRequested :
    {S : Type 0} (verifier : Verifier) (sessions : Store DisclosureData S) (fresh : Fresh)
    (token response_uri : String) (query wallet_nonce : Option String) (st : S) (jws : String)
    → IsStore sessions
    → (process_get_request verifier sessions fresh token response_uri query wallet_nonce st).0
      ≡ ok jws
    → (session : SessionState Created) × (params : VerifierUrlParameters)
      × (waiting : WaitingForResponse) × (sessions.get token st ≡ ok (some (created_state session)))
      × ((text : String) × (query ≡ some text) × (verifier.parse_query text ≡ some params))
      × (verify_ephemeral_id verifier fresh.now token params ≡ ok tt)
      × IsRequested verifier fresh token response_uri params.session_type wallet_nonce
          session.data_of jws waiting
      × (sessions.get token
            (process_get_request verifier sessions fresh token response_uri query wallet_nonce st).1
          ≡ ok (
              some (record {
                data_of = waiting_for_response waiting;
                token = token;
                last_active = fresh.now;
              })))
unfolding process_get_request
process_get_request-IsRequested verifier sessions fresh token response_uri query wallet_nonce st jws
      laws e =
    let ((session, params), g, ended, same) =
      with_session-ok (checked_request verifier sessions fresh token query st) _ st jws e in
    let (named, stored, linked, in_time) =
      created_lem verifier sessions fresh token query st session params laws g in
    let inner =
      process_get_request_inner verifier fresh session.data_of token response_uri
        params.session_type wallet_nonce in
    let (waiting, made, written) =
      finish_get-ok verifier sessions fresh session inner st jws ended in
    let kept =
      laws.read_written (transition fresh.now session (waiting_for_response waiting)) false st _
        (written ∙ ap ok (sym same)) in
    (
      session,
      params,
      waiting,
      stored,
      linked,
      in_time,
      inner-IsRequested verifier fresh session.data_of token response_uri params.session_type
          wallet_nonce jws waiting made,
      subst
          (λ t.
            sessions.get t
              (process_get_request verifier sessions fresh token response_uri query wallet_nonce
                st).1
            ≡ ok (
                some (record {
                  data_of = waiting_for_response waiting;
                  token = t;
                  last_active = fresh.now;
                })))
          named kept,
    )
