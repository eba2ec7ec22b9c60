-- ===== src/Openid4vc/Verifier/Answered.antt =====
-- A session of the verifier takes one response.
use nl_wallet.Base.{
  ℕ, ◌≡◌, ◌⊎◌, inl, inr, refl, sym, ap, subst, ◌∙◌, Bool, true, false, Option, some, String, Exec,
  ok, err, panic, ok_or-ok, map_err, map_err-ok, >>=-ok, arith,
}
use nl_wallet.SessionStore.{SessionState, SessionStoreError}
use nl_wallet.SessionStore.Interface.{Store, IsStore, with_session, written_next}
use nl_wallet.Mdoc.{DisclosedAttributes}
use nl_wallet.Openid4vc.Openid4vp.{AuthResponseError}
use nl_wallet.Openid4vc.Openid4vp.Responses.{decrypt_and_verify}
use nl_wallet.Openid4vc.Verifier.{
  RedirectUri, uri_from_option, WaitingForResponse, SessionResult, result_done, result_failed,
  result_cancelled, result_expired, DisclosureData, created, waiting_for_response, done,
  SessionError, unexpected_state, unknown_session, session_store, PostAuthResponseError,
  post_session_error, auth_response, WithRedirectUri, ErrorResponse, WalletAuthResponse,
  wallet_response, wallet_error, Verifier,
}
use nl_wallet.Openid4vc.Verifier.Steps.{transition, to_waiting, without_uri, with_uri}
use nl_wallet.Openid4vc.Verifier.Endpoints.{
  get_session_state, get_waiting, is_refusal, result_of_error, nonce_from_option, write_result,
  finish_response, respond, process_authorization_response,
}

-- `From<Session<WaitingForResponse>>`
abbrev pub waiting_state : SessionState WaitingForResponse → SessionState DisclosureData
waiting_state session = record {
  data_of = waiting_for_response session.data_of;
  token = session.token;
  last_active = session.last_active;
}

to_waiting_lem :
    (d : DisclosureData) (t : String) (n : ℕ) (session : SessionState WaitingForResponse)
    → to_waiting (record { data_of = d; token = t; last_active = n }) ≡ ok session
    → record { data_of = d; token = t; last_active = n } ≡ waiting_state session
to_waiting_lem (created c) t n session e = cc
to_waiting_lem (waiting_for_response w) t n session e =
    let same : record { data_of = w; token = t; last_active = n } ≡ session = ground arith in
    ap waiting_state same
to_waiting_lem (done (result_done a b)) t n session e = cc
to_waiting_lem (done (result_failed x)) t n session e = cc
to_waiting_lem (done result_cancelled) t n session e = cc
to_waiting_lem (done result_expired) t n session e = cc

-- The response has been processed: it is accepted, or the session has failed with it.
abbrev pub IsAnswered : Exec (WithRedirectUri PostAuthResponseError) (Option String) → Type 0
IsAnswered r =
    ((a : Option String) × (r ≡ ok a))
    ⊎ ((x : AuthResponseError) × (uri : Option String) × (r
          ≡ err (record { error = auth_response x; redirect_uri = uri })))

module _ (verifier : Verifier) {S : Type 0} (sessions : Store DisclosureData S) where
  written_lem :
      (uri : Option RedirectUri) (w : Exec SessionStoreError S)
      (response : Exec (WithRedirectUri PostAuthResponseError) (Option String)) (st : S)
      → IsAnswered
          (written_next (λ e. with_uri uri (post_session_error (session_store e))) w response st).0
      → w
        ≡ ok
            (written_next
              (λ e. with_uri uri (post_session_error (session_store e)))
              w
              response
              st).1
  written_lem uri (ok st') response st a = refl
  written_lem uri (err x) response st (inl (a, e)) = cc
  written_lem uri (err x) response st (inr (y, u, e)) = cc
  written_lem uri panic response st (inl (a, e)) = cc
  written_lem uri panic response st (inr (y, u, e)) = cc

  -- What a session is left with, which is not the result of an expired one.
  abbrev pub IsEnded : ℕ → SessionState WaitingForResponse → S → S → Type 0
  IsEnded now session st after =
      (result : SessionResult) × (sessions.write (transition now session (done result)) false st
        ≡ ok after)
      × (to_waiting (transition now session (done result)) ≡ err unexpected_state)

  error-IsEnded :
      (now : ℕ) (session : SessionState WaitingForResponse) (st : S) (e : ErrorResponse)
      (refused : Bool)
      → IsAnswered
          (write_result verifier sessions now session
            (result_of_error verifier sessions refused e)
            (ok (uri_from_option session.data_of.redirect_uri))
            st).0
      → IsEnded now session st
          (write_result verifier sessions now session
            (result_of_error verifier sessions refused e)
            (ok (uri_from_option session.data_of.redirect_uri))
            st).1
  error-IsEnded now session st e true a = (
    result_cancelled,
    written_lem session.data_of.redirect_uri
        (sessions.write (transition now session (done result_cancelled)) false st)
        (ok (uri_from_option session.data_of.redirect_uri)) st a,
    refl,
  )
  error-IsEnded now session st e false a = (
    result_failed (verifier.describe_user e),
    written_lem session.data_of.redirect_uri
        (sessions.write (transition now session (done (result_failed (verifier.describe_user e))))
          false st)
        (ok (uri_from_option session.data_of.redirect_uri)) st a,
    refl,
  )

  token-IsEnded :
      (now : ℕ) (session : SessionState WaitingForResponse) (st : S)
      (r : Exec AuthResponseError DisclosedAttributes)
      → IsAnswered (finish_response verifier sessions now session r st).0
      → IsEnded now session st (finish_response verifier sessions now session r st).1
  token-IsEnded now session st (ok attrs) a =
      let result =
        result_done attrs (nonce_from_option verifier sessions session.data_of.redirect_uri) in
      (
        result,
        written_lem session.data_of.redirect_uri
            (sessions.write (transition now session (done result)) false st)
            (ok (uri_from_option session.data_of.redirect_uri)) st a,
        refl,
      )
  token-IsEnded now session st (err x) a = (
    result_failed (verifier.describe_response x),
    written_lem session.data_of.redirect_uri
        (sessions.write
          (transition now session (done (result_failed (verifier.describe_response x)))) false st)
        (err (with_uri session.data_of.redirect_uri (auth_response x))) st a,
    refl,
  )
  token-IsEnded now session st panic (inl (a, e)) = cc
  token-IsEnded now session st panic (inr (x, u, e)) = cc

  respond-IsEnded :
      (now : ℕ) (session : SessionState WaitingForResponse) (response : WalletAuthResponse) (st : S)
      → IsAnswered (respond verifier sessions now session response st).0
      → IsEnded now session st (respond verifier sessions now session response st).1
  respond-IsEnded now session (wallet_error e) st a =
      error-IsEnded now session st e (is_refusal verifier sessions e.error_code) a
  respond-IsEnded now session (wallet_response token) st a =
      token-IsEnded now session st
        (decrypt_and_verify verifier.responses verifier.crypto token session.data_of.encryption_key
          session.data_of.auth_request now)
        a

  -- A session that waits stands in the store under its token.
  pub waiting_lem :
      (token : String) (st : S) (session : SessionState WaitingForResponse)
      → IsStore sessions
      → get_waiting verifier sessions token st ≡ ok session
      → (session.token ≡ token) × (sessions.get token st ≡ ok (some (waiting_state session)))
  unfolding get_waiting get_session_state
  waiting_lem token st session laws e =
      let (s, g, w) = >>=-ok (get_session_state verifier sessions token st) _ e in
      let (found, f, o) = >>=-ok (map_err session_store (sessions.get token st)) _ g in
      let stored =
        map_err-ok session_store (sessions.get token st) f
        ∙ ap ok (ok_or-ok found (unknown_session token) o) in
      let shape = to_waiting_lem s.data_of s.token s.last_active session w in
      (
        sym (ap (λ x. x.token) shape) ∙ laws.token_kept token st s stored,
        stored ∙ ap (λ x. ok (some x)) shape,
      )

  -- A response that is processed was given to a session that waits.
  pub with_session-IsAnswered :
      (found : Exec SessionError (SessionState WaitingForResponse))
      (rest : SessionState WaitingForResponse
        → S
        → Exec (WithRedirectUri PostAuthResponseError) (Option String) × S)
      (st : S)
      → IsAnswered
          (with_session (map_err (λ e. without_uri (post_session_error e)) found) rest st).0
      → (session : SessionState WaitingForResponse) × (found ≡ ok session)
        × (with_session (map_err (λ e. without_uri (post_session_error e)) found) rest st
            ≡ rest session st)
  with_session-IsAnswered (ok session) rest st a = (session, refl, refl)
  with_session-IsAnswered (err x) rest st (inl (a, e)) = cc
  with_session-IsAnswered (err x) rest st (inr (y, u, e)) = cc
  with_session-IsAnswered panic rest st (inl (a, e)) = cc
  with_session-IsAnswered panic rest st (inr (y, u, e)) = cc

  refused_lem :
      (now : ℕ) (token : String) (response : WalletAuthResponse) (st : S)
      (s : SessionState DisclosureData)
      → sessions.get token st ≡ ok (some s)
      → to_waiting s ≡ err unexpected_state
      → process_authorization_response verifier sessions now token response st
        ≡ (err (without_uri (post_session_error unexpected_state)), st)
  unfolding process_authorization_response get_waiting get_session_state
  refused_lem now token response st s g w = rw (g, w) refl

-- For a store that keeps its promises: once a response to a session has been processed, and has been
-- accepted or has failed the session, each further response is answered with an unexpected state and
-- leaves the store as it is.
pub process_authorization_response-once :
    {S : Type 0} (verifier : Verifier) (sessions : Store DisclosureData S) (now now' : ℕ)
    (token : String) (response response' : WalletAuthResponse) (st : S)
    → IsStore sessions
    → IsAnswered (process_authorization_response verifier sessions now token response st).0
    → process_authorization_response verifier sessions now' token response'
        (process_authorization_response verifier sessions now token response st).1
      ≡ (
        err (without_uri (post_session_error unexpected_state)),
        (process_authorization_response verifier sessions now token response st).1,
      )
unfolding process_authorization_response
process_authorization_response-once verifier sessions now now' token response response' st laws a =
    let (session, g, same) =
      with_session-IsAnswered verifier sessions (get_waiting verifier sessions token st)
        (λ session. respond verifier sessions now session response) st a in
    let (named, _) = waiting_lem verifier sessions token st session laws g in
    let (result, written, ended) =
      respond-IsEnded verifier sessions now session response st
        (subst (λ r. IsAnswered r.0) same a) in
    let after = written ∙ ap (λ r. ok r.1) (sym same) in
    let kept = laws.read_written (transition now session (done result)) false st _ after in
    refused_lem verifier sessions now' token response' _ (transition now session (done result))
      (subst
        (λ t.
          sessions.get t (process_authorization_response verifier sessions now token response st).1
          ≡ ok (some (transition now session (done result))))
        named kept)
      ended
