-- ===== src/Openid4vc/Issuer/Sessions.antt =====
-- What the endpoints of the issuer keep: a session serves one request.
use nl_wallet.Base.{
  ℕ, ◌≡◌, refl, sym, ap, ◌∙◌, subst, false, some, String, str_eq, eq_iff, Exec, ok, err, panic,
  guard, guard-ok, ok_or, ok_or-ok, map_err, map_err-ok, ◌>>=◌, >>=-ok, arith,
}
use nl_wallet.SessionStore.{SessionState}
use nl_wallet.Openid4vc.Dpop.{IsBound, verify_expecting_key-IsBound}
use nl_wallet.Openid4vc.Issuer.{
  WaitingForResponse, IssuanceData, created, waiting_for_response, done, SessionResult, result_done,
  result_cancelled, result_failed, unknown_session, session_store, dpop_invalid,
  CredentialRequestError, issuance_error, malformed_token, unauthorized, Issuer,
}
use nl_wallet.Openid4vc.Issuer.Credentials.{
  authorize, process_credential_inner, process_batch_credential_inner,
}
use nl_wallet.Openid4vc.Issuer.Requests.{
  Fresh, transition, to_waiting, Response, credential, credentials, rejected, Request,
  credential_request, batch_request, reject_request, get_session, session_of_token, finish,
  reject_session, respond, process_request,
}
use nl_wallet.SessionStore.Interface.{Store, IsStore, with_session-ok, written_next-ok}

-- `From<Session<WaitingForResponse>>`
abbrev pub waiting_state : SessionState WaitingForResponse → SessionState IssuanceData
waiting_state session = record {
  data_of = waiting_for_response session.data_of;
  token = session.token;
  last_active = session.last_active;
}

to_waiting_lem :
    (d : IssuanceData) (t : String) (n : ℕ) (session : SessionState WaitingForResponse)
    → to_waiting (record { data_of = d; token = t; last_active = n }) ≡ ok session
    → record { data_of = d; token = t; last_active = n } ≡ waiting_state session
to_waiting_lem (created c) t n session e = cc
to_waiting_lem (waiting_for_response w) t n session e =
    let same : record { data_of = w; token = t; last_active = n } ≡ session = ground arith in
    ap waiting_state same
to_waiting_lem (done r) t n session e = cc

module _ (issuer : Issuer) {S : Type 0} (sessions : Store IssuanceData S) where
  -- What a response says of the store afterwards.
  abbrev Ended : Fresh → SessionState WaitingForResponse → S → S → Type 0
  Ended fresh session st after =
      (result : SessionResult) × (sessions.write (transition fresh session (done result)) false st
        ≡ ok after)

  finish-Ended :
      (fresh : Fresh) (session : SessionState WaitingForResponse) (st : S) (a : Response)
      (r : Exec CredentialRequestError Response)
      → (finish issuer sessions fresh session r st).0 ≡ ok a
      → (r ≡ ok a) × Ended fresh session st (finish issuer sessions fresh session r st).1
  finish-Ended fresh session st a (ok r) h =
      let (same, w) =
        written_next-ok (λ e. issuance_error (session_store e))
          (sessions.write (transition fresh session (done result_done)) false st) (ok r) st a h in
      (same, (result_done, w))
  finish-Ended fresh session st a (err x) h =
      let (wrong, _) =
        written_next-ok (λ e. issuance_error (session_store e))
          (sessions.write (transition fresh session (done (result_failed (issuer.describe x))))
            false st)
          (err x) st a h in
      absurd (ground (arith, wrong))
  finish-Ended fresh session st a panic h = cc

  reject-Ended :
      (fresh : Fresh) (session : SessionState WaitingForResponse) (st : S) (a : Response)
      (r : Exec CredentialRequestError (Unit {0}))
      → (reject_session issuer sessions fresh session r st).0 ≡ ok a
      → (r ≡ ok tt) × Ended fresh session st (reject_session issuer sessions fresh session r st).1
  reject-Ended fresh session st a (ok u) h =
      let (_, w) =
        written_next-ok (λ e. issuance_error (session_store e))
          (sessions.write (transition fresh session (done result_cancelled)) false st) (ok rejected)
          st a h in
      (refl, (result_cancelled, w))
  reject-Ended fresh session st a (err x) h = cc
  reject-Ended fresh session st a panic h = cc

  -- The endpoint that a request is made to.
  abbrev pub url_of : Request → String
  url_of (credential_request _) = issuer.join issuer.server_url "credential"
  url_of (batch_request _) = issuer.join issuer.server_url "batch_credential"
  url_of (reject_request name) = issuer.join issuer.credential_issuer_identifier name

  abbrev pub method_of : Request → String
  method_of (credential_request _) = "POST"
  method_of (batch_request _) = "POST"
  method_of (reject_request _) = "DELETE"

  -- A response is authorized, and leaves a finished session.
  responded :
      (session : SessionState WaitingForResponse) (access_token dpop : String) (request : Request)
      (fresh : Fresh) (st : S) (a : Response)
      → (respond issuer sessions session access_token dpop request fresh st).0 ≡ ok a
      → (authorize issuer session.data_of access_token dpop (url_of request) (method_of request)
          ≡ ok tt)
        × Ended fresh session st
            (respond issuer sessions session access_token dpop request fresh st).1
  unfolding respond process_credential_inner process_batch_credential_inner
  responded session token dpop (credential_request q) fresh st a e =
      let (ran, ended) =
        finish-Ended fresh session st a
          (process_credential_inner issuer session.data_of q token dpop
            >>= (λ c. ok (credential c)))
          e in
      let (_, c, _) = >>=-ok (process_credential_inner issuer session.data_of q token dpop) _ ran in
      let (_, authorized, _) =
        >>=-ok
          (authorize issuer session.data_of token dpop (issuer.join issuer.server_url "credential")
            "POST")
          _ c in
      (authorized, ended)
  responded session token dpop (batch_request qs) fresh st a e =
      let (ran, ended) =
        finish-Ended fresh session st a
          (process_batch_credential_inner issuer session.data_of qs token dpop
            >>= (λ cs. ok (credentials cs)))
          e in
      let (_, c, _) =
        >>=-ok (process_batch_credential_inner issuer session.data_of qs token dpop) _ ran in
      let (_, authorized, _) =
        >>=-ok
          (authorize issuer session.data_of token dpop
            (issuer.join issuer.server_url "batch_credential") "POST")
          _ c in
      (authorized, ended)
  responded session token dpop (reject_request name) fresh st a e =
      reject-Ended fresh session st a
        (authorize issuer session.data_of token dpop
          (issuer.join issuer.credential_issuer_identifier name) "DELETE")
        e

  -- The session of a token stands in the store, under the code of the token.
  found :
      (access_token : String) (st : S) (session : SessionState WaitingForResponse)
      → IsStore sessions
      → session_of_token issuer sessions access_token st ≡ ok session
      → (issuer.get_from 32 access_token ≡ some session.token)
        × (sessions.get session.token st ≡ ok (some (waiting_state session)))
  unfolding session_of_token get_session
  found token st session laws e =
      let (code, c, e1) = >>=-ok (ok_or (issuer.get_from 32 token) malformed_token) _ e in
      let (stored, g, e2) =
        >>=-ok (map_err (λ x. issuance_error (session_store x)) (sessions.get code st)) _ e1 in
      let (s, o, e3) = >>=-ok (ok_or stored (issuance_error (unknown_session code))) _ e2 in
      let is_stored : sessions.get code st ≡ ok (some s) =
        map_err-ok (λ x. issuance_error (session_store x)) (sessions.get code st) g
        ∙ ap ok (ok_or-ok stored (issuance_error (unknown_session code)) o) in
      let named : s.token ≡ code = laws.token_kept code st s is_stored in
      let shape =
        to_waiting_lem s.data_of s.token s.last_active session
          (map_err-ok issuance_error (to_waiting s) e3) in
      let is_code : session.token ≡ code = sym (ap (λ x. x.token) shape) ∙ named in
      (
        ok_or-ok (issuer.get_from 32 token) malformed_token c ∙ ap some (sym is_code),
        subst (λ t. sessions.get t st ≡ ok (some (waiting_state session))) (sym is_code)
            (is_stored ∙ ap (λ x. ok (some x)) shape),
      )

-- What an answered request was authorized by.
pub record IsAuthorized {S : Type 0} (issuer : Issuer) (sessions : Store IssuanceData S)
    (access_token dpop : String) (request : Request) (st : S) : Type 0 where
  pub session : SessionState WaitingForResponse
  pub code : issuer.get_from 32 access_token ≡ some session.token
  pub stored : sessions.get session.token st ≡ ok (some (waiting_state session))
  pub same_token : session.data_of.access_token ≡ access_token
  pub bound :
      IsBound issuer.jwt dpop session.data_of.dpop_public_key
        (url_of issuer sessions request)
        (method_of issuer sessions request)
        (some access_token)
        (some session.data_of.dpop_nonce)

-- For a store that keeps its promises: an issuance request is only answered if the store has a waiting
-- session under the code of its access token, which was given out with exactly this token, and if it comes
-- with a proof of possession of the key of the token request, for this endpoint, token and nonce.
pub process_request-IsAuthorized :
    {S : Type 0} (issuer : Issuer) (sessions : Store IssuanceData S) (access_token dpop : String)
    (request : Request) (fresh : Fresh) (st : S) (a : Response)
    → IsStore sessions
    → (process_request issuer sessions access_token dpop request fresh st).0 ≡ ok a
    → IsAuthorized issuer sessions access_token dpop request st
unfolding process_request authorize
process_request-IsAuthorized issuer sessions token dpop request fresh st a laws e =
    let answer = λ (session : SessionState WaitingForResponse).
      respond issuer sessions session token dpop request fresh in
    let (session, f, h, _) =
      with_session-ok (session_of_token issuer sessions token st) answer st a e in
    let (authorized, _) = responded issuer sessions session token dpop request fresh st a h in
    let (code, stored) = found issuer sessions token st session laws f in
    let (_, t, b) =
      >>=-ok (guard (str_eq session.data_of.access_token token) unauthorized) _ authorized in
    record {
      session = session;
      code = code;
      stored = stored;
      same_token = (eq_iff session.data_of.access_token token).0 (guard-ok _ _ t);
      bound =
          verify_expecting_key-IsBound issuer.jwt dpop session.data_of.dpop_public_key
            (url_of issuer sessions request) (method_of issuer sessions request) (some token)
            (some session.data_of.dpop_nonce)
            (map_err-ok (λ x. issuance_error (dpop_invalid x)) _ b);
    }
