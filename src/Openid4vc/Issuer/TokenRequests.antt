-- ===== src/Openid4vc/Issuer/TokenRequests.antt =====
-- What a token request that is granted finds in the store, and what it leaves.
use nl_wallet.Base.{
  ℕ, ◌≡◌, refl, sym, ap, ◌∙◌, subst, true, Option, none, some, String, Bytes, Exec, ok, err, panic,
  map_err, map_err-ok, >>=-ok, arith,
}
use nl_wallet.SessionStore.{SessionState}
use nl_wallet.Openid4vc.Issuer.{
  TokenRequest, code_of_grant, Created, IssuanceData, created, waiting_for_response, done,
  result_failed, session_store, TokenRequestError, token_issuance_error, Issuer,
}
use nl_wallet.Openid4vc.Issuer.Requests.{
  Fresh, transition, to_created, TokenResponse, granted, finish_token_request, or_created,
  session_of_request, process_token_request, process_token_request_inner,
}
use nl_wallet.SessionStore.Interface.{Store, IsStore, with_session-ok, written_next-ok}

to_created-token :
    (s : SessionState IssuanceData) (c : SessionState Created)
    → to_created s ≡ ok c
    → c.token ≡ s.token
to_created-token s c e = by_data s.data_of s.token s.last_active e
  where
    by_data :
        (d : IssuanceData) (t : String) (n : ℕ)
        → to_created (record { data_of = d; token = t; last_active = n }) ≡ ok c
        → c.token ≡ t
    by_data (created x) t n h = ground arith
    by_data (waiting_for_response w) t n h = cc
    by_data (done r) t n h = cc

module _ (issuer : Issuer) {S : Type 0} (sessions : Store IssuanceData S) (request : TokenRequest)
    (fresh : Fresh) (st : S) where
  abbrev pub code : String
  code = code_of_grant request.grant_type

  granted_write :
      (session : SessionState Created) (r : Exec TokenRequestError (TokenResponse × Bytes))
      (a : TokenResponse)
      → (finish_token_request issuer sessions fresh session r st).0 ≡ ok a
      → (key : Bytes) × (sessions.write (transition fresh session (granted issuer a key)) true st
          ≡ ok (finish_token_request issuer sessions fresh session r st).1)
  granted_write session (ok (response, key)) a e =
      let (same, w) =
        written_next-ok (λ e. token_issuance_error (session_store e))
          (sessions.write (transition fresh session (granted issuer response key)) true st)
          (ok response) st a e in
      let is_response : response ≡ a = ground (arith, same) in
      (
        key,
        subst
            (λ x.
              sessions.write (transition fresh session (granted issuer x key)) true st
              ≡ ok (finish_token_request issuer sessions fresh session (ok (response, key)) st).1)
            is_response w,
      )
  granted_write session (err x) a e =
      let (wrong, _) =
        written_next-ok (λ e. token_issuance_error (session_store e))
          (sessions.write
            (transition fresh session (done (result_failed (issuer.describe_token x)))) true st)
          (err x) st a e in
      absurd (ground (arith, wrong))
  granted_write session panic a e = cc

  -- The store had no session under the code, and the new one stands under it.
  absent :
      (found : Option (SessionState IssuanceData)) (session : SessionState Created)
      (next : SessionState IssuanceData) (after : S)
      → IsStore sessions
      → sessions.get code st ≡ ok found
      → to_created (or_created issuer sessions fresh code found) ≡ ok session
      → next.token ≡ session.token
      → sessions.write next true st ≡ ok after
      → (found ≡ none) × (next.token ≡ code)
  absent none session next after laws g c n w =
      (refl, n ∙ to_created-token (or_created issuer sessions fresh code none) session c)
  absent (some s) session next after laws g c n w =
      let is_code : next.token ≡ code =
        n ∙ (to_created-token s session c ∙ laws.token_kept code st s g) in
      let refused =
        laws.new_refused next s st (subst (λ t. sessions.get t st ≡ ok (some s)) (sym is_code) g) in
      absurd (ground (arith, refused))

-- For a store that keeps its promises: a token request is only granted if the store has no session under
-- its code, not even a created one; afterwards it has the session that waits for the credential request,
-- with the response's access token, its nonce for the proofs, its previews and its DPoP nonce.
pub process_token_request-granted :
    {S : Type 0} (issuer : Issuer) (sessions : Store IssuanceData S) (request : TokenRequest)
    (dpop : String) (fresh : Fresh) (st : S) (a : TokenResponse)
    → IsStore sessions
    → (process_token_request issuer sessions request dpop fresh st).0 ≡ ok a
    → (sessions.get (code_of_grant request.grant_type) st ≡ ok none)
      × (key : Bytes) × (sessions.get
            (code_of_grant request.grant_type)
            (process_token_request issuer sessions request dpop fresh st).1
          ≡ ok (
              some (record {
                data_of = waiting_for_response (record {
                  access_token = a.access_token;
                  c_nonce = a.c_nonce;
                  attestation_previews = a.attestation_previews;
                  dpop_public_key = key;
                  dpop_nonce = a.dpop_nonce;
                });
                token = code_of_grant request.grant_type;
                last_active = fresh.now;
              })))
unfolding process_token_request session_of_request
process_token_request-granted issuer sessions request dpop fresh st a laws e =
    let go = λ (session : SessionState Created).
      finish_token_request issuer sessions fresh session
        (process_token_request_inner issuer session request dpop fresh) in
    let (session, f, h, after) =
      with_session-ok (session_of_request issuer sessions request fresh st) go st a e in
    let (found, g, c) =
      >>=-ok
        (map_err (λ x. token_issuance_error (session_store x))
          (sessions.get (code_of_grant request.grant_type) st))
        _ f in
    let stored =
      map_err-ok (λ x. token_issuance_error (session_store x))
        (sessions.get (code_of_grant request.grant_type) st) g in
    let (key, w) =
      granted_write issuer sessions request fresh st session
        (process_token_request_inner issuer session request dpop fresh) a h in
    let next = transition fresh session (granted issuer a key) in
    let (none_found, named) =
      absent issuer sessions request fresh st found session next _ laws stored
        (map_err-ok token_issuance_error _ c) refl w in
    let read = laws.read_written next true st _ w in
    (
      stored ∙ ap ok none_found,
      key,
      subst
          (λ x.
            sessions.get (code_of_grant request.grant_type) x
            ≡ ok (
                some (record {
                  data_of = granted issuer a key;
                  token = code_of_grant request.grant_type;
                  last_active = fresh.now;
                })))
          (sym after)
          (subst
            (λ t.
              sessions.get t (go session st).1
              ≡ ok (
                  some (record {
                    data_of = granted issuer a key;
                    token = t;
                    last_active = fresh.now;
                  })))
            named read),
    )
