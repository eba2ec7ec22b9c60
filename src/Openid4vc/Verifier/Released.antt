-- ===== src/Openid4vc/Verifier/Released.antt =====
-- Which attributes the verifier gives to the relying party.
use nl_wallet.Base.{
  ℕ, ◌≡◌, ◌≢◌, ◌⊎◌, inl, inr, refl, sym, ap, subst, ◌∙◌, Bool, true, false, Bool-cases, Option,
  none, some, String, str_eq, eq_iff, Exec, ok, err, panic, map_err, map_err-ok,
}
use nl_wallet.SessionStore.{SessionState}
use nl_wallet.SessionStore.Interface.{Store, IsStore, with_session-ok, written_next-ok}
use nl_wallet.Mdoc.{DisclosedAttributes}
use nl_wallet.Openid4vc.Openid4vp.{AuthResponseError}
use nl_wallet.Openid4vc.Openid4vp.Responses.{decrypt_and_verify}
use nl_wallet.Openid4vc.Verifier.{
  RedirectUri, uri_from_option, WaitingForResponse, result_done, result_failed, DisclosureData,
  done, session_store, VerificationError, WithRedirectUri, PostAuthResponseError,
  redirect_uri_nonce_mismatch, redirect_uri_nonce_missing, post_session_error, auth_response,
  wallet_response, Verifier,
}
use nl_wallet.Openid4vc.Verifier.Steps.{transition, without_uri, with_uri}
use nl_wallet.Openid4vc.Verifier.Endpoints.{
  get_session_state, get_waiting, nonce_from_option, finish_response, respond,
  process_authorization_response, attributes_of, disclosed_attributes,
}
use nl_wallet.Openid4vc.Verifier.Answered.{waiting_state, waiting_lem}

-- The relying party gets the attributes if the session has no redirect URI or it received the nonce of
-- this URI; otherwise it is told that the nonce is missing or wrong.
abbrev pub IsReleased :
    Option RedirectUri
    → Option String
    → DisclosedAttributes
    → Exec VerificationError DisclosedAttributes
    → Type 0
IsReleased uri received attrs answer =
    ((answer ≡ ok attrs)
      × ((uri ≡ none) ⊎ ((u : RedirectUri) × (uri ≡ some u) × (received ≡ some u.nonce))))
    ⊎ ((u : RedirectUri) × (uri ≡ some u)
        × (received ≢ some u.nonce)
        × (((received ≡ none) × (answer ≡ err redirect_uri_nonce_missing))
            ⊎ ((m : String) × (received ≡ some m)
                × (answer ≡ err (redirect_uri_nonce_mismatch m)))))

module _ (verifier : Verifier) {S : Type 0} (sessions : Store DisclosureData S) where
  accepted_lem :
      (now : ℕ) (session : SessionState WaitingForResponse)
      (r : Exec AuthResponseError DisclosedAttributes) (st : S) (a : Option String)
      → (finish_response verifier sessions now session r st).0 ≡ ok a
      → (attrs : DisclosedAttributes) × (r ≡ ok attrs)
        × (sessions.write
              (transition now session (
                done (
                  result_done attrs
                    (nonce_from_option verifier sessions session.data_of.redirect_uri))))
              false
              st
            ≡ ok (finish_response verifier sessions now session r st).1)
  accepted_lem now session (ok attrs) st a e =
      let result =
        result_done attrs (nonce_from_option verifier sessions session.data_of.redirect_uri) in
      let (_, written) =
        written_next-ok
          (λ x. with_uri session.data_of.redirect_uri (post_session_error (session_store x)))
          (sessions.write (transition now session (done result)) false st)
          (ok (uri_from_option session.data_of.redirect_uri)) st a e in
      (attrs, refl, written)
  accepted_lem now session (err x) st a e =
      let (wrong, _) =
        written_next-ok
          (λ y. with_uri session.data_of.redirect_uri (post_session_error (session_store y)))
          (sessions.write
            (transition now session (done (result_failed (verifier.describe_response x)))) false st)
          (err (with_uri session.data_of.redirect_uri (auth_response x))) st a e in
      absurd (no_value wrong)
    where
      no_value :
          {x : WithRedirectUri PostAuthResponseError}
          → ◌≡◌ {A = Exec (WithRedirectUri PostAuthResponseError) (Option String)} (err x) (ok a)
          → ⊥
      no_value h = cc
  accepted_lem now session panic st a e = cc

  released_lem :
      (uri : Option RedirectUri) (received : Option String) (attrs : DisclosedAttributes)
      → IsReleased uri received attrs (
          attributes_of verifier sessions received
            (done (result_done attrs (nonce_from_option verifier sessions uri))))
  released_lem none received attrs = inl (refl, inl refl)
  released_lem (some u) none attrs = inr (u, refl, λ e. cc, inl (refl, refl))
  released_lem (some u) (some m) attrs = elim (Bool-cases (str_eq m u.nonce)) [
    | inl t ↦ inl (rw t refl, inr (u, refl, ap some ((eq_iff m u.nonce).0 t)))
    | inr f ↦ inr (u, refl, λ e. other (eq_iff m u.nonce).1 e f, inr (m, refl, rw f refl))
  ]
    where
      other : {b : Bool} {n : String} → (m ≡ n → b ≡ true) → some m ≡ some n → b ≡ false → ⊥
      other same e f = cc (same (cc e))

  disclosed_lem :
      (token : String) (received : Option String) (st : S) (s : SessionState DisclosureData)
      → sessions.get token st ≡ ok (some s)
      → disclosed_attributes verifier sessions token received st
        ≡ attributes_of verifier sessions received s.data_of
  unfolding disclosed_attributes get_session_state
  disclosed_lem token received st s g = rw g refl

-- For a store that keeps its promises: if the verifier accepts a wallet's token, then it was decrypted and
-- verified for the request of the session that waits under the session token, and the attributes that the
-- relying party can get afterwards are the ones of this verification, released to it with the nonce of
-- the session's redirect URI if there is one.
pub disclosed_attributes-process_authorization_response :
    {S : Type 0} (verifier : Verifier) (sessions : Store DisclosureData S) (now : ℕ)
    (token jwe : String) (received : Option String) (st : S) (a : Option String)
    → IsStore sessions
    → (process_authorization_response verifier sessions now token (wallet_response jwe) st).0 ≡ ok a
    → (session : SessionState WaitingForResponse) × (attrs : DisclosedAttributes) × (sessions.get
          token st
        ≡ ok (some (waiting_state session)))
      × (decrypt_and_verify verifier.responses verifier.crypto jwe session.data_of.encryption_key
            session.data_of.auth_request now
          ≡ ok attrs)
      × IsReleased session.data_of.redirect_uri received attrs (
          disclosed_attributes verifier sessions token received
            (process_authorization_response verifier sessions now token (wallet_response jwe) st).1)
unfolding process_authorization_response
disclosed_attributes-process_authorization_response verifier sessions now token jwe received st a
      laws e =
    let (session, g, done_so, same) =
      with_session-ok
        (map_err (λ x. without_uri (post_session_error x)) (get_waiting verifier sessions token st))
        (λ session. respond verifier sessions now session (wallet_response jwe)) st a e in
    let found =
      map_err-ok (λ x. without_uri (post_session_error x)) (get_waiting verifier sessions token st)
        g in
    let (named, stored) = waiting_lem verifier sessions token st session laws found in
    let (attrs, verified, written) =
      accepted_lem verifier sessions now session
        (decrypt_and_verify verifier.responses verifier.crypto jwe session.data_of.encryption_key
          session.data_of.auth_request now)
        st a done_so in
    let finished = transition now session (
      done
        (result_done attrs (nonce_from_option verifier sessions session.data_of.redirect_uri))) in
    let kept = laws.read_written finished false st _ (written ∙ ap ok (sym same)) in
    let read =
      subst
        (λ t.
          sessions.get t
            (process_authorization_response verifier sessions now token (wallet_response jwe) st).1
          ≡ ok (some finished))
        named kept in
    (
      session,
      attrs,
      stored,
      verified,
      subst (IsReleased session.data_of.redirect_uri received attrs)
          (sym (disclosed_lem verifier sessions token received _ finished read))
          (released_lem verifier sessions session.data_of.redirect_uri received attrs),
    )
