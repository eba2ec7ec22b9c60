-- ===== src/Scenarios/Issuance.antt =====
-- The issuer with one session that waits for a credential request.
use nl_wallet.Base.{◌≡◌, refl, none, some, String, Bytes, List, [], ◌∷◌, ok, bytes_eq}
use nl_wallet.SessionStore.{SessionState, SessionStoreTimeouts}
use nl_wallet.SessionStore.Memory.{get_session, write, insert_entry}
use nl_wallet.Openid4vc.Dpop.{
  Jwt, DpopPayload, verify_dpop, verify_data, verify_expecting_key, IsBound,
  verify_expecting_key-IsBound,
}
use nl_wallet.Openid4vc.Issuer.{
  UnsignedMdoc, pre_authorized_code, TokenRequest, mso_mdoc, CredentialRequest, WaitingForResponse,
  IssuanceData, waiting_for_response, done, result_done, Issuer,
}
use nl_wallet.Openid4vc.Issuer.Credentials.{
  requested, verify_proof, verify_pop_and_sign_attestation, authorize, process_credential_inner,
  offered,
}
use nl_wallet.Openid4vc.Issuer.Requests.{
  Fresh, TokenResponse, credential, credential_request, process_token_request_inner,
  session_of_request, process_token_request, get_session as waiting_session, session_of_token,
  respond, process_request,
}
use nl_wallet.SessionStore.Interface.{memory, memory-IsStore}
use nl_wallet.Openid4vc.Issuer.Sessions.{IsAuthorized, process_request-IsAuthorized}
use nl_wallet.Openid4vc.Issuer.Issued.{IsSignedFor, process_credential_inner-IsSignedFor}
use nl_wallet.Openid4vc.Issuer.TokenRequests.{process_token_request-granted}

abbrev pub timeouts : SessionStoreTimeouts
timeouts = record { expiration = 1800; successful_deletion = 300; failed_deletion = 14400 }

abbrev pub mdoc : UnsignedMdoc
mdoc = record { doc_type = "pid"; attributes = "attributes"; copy_count = 1 }

abbrev pub waiting : WaitingForResponse
waiting = record {
  access_token = "token";
  c_nonce = "nonce";
  attestation_previews = record { unsigned_mdoc = mdoc; issuer = [] } ∷ [];
  dpop_public_key = 3 ∷ [];
  dpop_nonce = "dpop nonce";
}

abbrev pub session : SessionState IssuanceData
session = record { data_of = waiting_for_response waiting; token = "code"; last_active = 100 }

abbrev pub done_session : SessionState IssuanceData
done_session = record { data_of = done result_done; token = "code"; last_active = 100 }

abbrev pub store : List (SessionState IssuanceData)
store = session ∷ []

abbrev claims_of : String → DpopPayload
claims_of dpop = record {
  http_url = "credential";
  http_method = "POST";
  access_token_hash = some (1 ∷ []);
  nonce = some "dpop nonce";
}

abbrev jwt : Jwt
jwt = record {
  decode_header = λ _. some (record { typ = some "openid4vci-proof+jwt"; jwk = some "jwk" });
  decode_dpop = λ dpop key. some (record {
    header = record { typ = some "dpop+jwt"; jwk = some "jwk" };
    claims = claims_of dpop;
  });
  jwk_to_p256 = λ _. some (3 ∷ []);
  sha256 = λ _. 1 ∷ [];
}

abbrev issuer : Issuer
issuer = record {
  jwt = jwt;
  decode_proof = λ _ _ _ _. some (record {
    header = record { typ = some "openid4vci-proof+jwt"; jwk = some "jwk" };
    claims = record { iss = "wallet"; aud = "issuer"; nonce = some "nonce" };
  });
  cose_key = some;
  key_pair = λ _. some (4 ∷ []);
  sign_mdoc = λ _ _ _. some "credential";
  attributes = λ _ _. some (record { unsigned_mdoc = mdoc; issuer = [] } ∷ []);
  describe = λ _. "error";
  describe_token = λ _. "error";
  join = λ _ path. path;
  append = λ _ code. code;
  get_from = λ _ _. some "code";
  credential_issuer_identifier = "issuer";
  accepted_wallet_client_ids = "wallet" ∷ [];
  server_url = "server";
}

abbrev pid_request : CredentialRequest
pid_request = record { format = mso_mdoc; doctype = some "pid"; proof = some "proof" }

abbrev fresh : Fresh
fresh = record { now = 200; access_random = "random"; c_nonce = "nonce"; dpop_nonce = "dpop nonce" }

bound :
    verify_expecting_key jwt "dpop" (3 ∷ []) "credential" "POST" (some "token") (some "dpop nonce")
    ≡ ok tt
unfolding verify_expecting_key verify_data bytes_eq
bound = refl

verify_expecting_key-IsBound_example :
    IsBound jwt "dpop" (3 ∷ []) "credential" "POST" (some "token") (some "dpop nonce")
verify_expecting_key-IsBound_example =
    verify_expecting_key-IsBound jwt "dpop" (3 ∷ []) "credential" "POST" (some "token")
      (some "dpop nonce") bound

issued : process_credential_inner issuer waiting pid_request "token" "dpop" ≡ ok "credential"
unfolding process_credential_inner authorize verify_expecting_key verify_data bytes_eq requested
    verify_pop_and_sign_attestation verify_proof
issued = refl

process_credential_inner-IsSignedFor_example :
    (unsigned : UnsignedMdoc) × (offered unsigned.doc_type waiting.attestation_previews
      ≡ unsigned ∷ [])
    × IsSignedFor issuer waiting.c_nonce pid_request unsigned "credential"
process_credential_inner-IsSignedFor_example =
    process_credential_inner-IsSignedFor issuer waiting pid_request "token" "dpop" "credential"
      issued

answered :
    (process_request issuer
      (memory {T = IssuanceData})
      "token"
      "dpop"
      (credential_request pid_request)
      fresh
      store).0
    ≡ ok (credential "credential")
unfolding process_request session_of_token waiting_session get_session respond write insert_entry
    process_credential_inner authorize verify_expecting_key verify_data bytes_eq requested
    verify_pop_and_sign_attestation verify_proof
answered = refl

process_request-IsAuthorized_example :
    IsAuthorized issuer
      (memory {T = IssuanceData})
      "token"
      "dpop"
      (credential_request pid_request)
      store
process_request-IsAuthorized_example =
    process_request-IsAuthorized issuer (memory {T = IssuanceData}) "token" "dpop"
      (credential_request pid_request) fresh store (credential "credential") memory-IsStore answered

-- A proof of possession for a first request, without token and nonce.
abbrev first_issuer : Issuer
first_issuer = record issuer {
  jwt = record jwt {
    decode_dpop = λ dpop key. some (record {
      header = record { typ = some "dpop+jwt"; jwk = some "jwk" };
      claims = record {
        http_url = "token";
        http_method = "POST";
        access_token_hash = none;
        nonce = none;
      };
    });
  };
}

abbrev token_request : TokenRequest
token_request = record {
  grant_type = pre_authorized_code "code";
  code_verifier = none;
  client_id = none;
  redirect_uri = none;
}

abbrev token_response : TokenResponse
token_response = record {
  access_token = "code";
  c_nonce = "nonce";
  attestation_previews = record { unsigned_mdoc = mdoc; issuer = [] } ∷ [];
  dpop_nonce = "dpop nonce";
}

token_granted :
    (process_token_request first_issuer (memory {T = IssuanceData}) token_request "dpop" fresh []).0
    ≡ ok token_response
unfolding process_token_request session_of_request process_token_request_inner verify_dpop
    verify_data get_session write insert_entry
token_granted = refl

process_token_request-granted_example :
    ((memory {T = IssuanceData}).get "code" [] ≡ ok none)
    × (key : Bytes) × ((memory {T = IssuanceData}).get "code"
          (process_token_request first_issuer
            (memory {T = IssuanceData})
            token_request
            "dpop"
            fresh
            []).1
        ≡ ok (
            some (record {
              data_of = waiting_for_response (record {
                access_token = token_response.access_token;
                c_nonce = token_response.c_nonce;
                attestation_previews = token_response.attestation_previews;
                dpop_public_key = key;
                dpop_nonce = token_response.dpop_nonce;
              });
              token = "code";
              last_active = 200;
            })))
process_token_request-granted_example =
    process_token_request-granted first_issuer (memory {T = IssuanceData}) token_request "dpop"
      fresh [] token_response memory-IsStore token_granted
