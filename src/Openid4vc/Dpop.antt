-- ===== src/Openid4vc/Dpop.antt =====
-- Proof of possession of a key in each HTTP request: openid4vc/src/dpop.rs.
-- The JWT library, the conversion of a JWK and SHA-256 are the parameter `Jwt`; a URL is its text.
use nl_wallet.Base.{
  ◌≡◌, refl, ap, Bool, true, false, Option, none, some, String, str_eq, eq_iff, Bytes, bytes_eq,
  bytes_eq_iff, Exec, ok, guard, guard-ok, ok_or, ok_or-ok, ◌>>=◌, ◌>>◌, >>=-ok,
}

pub data DpopError : Type 0 where
  unsupported_jwt_algorithm incorrect_method incorrect_url incorrect_nonce : DpopError
  incorrect_access_token_hash missing_jwk incorrect_jwk_public_key jwk_conversion
        jwt_decoding_failed :
      DpopError

pub record DpopPayload : Type 0 where
  pub http_url : String
  pub http_method : String
  pub access_token_hash : Option Bytes
  pub nonce : Option String

pub record Header : Type 0 where
  pub typ : Option String
  pub jwk : Option String

pub record TokenData (A : Type 0) : Type 0 where
  pub header : Header
  pub claims : A

-- jsonwebtoken's `decode_header`, and `decode` with the key that it verifies with.
pub record Jwt : Type 0 where
  pub decode_header : String → Option Header
  pub decode_dpop : String → Bytes → Option (TokenData DpopPayload)
  pub jwk_to_p256 : String → Option Bytes
  pub sha256 : String → Bytes

abbrev pub same_string : Option String → Option String → Bool
same_string none none = true
same_string (some a) (some b) = str_eq a b
same_string _ _ = false

abbrev pub same_hash : Option Bytes → Option Bytes → Bool
same_hash none none = true
same_hash (some a) (some b) = bytes_eq a b
same_hash _ _ = false

abbrev openid4vci_dpop_jwt_type : String
openid4vci_dpop_jwt_type = "dpop+jwt"

module _ (jwt : Jwt) where
  abbrev pub hash_of : Option String → Option Bytes
  hash_of none = none
  hash_of (some token) = some (jwt.sha256 token)

  unfoldable pub verify_data :
      TokenData DpopPayload
      → String
      → String
      → Option String
      → Option String
      → Exec DpopError (Unit {0})
  verify_data token_data url method access_token nonce = do
    guard (same_string token_data.header.typ (some openid4vci_dpop_jwt_type))
        unsupported_jwt_algorithm
    guard (str_eq token_data.claims.http_method method) incorrect_method
    guard (str_eq token_data.claims.http_url url) incorrect_url
    guard (same_hash token_data.claims.access_token_hash (hash_of access_token))
        incorrect_access_token_hash
    guard (same_string token_data.claims.nonce nonce) incorrect_nonce

  unfoldable pub verify_dpop : String → String → String → Option String → Exec DpopError Bytes
  verify_dpop dpop url method access_token = do
    header ← ok_or (jwt.decode_header dpop) jwt_decoding_failed
    jwk ← ok_or header.jwk missing_jwk
    verifying_key ← ok_or (jwt.jwk_to_p256 jwk) jwk_conversion
    token_data ← ok_or (jwt.decode_dpop dpop verifying_key) jwt_decoding_failed
    verify_data token_data url method access_token none
    ok verifying_key

  unfoldable pub verify_expecting_key :
      String → Bytes → String → String → Option String → Option String → Exec DpopError (Unit {0})
  verify_expecting_key dpop expected url method access_token nonce = do
    token_data ← ok_or (jwt.decode_dpop dpop expected) jwt_decoding_failed
    verify_data token_data url method access_token nonce
    jwk ← ok_or token_data.header.jwk missing_jwk
    contained_key ← ok_or (jwt.jwk_to_p256 jwk) jwk_conversion
    guard (bytes_eq contained_key expected) incorrect_jwk_public_key

-- What a verified proof of possession is bound to.
pub record IsBound (jwt : Jwt) (dpop : String) (key : Bytes) (url method : String)
    (access_token nonce : Option String) : Type 0 where
  pub token_data : TokenData DpopPayload
  pub signed : jwt.decode_dpop dpop key ≡ some token_data
  pub to_url : token_data.claims.http_url ≡ url
  pub to_method : token_data.claims.http_method ≡ method
  pub to_token : token_data.claims.access_token_hash ≡ hash_of jwt access_token
  pub to_nonce : token_data.claims.nonce ≡ nonce

pub same_string_lem : (a b : Option String) → same_string a b ≡ true → a ≡ b
same_string_lem none none e = refl
same_string_lem none (some b) e = cc
same_string_lem (some a) none e = cc
same_string_lem (some a) (some b) e = ap some ((eq_iff a b).0 e)

same_hash_lem : (a b : Option Bytes) → same_hash a b ≡ true → a ≡ b
same_hash_lem none none e = refl
same_hash_lem none (some b) e = cc
same_hash_lem (some a) none e = cc
same_hash_lem (some a) (some b) e = ap some ((bytes_eq_iff a b).0 e)

module _ (jwt : Jwt) (dpop : String) (key : Bytes) (url method : String)
    (access_token nonce : Option String) where
  bound :
      (d : TokenData DpopPayload)
      → jwt.decode_dpop dpop key ≡ some d
      → verify_data jwt d url method access_token nonce ≡ ok tt
      → IsBound jwt dpop key url method access_token nonce
  unfolding verify_data
  bound d signed e =
      let (_, _, e1) =
        >>=-ok
          (guard (same_string d.header.typ (some openid4vci_dpop_jwt_type))
            unsupported_jwt_algorithm)
          _ e in
      let (_, m, e2) = >>=-ok (guard (str_eq d.claims.http_method method) incorrect_method) _ e1 in
      let (_, u, e3) = >>=-ok (guard (str_eq d.claims.http_url url) incorrect_url) _ e2 in
      let (_, h, n) =
        >>=-ok
          (guard (same_hash d.claims.access_token_hash (hash_of jwt access_token))
            incorrect_access_token_hash)
          _ e3 in
      record {
        token_data = d;
        signed = signed;
        to_url = (eq_iff d.claims.http_url url).0 (guard-ok _ _ u);
        to_method = (eq_iff d.claims.http_method method).0 (guard-ok _ _ m);
        to_token =
            same_hash_lem d.claims.access_token_hash (hash_of jwt access_token) (guard-ok _ _ h);
        to_nonce = same_string_lem d.claims.nonce nonce (guard-ok _ _ n);
      }

-- A proof of possession that verifies against an expected key is signed with that key, for exactly the
-- URL, the method, the access token and the nonce that are expected.
pub verify_expecting_key-IsBound :
    (jwt : Jwt) (dpop : String) (key : Bytes) (url method : String)
    (access_token nonce : Option String)
    → verify_expecting_key jwt dpop key url method access_token nonce ≡ ok tt
    → IsBound jwt dpop key url method access_token nonce
unfolding verify_expecting_key
verify_expecting_key-IsBound jwt dpop key url method access_token nonce e =
    let (d, s, e1) = >>=-ok (ok_or (jwt.decode_dpop dpop key) jwt_decoding_failed) _ e in
    let (_, v, e2) = >>=-ok (verify_data jwt d url method access_token nonce) _ e1 in
    bound jwt dpop key url method access_token nonce d (ok_or-ok (jwt.decode_dpop dpop key) _ s) v
