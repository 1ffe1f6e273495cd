-- ===== src/Mrtap/BzCert.antt =====
-- bzerolib/mrtap/bzcert: the verification of a BastionZero certificate. The network and the parsing
-- of tokens are parameters; `now` is the time at which a certificate is verified.
pub mod Jku
pub mod Sound
use Prim.Native.String.{◌++◌}
use bzero.Shared.{
  ℕ, ◌+◌, ◌*◌, Bool, true, false, not, ◌&&◌, ◌||◌, Option, none, some, String, List, [], ◌∷◌,
  str_eq, ltb, if◌then◌else◌, Outcome, ok, err, panic,
}
use bzero.Mrtap.Types.{Bytes, BzCert}
use bzero.Mrtap.Externals.{Externals, Header, missing, text, not_text, IdTokenClaims, ServiceClaims}
use bzero.Mrtap.Keypair
use Jku.{extract_jwks_url_pattern}

pub data TokenError : Type 0 where
  token_not_verified claims_malformed wrong_google_hd wrong_microsoft_tid initial_expired :
      TokenError
  nonce_mismatch rand_not_base64 bad_public_key bad_rand_signature : TokenError
  unparsable_token no_signatures bad_jku malformed_jku bad_jwks_url jwks_not_allowed : TokenError

pub data CertError : Type 0 where
  unrecognized_provider bad_keycloak_url no_connection : CertError
  bad_initial_id_token bad_current_id_token bad_service_account : TokenError → CertError

pub data ProviderType : Type 0 where
  google microsoft okta one_login keycloak : ProviderType
  unknown : ProviderType

unfoldable pub provider_type : String → ProviderType
provider_type s =
    if str_eq s "google"
    then google
    else if str_eq s "microsoft"
    then microsoft
    else if str_eq s "okta"
    then okta
    else if str_eq s "onelogin"
    then one_login
    else if str_eq s "keycloak"
    then keycloak
    else unknown

pub record Verifier : Type 0 where
  pub org_id : String
  pub issuer : String
  pub provider : ProviderType
  pub allowed_jwks_url_patterns : List String

-- 5 years
abbrev pub initial_id_token_lifetime : ℕ
initial_id_token_lifetime = 3600 * 24 * 365 * 5

-- A map from keys to `true`.
unfoldable pub allowed : List String → String → Bool
allowed [] k = false
allowed (p ∷ ps) k = str_eq p k || allowed ps k

unfoldable pub get_microsoft_iss_url : String → String
get_microsoft_iss_url org_id =
    "https://login.microsoftonline.com/"
    ++ (if str_eq org_id "None" then "9188040d-6c67-4c5b-b112-36a304b66dad" else org_id)
    ++ "/v2.0"

-- The same claim is checked by each provider's own name for the organization.
unfoldable pub check_org : Verifier → IdTokenClaims → Outcome TokenError IdTokenClaims
check_org v claims = if str_eq v.org_id "None" then ok claims else elim v.provider [
  | google ↦ if str_eq v.org_id claims.hd then ok claims else err wrong_google_hd
  | microsoft ↦ if str_eq v.org_id claims.tid then ok claims else err wrong_microsoft_tid
  | _ ↦ ok claims
]

module _ {V : Type 0} (x : Externals V) where
  unfoldable pub issuer_url : ProviderType → String → Outcome CertError String
  unfolding get_microsoft_iss_url
  issuer_url google org_id = ok "https://accounts.google.com"
  issuer_url microsoft org_id = ok (get_microsoft_iss_url org_id)
  issuer_url okta org_id = ok ("https://" ++ org_id ++ ".okta.com")
  issuer_url one_login org_id = ok ("https://" ++ org_id ++ ".onelogin.com/oidc/2")
  issuer_url keycloak org_id =
      if x.regexp_match "^https://.*/realms/.*" org_id then ok org_id else err bad_keycloak_url
  issuer_url unknown org_id = err unrecognized_provider

  -- `NewVerifier`
  unfoldable pub new_verifier : String → String → List String → Outcome CertError Verifier
  unfolding issuer_url
  new_verifier idp_provider idp_org_id patterns =
      elim (issuer_url (provider_type idp_provider) idp_org_id) [
        | err e ↦ err e
        | panic ↦ panic
        | ok issuer ↦
            if x.new_provider issuer
            then ok (record {
              org_id = idp_org_id;
              issuer = issuer;
              provider = provider_type idp_provider;
              allowed_jwks_url_patterns = patterns;
            })
            else err no_connection
      ]

  unfoldable pub get_token_claims : Verifier → Bool → ℕ → String → Outcome TokenError IdTokenClaims
  get_token_claims v skip_expiry now token =
      if x.oidc_verify v.issuer skip_expiry now token
      then elim (x.id_token_claims token) [
        | none ↦ err claims_malformed
        | some claims ↦ check_org v claims
      ]
      else err token_not_verified

  -- What the nonce of an identity token commits to.
  abbrev pub nonce_hash : BzCert → String
  nonce_hash c = x.base64_encode (x.sha3_256 (c.client_public_key ++ c.signature_on_rand ++ c.rand))

  unfoldable pub verify_auth_nonce : BzCert → String → Outcome TokenError (Unit {0})
  verify_auth_nonce c auth_nonce =
      if not (str_eq auth_nonce (nonce_hash c))
      then err nonce_mismatch
      else elim (x.base64_decode c.rand) [
        | none ↦ err rand_not_base64
        | some decoded ↦ elim (Keypair.public_key_from_string x c.client_public_key) [
          | none ↦ err bad_public_key
          | some key ↦
              elim (Keypair.verify x (some key) (x.sha3_256_bytes decoded) c.signature_on_rand) [
                | none ↦ panic
                | some good ↦ if good then ok tt else err bad_rand_signature
              ]
        ]
      ]

  -- `verifyCurrentIdToken`: the time at which the token expires.
  unfoldable pub verify_current_id_token : Verifier → ℕ → String → Outcome TokenError ℕ
  verify_current_id_token v now token = elim (get_token_claims v false now token) [
    | err e ↦ err e
    | panic ↦ panic
    | ok claims ↦ ok claims.expiration
  ]

  unfoldable pub verify_initial_id_token :
      Verifier → ℕ → String → BzCert → Outcome TokenError (Unit {0})
  verify_initial_id_token v now token c = elim (get_token_claims v true now token) [
    | err e ↦ err e
    | panic ↦ panic
    | ok claims ↦
        if ltb (claims.issued_at + initial_id_token_lifetime) now
        then err initial_expired
        else verify_auth_nonce c claims.nonce
  ]

  -- The `jku` header of the first signature, if it is a text that is not empty.
  unfoldable pub jku_text : List Header → Option String
  jku_text [] = none
  jku_text (missing ∷ hs) = none
  jku_text (not_text ∷ hs) = none
  jku_text (text s ∷ hs) = if str_eq s "" then none else some s

  unfoldable pub is_service_account_token : String → Bool
  unfolding jku_text
  is_service_account_token token = elim (x.parse_signed token) [
    | none ↦ false
    | some headers ↦ elim (jku_text headers) [ none ↦ false | some s ↦ true ]
  ]

  -- `VerifyServiceAccountIdToken` from the `jku` text on.
  unfoldable pub verify_jku : Verifier → ℕ → BzCert → String → Outcome TokenError ℕ
  verify_jku v now c jku = elim (extract_jwks_url_pattern jku) [
    | none ↦ err malformed_jku
    | some (pattern', email) ↦ elim (x.parse_request_uri pattern') [
      | none ↦ err bad_jwks_url
      | some url ↦
          if not (allowed v.allowed_jwks_url_patterns url)
          then err jwks_not_allowed
          else if not (x.remote_verify jku email now c.current_id_token)
          then err token_not_verified
          else elim (x.service_claims c.current_id_token) [
            | none ↦ err claims_malformed
            | some claims ↦ elim (verify_auth_nonce c claims.nonce) [
              | err e ↦ err e
              | panic ↦ panic
              | ok _ ↦ ok claims.expiration
            ]
          ]
    ]
  ]

  unfoldable pub verify_service_account_id_token : Verifier → ℕ → BzCert → Outcome TokenError ℕ
  unfolding jku_text
  verify_service_account_id_token v now c = elim (x.parse_signed c.current_id_token) [
    | none ↦ err unparsable_token
    | some [] ↦ err no_signatures
    | some (h ∷ hs) ↦ elim (jku_text (h ∷ hs)) [
      | none ↦ err bad_jku
      | some jku ↦ verify_jku v now c jku
    ]
  ]

  -- The verification of both identity tokens of a person's certificate.
  unfoldable pub verify_id_tokens : Verifier → ℕ → BzCert → Outcome CertError ℕ
  verify_id_tokens v now c = elim (verify_initial_id_token v now c.initial_id_token c) [
    | err e ↦ err (bad_initial_id_token e)
    | panic ↦ panic
    | ok _ ↦ elim (verify_current_id_token v now c.current_id_token) [
      | err e ↦ err (bad_current_id_token e)
      | panic ↦ panic
      | ok exp ↦ ok exp
    ]
  ]

  -- `BZCertVerifier.Verify`
  unfoldable pub verify_cert : Verifier → ℕ → BzCert → Outcome CertError ℕ
  verify_cert v now c =
      if is_service_account_token c.current_id_token
      then elim (verify_service_account_id_token v now c) [
        | err e ↦ err (bad_service_account e)
        | panic ↦ panic
        | ok exp ↦ ok exp
      ]
      else verify_id_tokens v now c

  -- `HashCert`; the encoding of five texts does not fail.
  unfoldable pub cert_hash : BzCert → String
  cert_hash c = x.base64_encode (x.sha3_256 (x.replace_form_feed (x.sort_keys (x.encode_cert c))))

  -- `BZCert.Verify` fills in the hash and the time of expiry.
  unfoldable pub verify : String → String → List String → ℕ → BzCert → Outcome CertError BzCert
  verify idp_provider idp_org_id patterns now c =
      elim (new_verifier idp_provider idp_org_id patterns) [
        | err e ↦ err e
        | panic ↦ panic
        | ok v ↦ elim (verify_cert v now c) [
          | err e ↦ err e
          | panic ↦ panic
          | ok exp ↦ ok (record c { hash = cert_hash c; expiration = exp })
        ]
      ]

-- `time.Now().After(b.expiration)`
unfoldable pub expired : BzCert → ℕ → Bool
expired c now = ltb c.expiration now
