-- ===== src/Mrtap/Externals.antt =====
-- What the protocol takes from Go's library and from third parties: encodings, hashes, ed25519
-- signatures, semantic versions, JSON web tokens and OpenID Connect. `V` is the type of a version.
use bzero.Shared.{ℕ, Bool, Option, String, List}
use bzero.Mrtap.Types.{Bytes, BzCert, Payload}

-- The header `jku` of a token's signature, an `interface{}`.
pub data Header : Type 0 where
  missing : Header
  text : String → Header
  not_text : Header

-- The claims of the identity token that are read.
pub record IdTokenClaims : Type 0 where
  pub hd : String
  pub nonce : String
  pub tid : String
  pub issued_at : ℕ
  pub expiration : ℕ

pub record ServiceClaims : Type 0 where
  pub nonce : String
  pub expiration : ℕ

pub record Externals (V : Type 0) : Type 0 where
  -- encoding/base64
  pub base64_encode : Bytes → String
  pub base64_decode : String → Option Bytes
  -- encoding/json without HTML escapes; a struct of strings and byte slices always encodes
  pub encode_payload : Payload → String
  pub encode_cert : BzCert → String
  -- `json.Unmarshal` into a byte slice, and `json.Marshal` of a text
  pub unmarshal_bytes : Bytes → Option Bytes
  pub marshal_text : String → Bytes
  -- `json.Unmarshal` into a map, and the encoding of that map, whose keys are sorted
  pub sort_keys : String → String
  -- `strings.Replace(s, "\\u000c", "\\f", -1)`
  pub replace_form_feed : String → String
  -- golang.org/x/crypto/sha3 over the bytes of a text
  pub sha3_256 : String → Bytes
  pub sha3_256_bytes : Bytes → Bytes
  -- crypto/ed25519: key, content, signature
  pub ed25519_verify : Bytes → Bytes → Bytes → Bool
  pub ed25519_sign : Bytes → Bytes → Bytes
  -- `fmt.Sprint(t.Unix())`
  pub print_time : ℕ → String
  -- github.com/Masterminds/semver
  pub new_version : String → Option V
  pub new_constraint : String → Option (V → Bool)
  pub less_than : V → V → Bool
  pub print_version : V → String
  -- github.com/coreos/go-oidc: whether the issuer answers, whether a token of that issuer verifies
  -- now (with or without the check of its expiry), and the claims of a token
  pub new_provider : String → Bool
  pub oidc_verify : String → Bool → ℕ → String → Bool
  pub id_token_claims : String → Option IdTokenClaims
  -- the same against the remote key set of a service account: its URL, its email, the time
  pub remote_verify : String → String → ℕ → String → Bool
  pub service_claims : String → Option ServiceClaims
  -- gopkg.in/square/go-jose.v2: the `jku` header of each signature of a token
  pub parse_signed : String → Option (List Header)
  -- net/url: `ParseRequestURI(s)` and its `String()`
  pub parse_request_uri : String → Option String
  -- regexp: pattern, text
  pub regexp_match : String → String → Bool
