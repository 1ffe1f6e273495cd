-- ===== src/Mrtap/BzCert/Sound.antt =====
-- What a certificate that verifies has shown.
use bzero.Shared.{
  ℕ, ◌+◌, ◌≤◌, ◌≡◌, ◌∙◌, ◌⊎◌, inl, inr, refl, ap, Bool, true, false, Option, none, some, String,
  List, [], ◌∷◌, eq_iff, arith, Outcome, ok, err, panic,
}
use bzero.Mrtap.Types.{Bytes, BzCert}
use bzero.Mrtap.Externals.{Externals, Header, IdTokenClaims, ServiceClaims}
use bzero.Mrtap.Keypair
use bzero.Mrtap.BzCert.{
  TokenError, CertError, Verifier, initial_id_token_lifetime, allowed, check_org, new_verifier,
  get_token_claims, nonce_hash, verify_auth_nonce, jku_text, verify_current_id_token,
  verify_initial_id_token, is_service_account_token, verify_jku, verify_service_account_id_token,
  verify_id_tokens, verify_cert, cert_hash, verify,
}
use bzero.Mrtap.BzCert.Jku.{extract_jwks_url_pattern}

module _ {V : Type 0} (x : Externals V) where
  -- A nonce commits to the certificate's key, and that key has signed the certificate's random bytes.
  pub record Committed (c : BzCert) (nonce : String) : Type 0 where
    pub decoded : Bytes
    pub key : Bytes
    pub commits : nonce ≡ nonce_hash x c
    pub rand_decodes : x.base64_decode c.rand ≡ some decoded
    pub keyed : Keypair.public_key_from_string x c.client_public_key ≡ some key
    pub rand_signed :
        Keypair.verify x (some key) (x.sha3_256_bytes decoded) c.signature_on_rand ≡ some true

  Committed-key :
      (c : BzCert) (nonce : String) (decoded : Bytes) (r : Option Bytes) (good : Option Bool)
      → x.base64_decode c.rand ≡ some decoded
      → Keypair.public_key_from_string x c.client_public_key ≡ r
      → Keypair.verify x r (x.sha3_256_bytes decoded) c.signature_on_rand ≡ good
      → verify_auth_nonce x c nonce ≡ ok tt
      → Committed c nonce
  unfolding verify_auth_nonce
  Committed-key c nonce decoded none good e k s h = absurd (ground (arith, e, k))
  Committed-key c nonce decoded (some key) none e k s h = absurd (ground (arith, e, k, s))
  Committed-key c nonce decoded (some key) (some false) e k s h = absurd (ground (arith, e, k, s))
  Committed-key c nonce decoded (some key) (some true) e k s h = record {
    decoded = decoded;
    key = key;
    commits = ground (arith, h, eq_iff nonce (nonce_hash x c));
    rand_decodes = e;
    keyed = k;
    rand_signed = s;
  }

  committed :
      (c : BzCert) (nonce : String) (r : Option Bytes)
      → x.base64_decode c.rand ≡ r
      → verify_auth_nonce x c nonce ≡ ok tt
      → Committed c nonce
  unfolding verify_auth_nonce
  committed c nonce none e h = absurd (ground (arith, e))
  committed c nonce (some decoded) e h = Committed-key c nonce decoded _ _ e refl refl h

  -- A token that the provider's issuer vouches for, with the claims it makes, of the right organization.
  pub record Vouched (v : Verifier) (skip_expiry : Bool) (now : ℕ) (token : String)
      (claims : IdTokenClaims) : Type 0 where
    pub verified : x.oidc_verify v.issuer skip_expiry now token ≡ true
    pub claimed : x.id_token_claims token ≡ some claims
    pub belongs : check_org v claims ≡ ok claims

  check_org-same :
      (v : Verifier) (claims claims' : IdTokenClaims)
      → check_org v claims ≡ ok claims'
      → claims ≡ claims'
  unfolding check_org
  check_org-same v claims claims' h = ground arith

  vouched :
      (v : Verifier) (skip_expiry : Bool) (now : ℕ) (token : String) (claims : IdTokenClaims)
      (r : Option IdTokenClaims)
      → x.id_token_claims token ≡ r
      → get_token_claims x v skip_expiry now token ≡ ok claims
      → Vouched v skip_expiry now token claims
  unfolding get_token_claims
  vouched v skip now token claims none e h = absurd (ground (arith, e))
  vouched v skip now token claims (some found) e h =
      let same = check_org-same v found claims (ground (arith, e)) in
      record {
        verified = ground (arith, e);
        claimed = e ∙ ap some same;
        belongs = ground (arith, e, same);
      }

  -- What a person's certificate shows: its first token is of the last five years and commits to its key,
  -- its current token is live, and both are of the organization.
  pub record Person (v : Verifier) (now : ℕ) (c : BzCert) (exp : ℕ) : Type 0 where
    pub initial : IdTokenClaims
    pub current : IdTokenClaims
    pub initial_vouched : Vouched v true now c.initial_id_token initial
    pub recent : now ≤ initial.issued_at + initial_id_token_lifetime
    pub commits : Committed c initial.nonce
    pub current_vouched : Vouched v false now c.current_id_token current
    pub expires : current.expiration ≡ exp

  person_claims :
      (v : Verifier) (now : ℕ) (c : BzCert) (exp : ℕ) (a b : Outcome TokenError IdTokenClaims)
      → get_token_claims x v true now c.initial_id_token ≡ a
      → get_token_claims x v false now c.current_id_token ≡ b
      → verify_id_tokens x v now c ≡ ok exp
      → Person v now c exp
  unfolding verify_id_tokens verify_initial_id_token verify_current_id_token
  person_claims v now c exp (err e) b p q h = absurd (ground (arith, p))
  person_claims v now c exp panic b p q h = absurd (ground (arith, p))
  person_claims v now c exp (ok i) (err e) p q h = absurd (ground (arith, p, q))
  person_claims v now c exp (ok i) panic p q h = absurd (ground (arith, p, q))
  person_claims v now c exp (ok i) (ok k) p q h = record {
    initial = i;
    current = k;
    initial_vouched = vouched v true now c.initial_id_token i _ refl p;
    recent = ground (arith, p, q);
    commits = committed c i.nonce _ refl (ground (arith, p, q));
    current_vouched = vouched v false now c.current_id_token k _ refl q;
    expires = ground (arith, p, q);
  }

  -- What a service account's certificate shows: the key URL that its token names is of an allowed pattern,
  -- the token verifies under that URL's keys, and it commits to the certificate's key.
  pub record Service (v : Verifier) (now : ℕ) (c : BzCert) (exp : ℕ) : Type 0 where
    pub jku : String
    pub pattern' : String
    pub email : String
    pub url : String
    pub claims : ServiceClaims
    pub extracted : extract_jwks_url_pattern jku ≡ some (pattern', email)
    pub parsed : x.parse_request_uri pattern' ≡ some url
    pub permitted : allowed v.allowed_jwks_url_patterns url ≡ true
    pub verified : x.remote_verify jku email now c.current_id_token ≡ true
    pub claimed : x.service_claims c.current_id_token ≡ some claims
    pub commits : Committed c claims.nonce
    pub expires : claims.expiration ≡ exp

  service_claimed :
      (v : Verifier) (now : ℕ) (c : BzCert) (exp : ℕ) (jku pattern' email url : String)
      (r : Option ServiceClaims)
      → extract_jwks_url_pattern jku ≡ some (pattern', email)
      → x.parse_request_uri pattern' ≡ some url
      → x.service_claims c.current_id_token ≡ r
      → verify_jku x v now c jku ≡ ok exp
      → Service v now c exp
  unfolding verify_jku
  service_claimed v now c exp jku pattern' email url none e u k h = absurd (ground (arith, e, u, k))
  service_claimed v now c exp jku pattern' email url (some claims) e u k h = record {
    jku = jku;
    pattern' = pattern';
    email = email;
    url = url;
    claims = claims;
    extracted = e;
    parsed = u;
    permitted = ground (arith, e, u, k);
    verified = ground (arith, e, u, k);
    claimed = k;
    commits = committed c claims.nonce _ refl (ground (arith, e, u, k));
    expires = ground (arith, e, u, k);
  }

  service_url :
      (v : Verifier) (now : ℕ) (c : BzCert) (exp : ℕ) (jku pattern' email : String)
      (r : Option String)
      → extract_jwks_url_pattern jku ≡ some (pattern', email)
      → x.parse_request_uri pattern' ≡ r
      → verify_jku x v now c jku ≡ ok exp
      → Service v now c exp
  unfolding verify_jku
  service_url v now c exp jku pattern' email none e u h = absurd (ground (arith, e, u))
  service_url v now c exp jku pattern' email (some url) e u h =
      service_claimed v now c exp jku pattern' email url _ e u refl h

  service_pattern :
      (v : Verifier) (now : ℕ) (c : BzCert) (exp : ℕ) (jku : String) (r : Option (String × String))
      → extract_jwks_url_pattern jku ≡ r
      → verify_jku x v now c jku ≡ ok exp
      → Service v now c exp
  unfolding verify_jku
  service_pattern v now c exp jku none e h = absurd (ground (arith, e))
  service_pattern v now c exp jku (some (pattern', email)) e h =
      service_url v now c exp jku pattern' email _ e refl h

  service_jku :
      (v : Verifier) (now : ℕ) (c : BzCert) (exp : ℕ) (first : Header) (rest : List Header)
      (r : Option String)
      → x.parse_signed c.current_id_token ≡ some (first ∷ rest)
      → jku_text x (first ∷ rest) ≡ r
      → verify_service_account_id_token x v now c ≡ ok exp
      → Service v now c exp
  unfolding verify_service_account_id_token
  service_jku v now c exp first rest none e k h = absurd (ground (arith, e, k))
  service_jku v now c exp first rest (some jku) e k h =
      service_pattern v now c exp jku _ refl (ground (arith, e, k))

  service_parsed :
      (v : Verifier) (now : ℕ) (c : BzCert) (exp : ℕ) (r : Option (List Header))
      → x.parse_signed c.current_id_token ≡ r
      → verify_service_account_id_token x v now c ≡ ok exp
      → Service v now c exp
  unfolding verify_service_account_id_token
  service_parsed v now c exp none e h = absurd (ground (arith, e))
  service_parsed v now c exp (some []) e h = absurd (ground (arith, e))
  service_parsed v now c exp (some (first ∷ rest)) e h =
      service_jku v now c exp first rest _ e refl h

  verified_cert :
      (v : Verifier) (now : ℕ) (c : BzCert) (exp : ℕ) (b : Bool)
      → is_service_account_token x c.current_id_token ≡ b
      → verify_cert x v now c ≡ ok exp
      → Service v now c exp ⊎ Person v now c exp
  unfolding verify_cert
  verified_cert v now c exp true e h = inl (service_parsed v now c exp _ refl (ground (arith, e)))
  verified_cert v now c exp false e h =
      inr (person_claims v now c exp _ _ refl refl (ground (arith, e)))

  verified_with :
      (provider org : String) (patterns : List String) (now : ℕ) (c c' : BzCert) (v : Verifier)
      (r : Outcome CertError ℕ)
      → new_verifier x provider org patterns ≡ ok v
      → verify_cert x v now c ≡ r
      → verify x provider org patterns now c ≡ ok c'
      → (exp : ℕ) × (c' ≡ record c { hash = cert_hash x c; expiration = exp })
        × (Service v now c exp ⊎ Person v now c exp)
  unfolding verify
  verified_with provider org patterns now c c' v (ok exp) e k h =
      (exp, ground (arith, e, k), verified_cert v now c exp _ refl k)
  verified_with provider org patterns now c c' v (err f) e k h = absurd (ground (arith, e, k))
  verified_with provider org patterns now c c' v panic e k h = absurd (ground (arith, e, k))

  -- A certificate that verifies is returned with its hash and the expiry of its current token, and is one
  -- of two kinds. A service account's token is signed by the keys at a URL of an allowed pattern. A person's
  -- two tokens are vouched for by the provider's issuer, the first at most five years old and the current
  -- one live. Either commits to the certificate's key, which has signed its random bytes.
  pub verify_sound :
      (provider org : String) (patterns : List String) (now : ℕ) (c c' : BzCert) (v : Verifier)
      → new_verifier x provider org patterns ≡ ok v
      → verify x provider org patterns now c ≡ ok c'
      → (exp : ℕ) × (c' ≡ record c { hash = cert_hash x c; expiration = exp })
        × (Service v now c exp ⊎ Person v now c exp)
  verify_sound provider org patterns now c c' v e h =
      verified_with provider org patterns now c c' v _ e refl h
