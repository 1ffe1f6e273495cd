-- ===== src/Mrtap/Sample.antt =====
-- A small world in which the assumptions of the protocol hold: texts that encode bytes as tallies, a
-- one-byte digest, keys that sign by their first byte, and versions as numbers.
pub mod Ends
use Prim.Native.Char.{code}
use Prim.Native.String.{◌++◌}
use bzero.Shared.{
  ℕ, zero, suc, ◌+◌, ◌*◌, ◌%◌, ◌≡◌, ◌≢◌, refl, ap, ◌∙◌, Bool, true, false, ◌&&◌, Option, none, some,
  String, [], ◌∷◌, str_eq, ltb, leb, ◌==◌, if◌then◌else◌, ◌>>=◌, arith,
}
use bzero.Mrtap.Types.{
  Bytes, BzCert, Payload, syn_payload, syn_ack_payload, data_payload, data_ack_payload, absent,
}
use bzero.Mrtap.Externals.{Externals, IdTokenClaims}
use bzero.Mrtap.PipelineMap.{OrderedMap, Pairs, put, remove}
use bzero.Mrtap.Daemon.{Credential}

-- `n` strokes and a stop.
abbrev pub tally : ℕ → String → String
tally zero s = String.◌∷◌ "." s
tally (suc n) s = String.◌∷◌ "i" (tally n s)

abbrev pub encode : Bytes → String
encode [] = ""
encode (n ∷ ns) = tally n (encode ns)

abbrev pub decode_from : ℕ → String → Option Bytes
decode_from acc String.[] = some []
decode_from acc (String.◌∷◌ c s) = elim (code c == b'.') [
  | true ↦ decode_from 0 s >>= λ rest. some (acc ∷ rest)
  | false ↦ decode_from (suc acc) s
]

abbrev pub decode : String → Option Bytes
decode s = decode_from 0 s

decode_from-tally :
    (n acc : ℕ) (s : String)
    → decode_from acc (tally n s) ≡ (decode_from 0 s >>= λ rest. some ((acc + n) ∷ rest))
decode_from-tally zero acc s =
    ap (λ k. decode_from 0 s >>= λ rest. some (k ∷ rest)) {y = acc + 0} (omega arith)
decode_from-tally (suc n) acc s =
    decode_from-tally n (suc acc) s
    ∙ ap (λ k. decode_from 0 s >>= λ rest. some (k ∷ rest)) {x = suc acc + n} {y = acc + suc n}
        (omega arith)

pub decode-encode : (bytes : Bytes) → decode (encode bytes) ≡ some bytes
decode-encode [] = refl
decode-encode (n ∷ ns) =
    decode_from-tally n 0 (encode ns)
    ∙ ap (λ r. r >>= λ rest. some ((0 + n) ∷ rest)) (decode-encode ns)
    ∙ ap (λ k. some (k ∷ ns)) {x = 0 + n} (omega arith)

pub tally-filled : (n : ℕ) (s : String) → tally n s ≢ ""
tally-filled zero s = λ e. cc
tally-filled (suc n) s = λ e. cc

-- A digest of one byte.
abbrev pub checksum : ℕ → String → ℕ
checksum acc String.[] = acc
checksum acc (String.◌∷◌ c s) = checksum ((acc * 31 + code c) % 251) s

abbrev pub same_bytes : Bytes → Bytes → Bool
same_bytes [] [] = true
same_bytes (a ∷ xs) (b ∷ ys) = a == b && same_bytes xs ys
same_bytes _ _ = false

pub same_bytes_refl : (xs : Bytes) → same_bytes xs xs ≡ true
same_bytes_refl [] = refl
same_bytes_refl (x ∷ xs) = ground (arith, same_bytes_refl xs)

abbrev pub first_byte : Bytes → ℕ
first_byte [] = 0
first_byte (b ∷ bs) = b

-- A text that names what the payload carries.
abbrev pub payload_text : Payload → String
payload_text (syn_payload p) = "S" ++ p.action ++ p.nonce
payload_text (syn_ack_payload p) = "Y" ++ p.h_pointer ++ p.nonce
payload_text (data_payload p) = "D" ++ p.h_pointer ++ p.action ++ encode p.action_payload
payload_text (data_ack_payload p) = "A" ++ p.h_pointer ++ encode p.action_response_payload
payload_text absent = ""

abbrev pub parse_version : String → Option ℕ
parse_version s =
    if str_eq s "2.2"
    then some 22
    else if str_eq s "2.2.0"
    then some 22
    else if str_eq s "1.0"
    then some 10
    else none

abbrev pub version_name : ℕ → String
version_name v = if v == 22 then "2.2.0" else "1.0"

abbrev pub parse_constraint : String → Option (ℕ → Bool)
parse_constraint s =
    if str_eq s "> 1.0"
    then some (λ v. ltb 10 v)
    else if str_eq s "> 2.0"
    then some (λ v. ltb 20 v)
    else if str_eq s "< 2.0"
    then some (λ v. ltb v 20)
    else if str_eq s ">= 2.0"
    then some (λ v. leb 20 v)
    else none

-- Tokens are their own nonce; they were issued at 0 and expire at 1000.
abbrev pub sample_claims : String → Option IdTokenClaims
sample_claims token =
    some (record { hd = "org"; nonce = token; tid = "org"; issued_at = 0; expiration = 1000 })

abbrev pub world : Externals ℕ
world = record {
  base64_encode = encode;
  base64_decode = decode;
  encode_payload = payload_text;
  encode_cert = λ c. c.current_id_token;
  unmarshal_bytes = λ b. none;
  marshal_text = λ s. checksum 0 s ∷ [];
  sort_keys = λ s. s;
  replace_form_feed = λ s. s;
  sha3_256 = λ s. checksum 0 s ∷ [];
  sha3_256_bytes = λ b. checksum 0 (encode b) ∷ [];
  ed25519_verify = λ key content signature. same_bytes (first_byte key ∷ content) signature;
  ed25519_sign = λ key content. first_byte key ∷ content;
  print_time = λ now. "now";
  new_version = parse_version;
  new_constraint = parse_constraint;
  less_than = ltb;
  print_version = version_name;
  new_provider = λ issuer. true;
  oidc_verify = λ issuer skip_expiry now token. leb now 1000;
  id_token_claims = sample_claims;
  remote_verify = λ url email now token. leb now 1000;
  service_claims = λ token. some (record { nonce = token; expiration = 1000 });
  parse_signed = λ token. none;
  parse_request_uri = λ s. some s;
  regexp_match = λ pattern' s. true;
}

abbrev pub pairs_map : OrderedMap Pairs
pairs_map = record {
  empty = [];
  set = λ m k v. put k v m;
  delete = λ m k. remove k m;
  pairs = λ m. m;
  pairs-empty = refl;
  pairs-set = λ m k v. refl;
  pairs-delete = λ m k. refl;
}

-- A certificate that never needs to be renewed.
pub record Wallet : Type 0 where
  pub cert : BzCert
  pub key : Bytes

abbrev pub wallet : Credential Wallet
wallet = record {
  refresh = λ w. (w, true);
  cert = λ w. w.cert;
  cert_hash = λ w. encode (checksum 0 w.cert.current_id_token ∷ []);
  private_key = λ w. w.key;
}
