-- ===== src/Mrtap/Keypair.antt =====
-- bzerolib/keypair: ed25519 keys as base64 texts. A key is its bytes, and a pointer that may be nil an
-- option.
use bzero.Shared.{Bool, false, Option, none, some, String, ◌==◌, if◌then◌else◌, length, ◌>>=◌}
use bzero.Mrtap.Types.{Bytes}
use bzero.Mrtap.Externals.{Externals}

module _ {V : Type 0} (x : Externals V) where
  unfoldable pub public_key_from_string : String → Option Bytes
  public_key_from_string s =
      x.base64_decode s >>= λ key. if length key == 32 then some key else none

  unfoldable pub private_key_from_string : String → Option Bytes
  private_key_from_string s =
      x.base64_decode s >>= λ key. if length key == 64 then some key else none

  unfoldable pub sign : Bytes → Bytes → String
  sign key content = x.base64_encode (x.ed25519_sign key content)

  -- `String()`; a nil key prints as the empty text.
  unfoldable pub key_string : Bytes → String
  key_string key = x.base64_encode key

  -- The key is read only after the signature is decoded: a nil key panics there, which is `none`.
  unfoldable pub verify : Option Bytes → Bytes → String → Option Bool
  verify key content signature = elim (x.base64_decode signature) [
    | none ↦ some false
    | some bits ↦ elim key [ none ↦ none | some bytes ↦ some (x.ed25519_verify bytes content bits) ]
  ]
