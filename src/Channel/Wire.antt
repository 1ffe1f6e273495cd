-- ===== src/Channel/Wire.antt =====
-- What the data channels take from Go's library beside the protocol's own externals.
-- `E` is the type of the errors of the channel that uses them.
use bzero.Shared.{Bool, Option, String}
use bzero.Mrtap.Types.{Bytes}
use bzero.Mrtap.Message.Json.{Json}
use bzero.Mrtap.Daemon.Recovery.{ErrorMessage}

pub record Wire (E : Type 0) : Type 0 where
  pub json : Json Bytes
  -- encoding/json of an error message; its reader calls `ErrorType.UnmarshalJSON` for the type
  pub write_error : ErrorMessage → Bytes
  pub read_error : Bytes → Option ErrorMessage
  -- `string(b)`
  pub text_of : Bytes → String
  -- `err.Error()`
  pub print_error : E → String
  -- `strings.Contains`
  pub contains : String → String → Bool
  -- the last piece of `strings.Split` of a text at another
  pub last_piece : String → String → String
