-- ===== src/Channel/Types.antt =====
-- bzerolib/connection/agentmessage and bzerolib/error: what goes over a connection.
use bzero.Shared.{String, str_eq, if◌then◌else◌}
use bzero.Mrtap.Types.{Bytes}

-- `other` is any text that is not one of the constants.
pub data MessageType : Type 0 where
  mrtap mrtap_legacy stream error : MessageType
  open_data_channel close_data_channel close_daemon_websocket close_agent_websocket : MessageType
  other : String → MessageType

pub record AgentMessage : Type 0 where
  pub channel_id : String
  pub message_type : MessageType
  pub schema_version : String
  pub message_payload : Bytes

-- `am.CurrentVersion`
abbrev pub current_version : String
current_version = "1.0"

-- `MessageType.UnmarshalJSON`, on a type that was read: the old name is read as the new one.
unfoldable pub upgraded : MessageType → MessageType
upgraded mrtap_legacy = mrtap
upgraded t = t

-- `bzerr.ErrorType`
abbrev pub mrtap_validation_error : String
mrtap_validation_error = "MrtapValidationError"

abbrev pub mrtap_legacy_validation_error : String
mrtap_legacy_validation_error = "KeysplittingValidationError"

abbrev pub component_startup_error : String
component_startup_error = "ComponentStartupError"

abbrev pub component_processing_error : String
component_processing_error = "ComponentProcessingError"

-- `bzerr.CurrentVersion`
abbrev pub error_version : String
error_version = "202205"

-- `ErrorType.UnmarshalJSON`, on a text that was read.
unfoldable pub upgraded_error : String → String
upgraded_error t = if str_eq t mrtap_legacy_validation_error then mrtap_validation_error else t
