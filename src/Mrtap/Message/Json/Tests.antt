-- ===== src/Mrtap/Message/Json/Tests.antt =====
-- The theorems on the JSON of a message, over raw messages that keep what was written.
use bzero.Shared.{◌≡◌, refl, Option, none, some, String, List, [], ◌∷◌, ok, panic}
use bzero.Mrtap.Types.{
  syn, SynPayload, SynAckPayload, DataPayload, DataAckPayload, Payload, syn_payload,
  syn_ack_payload, data_payload, data_ack_payload, Message,
}
use bzero.Mrtap.Message.Json
use bzero.Mrtap.Message.Json.{Json, marshal, unmarshal}
use bzero.Mrtap.Message.Json.RoundTrip.{ReadsBack, typed_syn, read_syn_payload, unmarshal-marshal}

-- An object keeps the texts and the payloads of its fields.
data Leaf : Type 0 where
  text_leaf : String → Leaf
  payload_leaf : Payload → Leaf

data Raw : Type 0 where
  raw_object : List (String × Option Leaf) → Raw
  leaf : Leaf → Raw

abbrev raw_text : String → Raw
raw_text s = leaf (text_leaf s)

abbrev raw_payload : Payload → Raw
raw_payload p = leaf (payload_leaf p)

abbrev leaf_of : Raw → Option Leaf
leaf_of (leaf l) = some l
leaf_of (raw_object fields) = none

abbrev kept : List (String × Raw) → List (String × Option Leaf)
kept [] = []
kept ((k, v) ∷ ps) = (k, leaf_of v) ∷ kept ps

abbrev raw_of : Option Leaf → Option Raw
raw_of none = none
raw_of (some l) = some (leaf l)

abbrev read_back : List (String × Option Leaf) → List (String × Option Raw)
read_back [] = []
read_back ((k, v) ∷ ps) = (k, raw_of v) ∷ read_back ps

abbrev object_of : Raw → Option (List (String × Option Raw))
object_of (raw_object fields) = some (read_back fields)
object_of (leaf l) = none

abbrev text_of : Raw → Option String
text_of (leaf (text_leaf s)) = some s
text_of _ = none

abbrev syn_in : Raw → Option SynPayload
syn_in (leaf (payload_leaf (syn_payload p))) = some (read_syn_payload p)
syn_in _ = none

abbrev syn_ack_in : Raw → Option SynAckPayload
syn_ack_in (leaf (payload_leaf (syn_ack_payload p))) = some p
syn_ack_in _ = none

abbrev data_in : Raw → Option DataPayload
data_in (leaf (payload_leaf (data_payload p))) = some p
data_in _ = none

abbrev data_ack_in : Raw → Option DataAckPayload
data_ack_in (leaf (payload_leaf (data_ack_payload p))) = some p
data_ack_in _ = none

abbrev json : Json Raw
json = record {
  write_object = λ fields. raw_object (kept fields);
  read_object = object_of;
  write_string = raw_text;
  read_string = text_of;
  write_payload = raw_payload;
  read_syn = syn_in;
  read_syn_ack = syn_ack_in;
  read_data = data_in;
  read_data_ack = data_ack_in;
}

json-ReadsBack : ReadsBack json
json-ReadsBack = record {
  object = λ type p a b t. refl;
  text = λ s. refl;
  syn_back = λ p. refl;
  syn_ack_back = λ p. refl;
  data_back = λ p. refl;
  data_ack_back = λ p. refl;
}

abbrev keystroke : DataPayload
keystroke = record {
  schema_version = "2.2";
  type = "Data";
  action = "shell/input";
  timestamp = "";
  target_id = "agent";
  h_pointer = "pointer";
  bz_cert_hash = "cert";
  action_payload = 97 ∷ [];
}

abbrev greeting : SynPayload
greeting = record {
  schema_version = "2.2";
  type = "Syn";
  action = "shell/open";
  action_payload = 97 ∷ [];
  timestamp = "";
  target_id = "agent";
  nonce = "nonce";
  bz_cert = record {
    initial_id_token = "initial";
    current_id_token = "current";
    client_public_key = "key";
    rand = "rand";
    signature_on_rand = "signed";
    expiration = 9;
    hash = "hash";
  };
}

abbrev message : Message
message = record { type = syn; payload = syn_payload greeting; signature = "signed" }

unmarshal-marshal_example :
    unmarshal json (marshal json message)
    ≡ ok (record message { payload = syn_payload (read_syn_payload greeting) })
unmarshal-marshal_example = unmarshal-marshal json message json-ReadsBack (typed_syn greeting)

abbrev legacy_fields : List (String × Option Leaf)
legacy_fields =
    ("type", some (text_leaf "Data"))
    ∷ ("keysplittingPayload", some (payload_leaf (data_payload keystroke)))
    ∷ ("signature", some (text_leaf "signed"))
    ∷ []

-- A reader of an object without a type panics.
no_type : unmarshal json (raw_object (("signature", some (text_leaf "signed")) ∷ [])) ≡ panic
unfolding Json.value unmarshal Json.read_text
no_type = refl
