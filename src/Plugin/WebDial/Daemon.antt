-- ===== src/Plugin/WebDial/Daemon.antt =====
-- bctl/daemon/plugin/web/actions/webdial/webdial.go: the daemon's end, which sends an http request in parts
-- and writes the agent's stream messages to the response in order.
use bzero.Shared.{
  ℕ, zero, suc, ◌*◌, length, take, drop, Bool, true, false, not, Option, none, some, String, List,
  [], ◌∷◌, ◌++◌, if◌then◌else◌,
}
use bzero.Mrtap.Types.{Bytes}
use bzero.Plugin.Stream.{
  StreamType, StreamMessage, Base64, number, web_stream, web_stream_end, stream,
}
use bzero.Plugin.InOrder.{Reorder, arrive}
use bzero.Plugin.WebDial.{
  Headers, set_header, WebOutputActionPayload, WebJson, web_dial_start, web_dial_input,
  web_dial_interrupt,
}

-- The `http.ResponseWriter`: the status and the headers, once they are written, and what was handed to
-- its `Write`; and whether `Start` returned an error.
pub record Writer : Type 0 where
  pub head : Option (ℕ × Headers)
  pub handed : List Bytes
  pub returned_error : Bool

abbrev pub fresh : Writer
fresh = record { head = none; handed = []; returned_error = false }

-- What a read of the request's body returns: bytes, alone or with io.EOF, or another error.
pub data RequestRead : Type 0 where
  got eof : Bytes → RequestRead
  failed : RequestRead

-- The browser's request.
pub record Request : Type 0 where
  pub url : String
  pub http_method : String
  pub host : String
  pub headers : Headers
  pub body : List RequestRead

-- `ParseForm` of net/http: the form that it finds, encoded, if it has an entry, and the reads of the body
-- that it leaves.
abbrev pub FormParser : Type 0
FormParser = Request → Option Bytes × List RequestRead

-- `chunkSize`
unfoldable pub chunk_size : ℕ
chunk_size = 124 * 1024

-- The reads of a `strings.Reader`; a number of them that is the length of the text is enough.
unfoldable pub read_text : ℕ → Bytes → List RequestRead
read_text zero bytes = eof [] ∷ []
read_text (suc n) [] = eof [] ∷ []
read_text (suc n) (x ∷ bytes) =
    got (take chunk_size (x ∷ bytes)) ∷ read_text n (drop chunk_size (x ∷ bytes))

-- A form that has an entry takes the place of the body.
unfoldable pub sent_reads : Option Bytes × List RequestRead → List RequestRead
sent_reads (none, reads) = reads
sent_reads (some form, reads) = read_text (length form) form

-- The header that the request gets.
unfoldable pub forwarded : Request → Request
forwarded r = record r { headers = set_header "X-Forwarded-Host" (r.host ∷ []) r.headers }

pub record ActionWrapper : Type 0 where
  pub action : String
  pub action_payload : Bytes

-- `smsg.CurrentSchema`
abbrev pub current_schema : String
current_schema = "202204"

-- The types of stream message that are kept.
unfoldable pub is_expected : StreamType → Bool
is_expected web_stream = true
is_expected web_stream_end = true
is_expected stream = true
is_expected _ = false

-- Whether a message is the last one.
unfoldable pub is_last : StreamType → Bool → Bool
is_last web_stream_end more = true
is_last stream more = not more
is_last _ more = false

-- `headerSet`
abbrev pub set_head : Option (ℕ × Headers) → ℕ → Headers → Option (ℕ × Headers)
set_head none status headers = some (status, headers)
set_head (some h) status headers = some h

module _ (b : Base64) (j : WebJson) where
  unfoldable pub write_response : WebOutputActionPayload → Writer → Writer
  write_response p w = record w {
    head = set_head w.head p.status_code p.headers;
    handed = w.handed ++ p.content ∷ [];
  }

  -- The body of the inner loop, up to the deletion.
  unfoldable pub process : StreamMessage → Writer → Writer × Bool
  process m w = elim (b.decode m.content) [
    | none ↦ (record w { returned_error = true }, false)
    | some bytes ↦ elim (j.unmarshal_output bytes) [
      | none ↦ (record w { returned_error = true }, false)
      | some p ↦ (write_response p w, not (is_last m.stream_type m.more))
    ]
  ]

  -- One stream message comes in.
  unfoldable pub receive_stream :
      StreamMessage → Reorder StreamMessage Writer → Reorder StreamMessage Writer
  receive_stream m q =
      let next = arrive number (λ w. true) process m q in
      if is_expected m.stream_type then next else q

  unfoldable pub receive_streams :
      List StreamMessage → Reorder StreamMessage Writer → Reorder StreamMessage Writer
  receive_streams [] q = q
  receive_streams (m ∷ ms) q = receive_streams ms (receive_stream m q)

  module _ (request_id endpoint : String) (headers : Headers) (http_method : String) where
    unfoldable pub input_action : ℕ → Bytes → Bool → ActionWrapper
    input_action n bytes more = record {
      action = web_dial_input;
      action_payload = j.marshal_input (record {
        body = bytes;
        endpoint = endpoint;
        headers = headers;
        http_method = http_method;
        sequence_number = n;
        request_id = request_id;
        more = more;
      });
    }

    unfoldable pub send_request_chunks : ℕ → List RequestRead → List ActionWrapper
    send_request_chunks n [] = []
    send_request_chunks n (failed ∷ reads) =
        record { action = web_dial_interrupt; action_payload = j.marshal_interrupt request_id } ∷ []
    send_request_chunks n (eof bytes ∷ reads) = input_action n bytes false ∷ []
    send_request_chunks n (got bytes ∷ reads) =
        input_action n bytes true ∷ send_request_chunks (suc n) reads

  -- What `Start` sends to the agent before it listens to stream messages.
  unfoldable pub start_actions : FormParser → String → Request → List ActionWrapper
  start_actions parse_form request_id request =
      let r = forwarded request in
      record {
        action = web_dial_start;
        action_payload =
            j.marshal_start
              (record { request_id = request_id; stream_message_version = current_schema });
      }
      ∷ send_request_chunks request_id r.url r.headers r.http_method 0 (sent_reads (parse_form r))
