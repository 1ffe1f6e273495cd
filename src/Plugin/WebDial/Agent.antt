-- ===== src/Plugin/WebDial/Agent.antt =====
-- bctl/agent/plugin/web/actions/webdial/webdial.go: the agent's end, which puts the parts of a request's
-- body together, sends the request, and streams the response. A request is
-- built and performed in `Http`.
use bzero.Shared.{
  ℕ, suc, Bool, true, false, String, List, [], ◌∷◌, ◌++◌, none, some, if◌then◌else◌, str_eq, ok,
  err, panic,
}
use bzero.Mrtap.Types.{Bytes}
use bzero.Plugin.Stream.{
  StreamType, StreamMessage, Base64, is_legacy, web_error, web_stream, web_stream_end, stream,
  error,
}
use bzero.Plugin.WebDial.Http.{
  BodyRead, got, eof, failed, dying, HttpAnswer, no_response, responds, Http, build_http_request,
}
use bzero.Plugin.WebDial.{
  Headers, WebInputActionPayload, WebOutputActionPayload, WebJson, web_dial_start, web_dial_input,
  web_dial_interrupt,
}

pub record WebDial : Type 0 where
  pub request_id : String
  pub stream_message_version : String
  pub request_body : Bytes
  pub remote_host : String
  pub remote_port : ℕ

-- What `Receive` comes to: it returns a payload or an error, panics, or waits forever.
pub data Answer : Type 0 where
  returns : Bytes → Answer
  malformed_start malformed_input unhandled_action bad_request bad_response : Answer
  panics hangs : Answer

-- `http.StatusBadGateway`
abbrev pub bad_gateway : ℕ
bad_gateway = 502

module _ (b : Base64) (j : WebJson) where
  unfoldable pub send_stream_message :
      String → ℕ → StreamType → Bool → WebOutputActionPayload → StreamMessage
  send_stream_message version n t more payload = record {
    request_id = "";
    schema_version = version;
    sequence_number = n;
    action = "dial";
    stream_type = t;
    more = more;
    log_id = "";
    content = b.encode (j.marshal_output payload);
  }

  abbrev pub output : ℕ → String → Headers → Bytes → WebOutputActionPayload
  output status request_id headers content = record {
    status_code = status;
    request_id = request_id;
    headers = headers;
    content = content;
  }

  module _ (version request_id : String) (status : ℕ) (header : Headers) where
    unfoldable pub send_part : ℕ → Bytes → StreamMessage
    send_part n bytes =
        send_stream_message version n (if is_legacy version then web_stream else stream) true
          (output status request_id header bytes)

    unfoldable pub send_error : ℕ → Bytes → StreamMessage
    send_error n bytes =
        send_stream_message version n (if is_legacy version then web_error else error) false
          (output bad_gateway request_id [] bytes)

    unfoldable pub send_last : ℕ → Bytes → StreamMessage
    send_last n bytes =
        send_stream_message version n (if is_legacy version then web_stream_end else stream) false
          (output status request_id header bytes)

    -- The goroutine that reads the response's body. It does not quit at an error that is not io.EOF.
    unfoldable pub pump : ℕ → List BodyRead → List StreamMessage
    pump n [] = []
    pump n (dying ∷ reads) = []
    pump n (eof bytes ∷ reads) = send_last n bytes ∷ []
    pump n (failed bytes ∷ reads) = send_error n bytes ∷ send_part n bytes ∷ pump (suc n) reads
    pump n (got bytes ∷ reads) = send_part n bytes ∷ pump (suc n) reads

  module _ {U : Type 0} (http : Http U) where
    abbrev answer :
        WebDial → WebInputActionPayload → HttpAnswer → Answer × WebDial × List StreamMessage
    answer w p no_response = (
      bad_response,
      w,
      send_stream_message w.stream_message_version 0
            (if is_legacy w.stream_message_version then web_error else error) false
            (output bad_gateway p.request_id [] [])
          ∷ [],
    )
    answer w p (responds status header reads) =
        (returns [], w, pump w.stream_message_version w.request_id status header 0 reads)

    unfoldable pub handle_new_http_request :
        WebDial → WebInputActionPayload → Answer × WebDial × List StreamMessage
    handle_new_http_request w p =
        let built =
          build_http_request http w.remote_host w.remote_port p.endpoint w.request_body
            p.http_method p.headers in
        elim built [
          | err e ↦ (bad_request, w, [])
          | panic ↦ (panics, w, [])
          | ok r ↦ answer w p (http.perform r)
        ]

    unfoldable pub handle_request :
        WebDial → WebInputActionPayload → Answer × WebDial × List StreamMessage
    handle_request w p =
        let appended = record w { request_body = w.request_body ++ p.body } in
        if p.more then (returns [], appended, []) else handle_new_http_request appended p

    -- The channel of `WebDialInterrupt` is never made, and a send on a nil channel waits forever.
    unfoldable pub receive : String → Bytes → WebDial → Answer × WebDial × List StreamMessage
    receive action payload w =
        if str_eq action web_dial_start
        then elim (j.unmarshal_start payload) [
          | none ↦ (malformed_start, w, [])
          | some p ↦ (
            returns [],
            record w {
              request_id = p.request_id;
              stream_message_version = p.stream_message_version;
            },
            [],
          )
        ]
        else if str_eq action web_dial_input
        then elim (j.unmarshal_input payload) [
          | none ↦ (malformed_input, w, [])
          | some p ↦ handle_request w p
        ]
        else if str_eq action web_dial_interrupt
        then (hangs, w, [])
        else (unhandled_action, w, [])
