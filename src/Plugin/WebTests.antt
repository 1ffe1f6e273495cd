-- ===== src/Plugin/WebTests.antt =====
-- Runs of the web action, and its theorem at concrete codecs, a request and a response.
use bzero.Shared.{
  ℕ, zero, suc, ◌≡◌, refl, false, true, none, some, String, str_append, str_eq, ok, List, [], ◌∷◌,
  length, arith, ap, ◌∙◌, sym, subst,
}
use bzero.Mrtap.Sample.{encode, decode, decode-encode}
use bzero.Plugin.Codec.{Codec, nat, through, both, list, text_codec, flag, write, read, read-write}
use bzero.Plugin.Stream.{StreamMessage, Base64}
use bzero.Plugin.InOrder.{Covers, pick, begin, has}
use bzero.Plugin.WebDial.{
  Headers, WebDialActionPayload, WebInputActionPayload, WebOutputActionPayload, WebJson, IsWebJson,
}
use bzero.Plugin.WebDial.Agent
use bzero.Plugin.WebDial.Http
use bzero.Plugin.WebDial.Http.{HttpRequest, BodyRead, responds, Http, build_http_request}
use bzero.Plugin.WebDial.Daemon
use bzero.Plugin.WebDial.Daemon.{
  Request, FormParser, forwarded, start_actions, receive_streams, fresh,
}
use bzero.Plugin.WebDial.Response.{
  parts, reaches_end, head_of, expected_only, expected_only-pump, kept,
}
use bzero.Plugin.WebDial.Request.{
  receive_all, sent_body, new_web_dial, receive_all-start_actions, start_actions_answered,
}

abbrev base64 : Base64
base64 = record { encode = encode; decode = decode }

abbrev headers_codec : Codec Headers
headers_codec = list (both text_codec (list text_codec))

abbrev start_codec : Codec WebDialActionPayload
start_codec =
    through (both text_codec text_codec)
      (λ (p : WebDialActionPayload). (p.request_id, p.stream_message_version))
      (λ x. record { request_id = x.0; stream_message_version = x.1 }) (λ p. refl)

abbrev input_codec : Codec WebInputActionPayload
input_codec =
    through
      (both (list nat)
        (both text_codec (both headers_codec (both text_codec (both nat (both text_codec flag))))))
      (λ (p : WebInputActionPayload). (
        p.body,
        (p.endpoint, (p.headers, (p.http_method, (p.sequence_number, (p.request_id, p.more))))),
      ))
      (λ x. record {
        body = x.0;
        endpoint = x.1.0;
        headers = x.1.1.0;
        http_method = x.1.1.1.0;
        sequence_number = x.1.1.1.1.0;
        request_id = x.1.1.1.1.1.0;
        more = x.1.1.1.1.1.1;
      })
      (λ p. refl)

abbrev output_codec : Codec WebOutputActionPayload
output_codec =
    through (both nat (both text_codec (both headers_codec (list nat))))
      (λ (p : WebOutputActionPayload). (p.status_code, (p.request_id, (p.headers, p.content))))
      (λ x. record { status_code = x.0; request_id = x.1.0; headers = x.1.1.0; content = x.1.1.1 })
      (λ p. refl)

abbrev web_json : WebJson
web_json = record {
  marshal_start = write start_codec;
  unmarshal_start = read start_codec;
  marshal_input = write input_codec;
  unmarshal_input = read input_codec;
  marshal_interrupt = write text_codec;
  marshal_output = write output_codec;
  unmarshal_output = read output_codec;
}

web_json-IsWebJson : IsWebJson web_json
web_json-IsWebJson = record {
  start_back = read-write start_codec;
  input_back = read-write input_codec;
  output_back = read-write output_codec;
}

abbrev body_reads : List BodyRead
body_reads = Http.got (1 ∷ 2 ∷ []) ∷ Http.failed (3 ∷ []) ∷ Http.eof (4 ∷ []) ∷ []

-- A URL is its text.
abbrev server : Http String
server = record {
  parse = λ s. some s;
  join = λ u path. str_append u path;
  print_url = λ u. u;
  host = λ u. u;
  query_unescape = λ s. some s;
  ends_with_slash = λ s. str_eq s "/";
  print = λ n. "80";
  canonical = λ name. name;
  can_request = λ method endpoint. true;
  perform = λ request. responds 200 [] body_reads;
}

abbrev request : Request
request = record {
  url = "/page";
  http_method = "POST";
  host = "local";
  headers = ("Accept", "text" ∷ "image" ∷ []) ∷ [];
  body = Daemon.got (5 ∷ []) ∷ Daemon.eof (6 ∷ []) ∷ [];
}

-- The body is a form.
abbrev parse_form : FormParser
parse_form r = (some (7 ∷ 8 ∷ []), [])

-- Of a name's values the last stays, and the text is joined to the host.
abbrev made : HttpRequest
made = record {
  endpoint = "web:80/page";
  http_method = "POST";
  headers =
      ("Accept", "image" ∷ []) ∷ ("X-Forwarded-Host", "local" ∷ []) ∷ ("Host", "web" ∷ []) ∷ [];
  body = 7 ∷ 8 ∷ [];
}

request-made :
    let q = forwarded request in
    build_http_request server "web" 80 q.url (sent_body (parse_form q)) q.http_method q.headers
    ≡ ok made
unfolding forwarded build_http_request Http.build_endpoint bzero.Plugin.WebDial.set_header
    Http.set_headers Http.set_values
request-made = refl

abbrev streamed : List StreamMessage
streamed =
    (receive_all base64 web_json server (start_actions base64 web_json parse_form "r" request)
      (new_web_dial "web" 80)).1

abbrev mixed : List ℕ
mixed = 2 ∷ 0 ∷ 1 ∷ 0 ∷ []

mixed-Covers : Covers mixed 3
unfolding has
mixed-Covers zero h = refl
mixed-Covers (suc zero) h = refl
mixed-Covers (suc (suc zero)) h = refl
mixed-Covers (suc (suc (suc k))) h = absurd (omega arith)

abbrev three_parts : List StreamMessage
three_parts = kept base64 web_json "202204" "r" 200 [] 0 body_reads

streamed-kept : expected_only streamed ≡ three_parts
streamed-kept =
    ap expected_only (
      receive_all-start_actions base64 web_json server parse_form "r" "web" 80 request made 200 []
        body_reads web_json-IsWebJson tt request-made refl)
    ∙ expected_only-pump base64 web_json "202204" "r" 200 [] 0 body_reads

all_expected : expected_only (pick mixed three_parts) ≡ pick mixed three_parts
unfolding pick bzero.Plugin.InOrder.at Daemon.is_expected Agent.send_last Agent.send_stream_message
    Agent.send_part
all_expected = refl

start_actions_answered_example :
    let w = receive_streams base64 web_json (pick mixed (expected_only streamed)) (begin fresh) in
    (made.http_method ≡ request.http_method)
    × (made.body ≡ 7 ∷ 8 ∷ [])
    × (w.state ≡ record {
      head = head_of none 200 [] (parts body_reads);
      handed = parts body_reads;
      returned_error = false;
    })
    × (w.stopped ≡ reaches_end body_reads)
start_actions_answered_example =
    start_actions_answered base64 web_json server parse_form "r" "web" 80 request made 200 []
      body_reads mixed (pick mixed (expected_only streamed)) decode-encode web_json-IsWebJson tt
      request-made refl
      (subst (λ l. expected_only (pick mixed l) ≡ pick mixed l) (sym streamed-kept) all_expected)
      (subst (λ l. Covers mixed (length l)) (sym streamed-kept) mixed-Covers)
