-- ===== src/Plugin/WebDial/Request.antt =====
-- The web action's request: what the daemon reads of a request's body and sends as MrTAP messages, against
-- the request that the agent makes (bctl/daemon and bctl/agent, plugin/web/actions/webdial/webdial.go).
use bzero.Shared.{
  ℕ, zero, suc, ◌≤◌, ◌≡◌, Option, some, take, drop, length-drop, take-append-drop, arith, ok, refl,
  ap, ◌∙◌, subst, true, false, none, String, List, [], ◌∷◌, ◌++◌, append_assoc, append-nil, length,
}
use bzero.Mrtap.Types.{Bytes}
use bzero.Plugin.InOrder.{Covers, pick, begin}
use bzero.Plugin.Stream.{StreamMessage, Base64, IsBase64}
use bzero.Plugin.WebDial.{Headers, WebInputActionPayload, WebJson, IsWebJson}
use bzero.Plugin.WebDial.Http.{
  BodyRead, HttpRequest, Http, responds, build_http_request, build_http_request-kept,
}
use bzero.Plugin.WebDial.Agent.{
  WebDial, Answer, returns, receive, handle_request, handle_new_http_request, pump,
}
use bzero.Plugin.WebDial.Daemon.{
  ActionWrapper, RequestRead, fresh, got, eof, failed, input_action, send_request_chunks, Request,
  FormParser, chunk_size, read_text, sent_reads, forwarded, start_actions, current_schema,
  receive_streams,
}
use bzero.Plugin.WebDial.Response.{
  parts, reaches_end, head_of, expected_only, receive_streams-parts,
}

-- What `New` makes.
unfoldable pub new_web_dial : String → ℕ → WebDial
new_web_dial remote_host remote_port = record {
  request_id = "";
  stream_message_version = "";
  request_body = [];
  remote_host = remote_host;
  remote_port = remote_port;
}

-- The body, as far as it was read.
abbrev pub whole : List RequestRead → Bytes
whole [] = []
whole (failed ∷ reads) = []
whole (eof bytes ∷ reads) = bytes
whole (got bytes ∷ reads) = bytes ++ whole reads

-- The body was read to its end.
abbrev pub IsRead : List RequestRead → Type 0
IsRead [] = ⊥
IsRead (failed ∷ reads) = ⊥
IsRead (eof bytes ∷ reads) = Unit
IsRead (got bytes ∷ reads) = IsRead reads

chunk_size_positive : 1 ≤ chunk_size
unfolding chunk_size
chunk_size_positive = omega arith

whole-read_text : (n : ℕ) (bytes : Bytes) → length bytes ≤ n → whole (read_text n bytes) ≡ bytes
unfolding read_text
whole-read_text zero [] h = refl
whole-read_text zero (x ∷ bytes) h = absurd (omega arith)
whole-read_text (suc n) [] h = refl
whole-read_text (suc n) (x ∷ bytes) h =
    ap (λ rest. take chunk_size (x ∷ bytes) ++ rest)
      (whole-read_text n (drop chunk_size (x ∷ bytes))
        (omega (arith, length-drop chunk_size (x ∷ bytes), chunk_size_positive)))
    ∙ take-append-drop chunk_size (x ∷ bytes)

read_text-IsRead : (n : ℕ) (bytes : Bytes) → IsRead (read_text n bytes)
unfolding read_text
read_text-IsRead zero bytes = tt
read_text-IsRead (suc n) [] = tt
read_text-IsRead (suc n) (x ∷ bytes) = read_text-IsRead n (drop chunk_size (x ∷ bytes))

-- What is sent of a request: its form, if it has one, and what is left of its body otherwise.
abbrev pub sent_body : Option Bytes × List RequestRead → Bytes
sent_body (none, reads) = whole reads
sent_body (some form, reads) = form

-- There is a form, or the body is read to its end.
abbrev pub IsSent : Option Bytes × List RequestRead → Type 0
IsSent (none, reads) = IsRead reads
IsSent (some form, reads) = Unit

sent_reads-whole :
    (form : Option Bytes × List RequestRead)
    → IsSent form
    → IsRead (sent_reads form) × (whole (sent_reads form) ≡ sent_body form)
unfolding sent_reads
sent_reads-whole (none, reads) h = (h, refl)
sent_reads-whole (some form, reads) h =
    (read_text-IsRead (length form) form, whole-read_text (length form) form (omega arith))

module _ {U : Type 0} (b : Base64) (j : WebJson) (http : Http U) where
  abbrev and_then :
      (WebDial → WebDial × List StreamMessage)
      → Answer × WebDial × List StreamMessage
      → WebDial × List StreamMessage
  and_then next r = let after = next r.1 in (after.0, r.2 ++ after.1)

  -- The agent receives actions one after the other; its stream messages are collected.
  unfoldable pub receive_all : List ActionWrapper → WebDial → WebDial × List StreamMessage
  receive_all [] w = (w, [])
  receive_all (a ∷ rest) w =
      and_then (receive_all rest) (receive b j http a.action a.action_payload w)

  handle_new_http_request-responds :
      (w : WebDial) (p : WebInputActionPayload) (r : HttpRequest) (status : ℕ) (header : Headers)
      (reads : List BodyRead)
      → build_http_request http w.remote_host w.remote_port p.endpoint w.request_body p.http_method
          p.headers
        ≡ ok r
      → http.perform r ≡ responds status header reads
      → handle_new_http_request b j http w p
        ≡ (returns [], w, pump b j w.stream_message_version w.request_id status header 0 reads)
  unfolding handle_new_http_request
  handle_new_http_request-responds w p r status header reads built e = ground (arith, built, e)

  module _ (request_id endpoint : String) (headers : Headers) (http_method : String)
      (json : IsWebJson j) where
    receive_part :
        (n : ℕ) (bytes : Bytes) (w : WebDial)
        → let a = input_action b j request_id endpoint headers http_method n bytes true in
          receive b j http a.action a.action_payload w
          ≡ (returns [], record w { request_body = w.request_body ++ bytes }, [])
    unfolding receive handle_request input_action
    receive_part n bytes w = rw (json.input_back _) refl

    receive_last :
        (n : ℕ) (bytes : Bytes) (w : WebDial) (r : HttpRequest) (status : ℕ) (header : Headers)
        (reads : List BodyRead)
        → build_http_request http w.remote_host w.remote_port endpoint
            (w.request_body ++ bytes)
            http_method
            headers
          ≡ ok r
        → http.perform r ≡ responds status header reads
        → let a = input_action b j request_id endpoint headers http_method n bytes false in
          receive b j http a.action a.action_payload w ≡ (
            returns [],
            record w { request_body = w.request_body ++ bytes },
            pump b j w.stream_message_version w.request_id status header 0 reads,
          )
    unfolding receive handle_request input_action
    receive_last n bytes w r status header reads built e = rw (json.input_back _) (
        handle_new_http_request-responds (record w { request_body = w.request_body ++ bytes }) _ r
          status header reads built e)

    receive_all-chunks :
        (n : ℕ) (body : List RequestRead) (w : WebDial) (r : HttpRequest) (status : ℕ)
        (header : Headers) (reads : List BodyRead)
        → IsRead body
        → build_http_request http w.remote_host w.remote_port endpoint
            (w.request_body ++ whole body)
            http_method
            headers
          ≡ ok r
        → http.perform r ≡ responds status header reads
        → receive_all (send_request_chunks b j request_id endpoint headers http_method n body) w ≡ (
          record w { request_body = w.request_body ++ whole body },
          pump b j w.stream_message_version w.request_id status header 0 reads,
        )
    unfolding receive_all send_request_chunks
    receive_all-chunks n [] w r status header reads h built e = elim h [ ]
    receive_all-chunks n (failed ∷ body) w r status header reads h built e = elim h [ ]
    receive_all-chunks n (eof bytes ∷ body) w r status header reads h built e =
        rw (receive_last n bytes w r status header reads built e) (simp append-nil)
    receive_all-chunks n (got bytes ∷ body) w r status header reads h built e =
        rw (receive_part n bytes w) (
          receive_all-chunks (suc n) body (record w { request_body = w.request_body ++ bytes }) r
            status header reads h (rw (append_assoc w.request_body bytes (whole body)) built) e
          ∙ ap
              (λ whole_body. (
                record w { request_body = whole_body },
                pump b j w.stream_message_version w.request_id status header 0 reads,
              ))
              (append_assoc w.request_body bytes (whole body)))

  pub receive_all-start_actions :
      (parse_form : FormParser) (request_id remote_host : String) (remote_port : ℕ)
      (request : Request) (r : HttpRequest) (status : ℕ) (header : Headers) (reads : List BodyRead)
      → IsWebJson j
      → let q = forwarded request in
        let form = parse_form q in
        IsSent form
        → build_http_request http remote_host remote_port q.url
            (sent_body form)
            q.http_method
            q.headers
          ≡ ok r
        → http.perform r ≡ responds status header reads
        → (receive_all
            (start_actions b j parse_form request_id request)
            (new_web_dial remote_host remote_port)).1
          ≡ pump b j current_schema request_id status header 0 reads
  unfolding receive_all start_actions receive new_web_dial
  receive_all-start_actions parse_form request_id remote_host remote_port request r status header
        reads json h built e =
      let q = forwarded request in
      let sent = sent_reads-whole (parse_form q) h in
      rw (json.start_back _) (
        ap (λ p. p.1)
          (receive_all-chunks request_id q.url q.headers q.http_method json 0
            (sent_reads (parse_form q))
            (record {
              request_id = request_id;
              stream_message_version = current_schema;
              request_body = [];
              remote_host = remote_host;
              remote_port = remote_port;
            })
            r status header reads sent.0 (rw (sent.1) built) e))

-- A request that has a form, or whose body the daemon reads to its end, is built by the agent of the
-- request's URL, its method, its headers with the forwarded host, and its form if it has one, else all
-- of its body; the method and the body are those of the request that is made. Where the server
-- responds to it, and the agent's stream messages of the types that the daemon keeps have all
-- come, in whatever order, and whatever else has come, the daemon wrote the server's status and headers
-- once and was handed each part of the server's body that the agent read, in order, and returned exactly
-- if the agent came to the body's end.
pub start_actions_answered :
    {U : Type 0} (b : Base64) (j : WebJson) (http : Http U) (parse_form : FormParser)
    (request_id remote_host : String) (remote_port : ℕ) (request : Request) (r : HttpRequest)
    (status : ℕ) (header : Headers) (reads : List BodyRead) (order : List ℕ)
    (came : List StreamMessage)
    → IsBase64 b
    → IsWebJson j
    → let q = forwarded request in
      let form = parse_form q in
      IsSent form
      → build_http_request http remote_host remote_port q.url
          (sent_body form)
          q.http_method
          q.headers
        ≡ ok r
      → http.perform r ≡ responds status header reads
      → let actions = start_actions b j parse_form request_id request in
        let sent =
          expected_only (receive_all b j http actions (new_web_dial remote_host remote_port)).1 in
        expected_only came ≡ pick order sent
        → Covers order (length sent)
        → let w = receive_streams b j came (begin fresh) in
          (r.http_method ≡ request.http_method)
          × (r.body ≡ sent_body form)
          × (w.state ≡ record {
            head = head_of none status header (parts reads);
            handed = parts reads;
            returned_error = false;
          })
          × (w.stopped ≡ reaches_end reads)
unfolding forwarded
start_actions_answered b j http parse_form request_id remote_host remote_port request r status
      header reads order came sound json h built e c cov =
    let streamed =
      receive_all-start_actions b j http parse_form request_id remote_host remote_port request r
        status header reads json h built e in
    let kept = build_http_request-kept http remote_host remote_port _ _ _ _ r built in
    let written =
      receive_streams-parts b j current_schema request_id status header reads order came sound json
        (c ∙ ap (λ ms. pick order (expected_only ms)) streamed)
        (subst (λ ms. Covers order (length (expected_only ms))) streamed cov) in
    (kept.0, kept.1, written.0, written.1)
