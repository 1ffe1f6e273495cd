-- ===== src/Plugin/WebDial/Response.antt =====
-- The web action's response: what the agent reads of a response's body and streams, against what the
-- daemon writes to the browser (bctl/agent and bctl/daemon, plugin/web/actions/webdial/webdial.go).
use bzero.Shared.{
  ℕ, suc, ◌≡◌, refl, sym, ap, ◌∙◌, Bool, true, false, not, Option, none, some, String, List, [],
  ◌∷◌, ◌++◌, append_assoc, append-nil, if◌then◌else◌, inl, inr, length, arith, Bool-cases,
  not_cancel,
}
use bzero.Mrtap.Types.{Bytes}
use bzero.Plugin.InOrder.{
  Reorder, Numbered, Covers, pick, begin, arrive, arrive_all, deliver, arrive_all-deliver,
  deliver_on, deliver_off,
}
use bzero.Plugin.Stream.{StreamMessage, Base64, IsBase64, number}
use bzero.Plugin.WebDial.{Headers, WebJson, IsWebJson}
use bzero.Plugin.WebDial.Http.{BodyRead, got, eof, failed, dying}
use bzero.Plugin.WebDial.Agent.{send_stream_message, send_part, send_error, send_last, pump, output}
use bzero.Plugin.WebDial.Daemon.{
  Writer, fresh, is_expected, is_last, write_response, process, receive_stream, receive_streams,
  set_head,
}

-- The parts of the body, in the order of the reads.
abbrev pub parts : List BodyRead → List Bytes
parts [] = []
parts (dying ∷ reads) = []
parts (eof bytes ∷ reads) = bytes ∷ []
parts (failed bytes ∷ reads) = bytes ∷ parts reads
parts (got bytes ∷ reads) = bytes ∷ parts reads

abbrev pub reaches_end : List BodyRead → Bool
reaches_end [] = false
reaches_end (dying ∷ reads) = false
reaches_end (eof bytes ∷ reads) = true
reaches_end (failed bytes ∷ reads) = reaches_end reads
reaches_end (got bytes ∷ reads) = reaches_end reads

-- The head of a response of which some part was written.
abbrev pub head_of : Option (ℕ × Headers) → ℕ → Headers → List Bytes → Option (ℕ × Headers)
head_of head status header [] = head
head_of head status header (p ∷ ps) = set_head head status header

-- The messages of a type that the daemon keeps.
abbrev pub expected_only : List StreamMessage → List StreamMessage
expected_only [] = []
expected_only (m ∷ ms) =
    let rest = expected_only ms in if is_expected m.stream_type then m ∷ rest else rest

module _ (b : Base64) (j : WebJson) where
  receive_streams-arrive_all :
      (ms : List StreamMessage) (q : Reorder StreamMessage Writer)
      → receive_streams b j ms q ≡ arrive_all number (λ w. true) (process b j) (expected_only ms) q
  unfolding receive_streams receive_stream arrive_all
  receive_streams-arrive_all [] q = refl
  receive_streams-arrive_all (m ∷ ms) q = elim (Bool-cases (is_expected m.stream_type)) [
    | inl keep ↦
        rw keep (receive_streams-arrive_all ms (arrive number (λ w. true) (process b j) m q))
    | inr drop ↦ rw drop (receive_streams-arrive_all ms q)
  ]

  module _ (version request_id : String) (status : ℕ) (header : Headers) where
    module _ (n : ℕ) (bytes : Bytes) where
      part-expected :
          is_expected (send_part b j version request_id status header n bytes).stream_type ≡ true
      unfolding is_expected send_part send_stream_message
      part-expected = grind arith

      error-dropped :
          is_expected (send_error b j version request_id status header n bytes).stream_type ≡ false
      unfolding is_expected send_error send_stream_message
      error-dropped = grind arith

      last-expected :
          is_expected (send_last b j version request_id status header n bytes).stream_type ≡ true
      unfolding is_expected send_last send_stream_message
      last-expected = grind arith

      module _ (sound : IsBase64 b) (json : IsWebJson j) (w : Writer) where
        process_part :
            process b j (send_part b j version request_id status header n bytes) w
            ≡ (write_response b j (output b j status request_id header bytes) w, true)
        unfolding process send_part send_stream_message is_last
        process_part = grind (arith, sound, json.output_back)

        process_last :
            process b j (send_last b j version request_id status header n bytes) w
            ≡ (write_response b j (output b j status request_id header bytes) w, false)
        unfolding process send_last send_stream_message is_last
        process_last = grind (arith, sound, json.output_back)

    -- What is kept of the agent's messages: a part for each read.
    abbrev pub kept : ℕ → List BodyRead → List StreamMessage
    kept n [] = []
    kept n (dying ∷ reads) = []
    kept n (eof bytes ∷ reads) = send_last b j version request_id status header n bytes ∷ []
    kept n (failed bytes ∷ reads) =
        send_part b j version request_id status header n bytes ∷ kept (suc n) reads
    kept n (got bytes ∷ reads) =
        send_part b j version request_id status header n bytes ∷ kept (suc n) reads

    pub expected_only-pump :
        (n : ℕ) (reads : List BodyRead)
        → expected_only (pump b j version request_id status header n reads) ≡ kept n reads
    unfolding pump
    expected_only-pump n [] = refl
    expected_only-pump n (dying ∷ reads) = refl
    expected_only-pump n (eof bytes ∷ reads) = rw (last-expected n bytes) refl
    expected_only-pump n (failed bytes ∷ reads) = rw (error-dropped n bytes) (
        rw (part-expected n bytes) (
          ap (◌∷◌ (send_part b j version request_id status header n bytes))
            (expected_only-pump (suc n) reads)))
    expected_only-pump n (got bytes ∷ reads) = rw (part-expected n bytes) (
        ap (◌∷◌ (send_part b j version request_id status header n bytes))
          (expected_only-pump (suc n) reads))

    pub kept-Numbered : (n : ℕ) (reads : List BodyRead) → Numbered number n (kept n reads)
    unfolding send_part send_last send_stream_message
    kept-Numbered n [] = tt
    kept-Numbered n (dying ∷ reads) = tt
    kept-Numbered n (eof bytes ∷ reads) = (refl, tt)
    kept-Numbered n (failed bytes ∷ reads) = (refl, kept-Numbered (suc n) reads)
    kept-Numbered n (got bytes ∷ reads) = (refl, kept-Numbered (suc n) reads)

    -- The writer after some parts.
    abbrev write_parts : List Bytes → Writer → Writer
    write_parts ps w = record w { head = head_of w.head status header ps; handed = w.handed ++ ps }

    set_head_again :
        (h : Option (ℕ × Headers)) (ps : List Bytes)
        → head_of (set_head h status header) status header ps ≡ set_head h status header
    set_head_again h [] = refl
    set_head_again none (p ∷ ps) = refl
    set_head_again (some h) (p ∷ ps) = refl

    write_part :
        (bytes : Bytes) (ps : List Bytes) (w : Writer)
        → write_parts ps (write_response b j (output b j status request_id header bytes) w)
          ≡ write_parts (bytes ∷ ps) w
    unfolding write_response
    write_part bytes ps w = simp (set_head_again w.head ps, append_assoc w.handed (bytes ∷ []) ps)

    module _ (sound : IsBase64 b) (json : IsWebJson j) where
      deliver-kept :
          (n : ℕ) (reads : List BodyRead) (w : Writer)
          → deliver (process b j) (kept n reads) w
            ≡ (write_parts (parts reads) w, not (reaches_end reads))
      unfolding deliver
      deliver-kept n [] w = simp append-nil
      deliver-kept n (dying ∷ reads) w = simp append-nil
      deliver-kept n (eof bytes ∷ reads) w =
          deliver_off (process b j) _ [] w _ (process_last n bytes sound json w)
          ∙ ap (λ v. (v, false)) (sym nothing_after ∙ write_part bytes [] w)
        where
          nothing_after :
              write_parts [] (write_response b j (output b j status request_id header bytes) w)
              ≡ write_response b j (output b j status request_id header bytes) w
          nothing_after = simp append-nil
      deliver-kept n (failed bytes ∷ reads) w =
          deliver_on (process b j) _ (kept (suc n) reads) w _ (process_part n bytes sound json w)
          ∙ deliver-kept (suc n) reads _
          ∙ ap (λ v. (v, not (reaches_end reads))) (write_part bytes (parts reads) w)
      deliver-kept n (got bytes ∷ reads) w =
          deliver_on (process b j) _ (kept (suc n) reads) w _ (process_part n bytes sound json w)
          ∙ deliver-kept (suc n) reads _
          ∙ ap (λ v. (v, not (reaches_end reads))) (write_part bytes (parts reads) w)

-- What the loop was left with, and whether it goes on.
abbrev left_with : Reorder StreamMessage Writer → Writer × Bool
left_with q = (q.state, not q.stopped)

module _ (b : Base64) (j : WebJson) (version request_id : String) (status : ℕ)
    (header : Headers) where
  receive_streams-kept :
      (reads : List BodyRead) (order : List ℕ) (came : List StreamMessage)
      → IsBase64 b
      → IsWebJson j
      → expected_only came ≡ pick order (kept b j version request_id status header 0 reads)
      → Covers order (length (kept b j version request_id status header 0 reads))
      → left_with (receive_streams b j came (begin fresh)) ≡ (
        write_parts b j version request_id status header (parts reads) fresh,
        not (reaches_end reads),
      )
  receive_streams-kept reads order came sound json e cov =
      let sent = kept b j version request_id status header 0 reads in
      ap left_with (
        receive_streams-arrive_all b j came (begin fresh)
        ∙ ap (λ ms. arrive_all number (λ w. true) (process b j) ms (begin fresh)) e)
      ∙ arrive_all-deliver number (λ w. true) (process b j) sent fresh order (λ m w h. refl) refl
          (kept-Numbered b j version request_id status header 0 reads) cov
      ∙ deliver-kept b j version request_id status header sound json 0 reads fresh

-- Where the agent's stream messages of the types that the daemon keeps have all come, in whatever order, and
-- whatever else has come, the daemon wrote the status and the headers of the response once, before the first
-- part, and was handed each part of the body that the agent read, in order; and it returned, without an
-- error, exactly if the agent came to the body's end.
pub receive_streams-parts :
    (b : Base64) (j : WebJson) (version request_id : String) (status : ℕ) (header : Headers)
    (reads : List BodyRead) (order : List ℕ) (came : List StreamMessage)
    → IsBase64 b
    → IsWebJson j
    → let sent = expected_only (pump b j version request_id status header 0 reads) in
      expected_only came ≡ pick order sent
      → Covers order (length sent)
      → let r = receive_streams b j came (begin fresh) in
        (r.state ≡ record {
          head = head_of none status header (parts reads);
          handed = parts reads;
          returned_error = false;
        })
        × (r.stopped ≡ reaches_end reads)
receive_streams-parts b j version request_id status header reads order came sound json e cov =
    let same = expected_only-pump b j version request_id status header 0 reads in
    let left =
      receive_streams-kept b j version request_id status header reads order came sound json
        (e ∙ ap (pick order) same) (rw (← same) cov) in
    (ap (λ p. p.0) left, not_cancel _ _ (ap (λ p. p.1) left))
