-- ===== src/SignalR/Tracker.antt =====
-- The messages that were sent and not answered yet
-- (bzerolib/connection/messenger/signalr/invocation.go and signalr.go).
use bzero.Shared.{
  ℕ, suc, ◌<◌, ◌≡◌, refl, ap, ◌∙◌, true, false, Option, none, some, String, List, [], ◌∷◌, str_eq,
  eq_iff, eq_refl, arith, Bool, subst, Outcome, ok, err, panic,
}
use bzero.Mrtap.Types.{Bytes}
use bzero.Channel.Types.{AgentMessage}
use bzero.SignalR.{
  SignalrMessage, ResultMessage, SignalrError, server_error, CompletionMessage, InvocationTracker,
  Signalr, Json, invocation, lookup, delete, take_tracked, track, process_completion_message,
  reported, send, send_failed,
}

-- The ids come from the counter, each from a number below `n`.
abbrev pub AreBelow : Json → ℕ → List (String × SignalrMessage) → Type 0
AreBelow j n [] = Unit
AreBelow j n ((id, m) ∷ ms) = ((k : ℕ) × (k < n) × (id ≡ j.print k)) × AreBelow j n ms

-- `fmt.Sprint` gives different numbers different texts.
abbrev pub IsPrint : Json → Type 0
IsPrint j = (k n : ℕ) → j.print k ≡ j.print n → k ≡ n

abbrev pub left_with : List (String × SignalrMessage) → ℕ → InvocationTracker
left_with ms n = record { tracked_messages = ms; counter = n }

take_tracked_head :
    (id : String) (m : SignalrMessage) (ms : List (String × SignalrMessage)) (n : ℕ)
    → take_tracked id (left_with ((id, m) ∷ ms) n) ≡ (left_with (delete id ms) n, some m)
unfolding take_tracked lookup delete
take_tracked_head id m ms n = ground (arith, eq_refl id)

module _ (j : Json) (print : IsPrint j) where
  not_next :
      (n : ℕ) (id : String) → ((k : ℕ) × (k < n) × (id ≡ j.print k)) → str_eq id (j.print n) ≡ false
  not_next n id b = ground (arith, eq_iff id (j.print n), print b.0 n, b.1, b.2)

  lookup_next :
      (n : ℕ) (ms : List (String × SignalrMessage)) → AreBelow j n ms → lookup (j.print n) ms ≡ none
  unfolding lookup
  lookup_next n [] h = refl
  lookup_next n ((id, m) ∷ ms) h = rw (not_next n id h.0) (lookup_next n ms h.1)

  delete_next :
      (n : ℕ) (ms : List (String × SignalrMessage)) → AreBelow j n ms → delete (j.print n) ms ≡ ms
  unfolding delete
  delete_next n [] h = refl
  delete_next n ((id, m) ∷ ms) h = rw (not_next n id h.0) (ap (◌∷◌ (id, m)) (delete_next n ms h.1))

  -- A message that is tracked and matched leaves the others as they were.
  take_tracked-track :
      (m : SignalrMessage) (t : InvocationTracker)
      → AreBelow j t.counter t.tracked_messages
      → let r = track j m t in
        take_tracked (r.1).invocation_id r.0 ≡ (record t { counter = suc t.counter }, some r.1)
  unfolding track
  take_tracked-track m t h =
      let id = j.print t.counter in
      let others = delete id t.tracked_messages in
      let sent : SignalrMessage = record m { invocation_id = id } in
      take_tracked_head id sent others (suc t.counter)
      ∙ ap (λ ms. (left_with ms (suc t.counter), some sent))
          (ap (delete id) (delete_next t.counter t.tracked_messages h)
            ∙ delete_next t.counter t.tracked_messages h)

-- The message that `Send` makes of an agent's message.
abbrev pub wrapped : String → Bytes → SignalrMessage
wrapped target payload = record {
  message_type = invocation;
  target = target;
  arguments = payload ∷ [];
  invocation_id = "";
}

-- The message is written and tracked.
pub record IsWritten (j : Json) (select : AgentMessage → Option String) (message : AgentMessage)
    (target : String) (payload bytes : Bytes) (s : Signalr) : Type 0 where
  pub chosen : select message ≡ some target
  pub payload_of : j.marshal_agent_message message ≡ some payload
  pub bytes_of : j.marshal_message (track j (wrapped target payload) s.invocator).1 ≡ some bytes

module _ (j : Json) (select : AgentMessage → Option String) (message : AgentMessage)
    (target : String) (payload bytes : Bytes) (s : Signalr) where
  send_taken :
      IsWritten j select message target payload bytes s
      → (send j select true message s).1
        ≡ record s { invocator = (track j (wrapped target payload) s.invocator).0 }
  unfolding send
  send_taken h = ground (arith, h.chosen, h.payload_of, h.bytes_of)

  send_refused :
      IsWritten j select message target payload bytes s
      → send j select false message s ≡ (
        err send_failed,
        record s {
          invocator =
              (take_tracked
                ((track j (wrapped target payload) s.invocator).1).invocation_id
                (track j (wrapped target payload) s.invocator).0).0;
        },
      )
  unfolding send
  send_refused h = ground (arith, h.chosen, h.payload_of, h.bytes_of)

completed :
    (j : Json) (bytes : Bytes) (c : CompletionMessage) (id : String) (s : Signalr)
    (t : InvocationTracker) (m : SignalrMessage)
    → j.unmarshal_completion bytes ≡ some c
    → c.invocation_id ≡ some id
    → take_tracked id s.invocator ≡ (t, some m)
    → process_completion_message j bytes s ≡ (reported j m c, record s { invocator = t })
unfolding process_completion_message
completed j bytes c id s t m read named found = ground (arith, read, named, found)

-- What a completion says of a message with a target: its own error goes first; then that of its result,
-- whose text must be there.
pub data Says : String → CompletionMessage → Outcome SignalrError Unit → Type 0 where
  own_error :
      (target text : String) (c : CompletionMessage)
      → c.error ≡ some text
      → Says target c (err (server_error target text))
  no_result :
      (target : String) (c : CompletionMessage)
      → c.error ≡ none
      → c.completion_result ≡ none
      → Says target c (ok tt)
  good_result :
      (target : String) (c : CompletionMessage) (r : ResultMessage)
      → c.error ≡ none
      → c.completion_result ≡ some r
      → r.error ≡ false
      → Says target c (ok tt)
  bad_result :
      (target text : String) (c : CompletionMessage) (r : ResultMessage)
      → c.error ≡ none
      → c.completion_result ≡ some r
      → r.error ≡ true
      → r.error_message ≡ some text
      → Says target c (err (server_error target text))
  no_text :
      (target : String) (c : CompletionMessage) (r : ResultMessage)
      → c.error ≡ none
      → c.completion_result ≡ some r
      → r.error ≡ true
      → r.error_message ≡ none
      → Says target c panic

reported-Says_result :
    (j : Json) (m : SignalrMessage) (c : CompletionMessage) (r : ResultMessage) (b : Bool)
    (text : Option String)
    → c.error ≡ none
    → c.completion_result ≡ some r
    → r.error ≡ b
    → r.error_message ≡ text
    → Says m.target c (reported j m c)
reported-Says_result j m c r false text e f g h =
    subst (Says m.target c) (ground (arith, e, f, g)) (good_result m.target c r e f g)
reported-Says_result j m c r true none e f g h =
    subst (Says m.target c) (ground (arith, e, f, g, h)) (no_text m.target c r e f g h)
reported-Says_result j m c r true (some t) e f g h =
    subst (Says m.target c) (ground (arith, e, f, g, h)) (bad_result m.target t c r e f g h)

reported-Says :
    (j : Json) (m : SignalrMessage) (c : CompletionMessage) (own : Option String)
    (result : Option ResultMessage)
    → c.error ≡ own
    → c.completion_result ≡ result
    → Says m.target c (reported j m c)
reported-Says j m c (some text) result e f =
    subst (Says m.target c) (ground (arith, e)) (own_error m.target text c e)
reported-Says j m c none none e f =
    subst (Says m.target c) (ground (arith, e, f)) (no_result m.target c e f)
reported-Says j m c none (some r) e f =
    reported-Says_result j m c r r.error r.error_message e f refl refl

-- Where the ids of the messages that wait are below the counter, a message that is written and sent, and whose
-- completion comes next, leaves the messages that wait as they were. The completion's own error is returned,
-- with the message's target; else that of a result that is an error, or a panic if it has no text;
-- else none. A message that the transport does not take leaves them as they were too.
pub send-process_completion_message :
    (j : Json) (select : AgentMessage → Option String) (message : AgentMessage) (target : String)
    (payload written : Bytes) (s : Signalr) (bytes : Bytes) (c : CompletionMessage)
    → IsPrint j
    → AreBelow j s.invocator.counter s.invocator.tracked_messages
    → IsWritten j select message target payload written s
    → j.unmarshal_completion bytes ≡ some c
    → c.invocation_id ≡ some (j.print s.invocator.counter)
    → let settled = record s {
      invocator = left_with s.invocator.tracked_messages (suc s.invocator.counter);
    } in
      ((o : Outcome SignalrError Unit) × (process_completion_message j bytes
            (send j select true message s).1
          ≡ (o, settled))
        × Says target c o)
      × (send j select false message s ≡ (err send_failed, settled))
unfolding track
send-process_completion_message j select message target payload written s bytes c print below h read
      named =
    let sent = (track j (wrapped target payload) s.invocator).1 in
    let both = take_tracked-track j print (wrapped target payload) s.invocator below in
    (
      (
        reported j sent c,
        ap (process_completion_message j bytes)
              (send_taken j select message target payload written s h)
            ∙ completed j bytes c (j.print s.invocator.counter) _ _ sent read named both,
        reported-Says j sent c c.error c.completion_result refl refl,
      ),
      send_refused j select message target payload written s h
          ∙ ap (λ r. (err send_failed, record s { invocator = r.0 })) both,
    )
