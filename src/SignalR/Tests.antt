-- ===== src/SignalR/Tests.antt =====
-- Runs of SignalR, and its theorems at a concrete codec.
use bzero.Shared.{
  ℕ, ◌+◌, ◌-◌, ◌≡◌, refl, sym, ap, ◌∙◌, true, false, Option, none, some, String, [], ◌∷◌, ◌>>=◌,
  arith, ok, err, Bool, List, map, subst, length, Outcome, ◌<◌, ◌==◌, if◌then◌else◌,
}
use bzero.Mrtap.Types.{Bytes}
use bzero.Mrtap.Sample.{encode, decode, decode-encode}
use bzero.Channel.Types.{AgentMessage, stream}
use bzero.Plugin.Codec.{Codec, nat, through, both, list, text_codec, write, read, read-write}
use bzero.SignalR.{
  SignalrMessage, SignalrError, CompletionMessage, Signalr, Json, split, unwrap, send, send_failed,
  process_completion_message, track,
}
use bzero.SignalR.Frames.{IsJson, has_terminator, framed, unwrap-framed}
use bzero.SignalR.Tracker.{
  IsPrint, IsWritten, Says, left_with, wrapped, send-process_completion_message,
}

abbrev message_codec : Codec SignalrMessage
message_codec =
    through (both nat (both text_codec (both (list (list nat)) text_codec)))
      (λ (m : SignalrMessage). (m.message_type, (m.target, (m.arguments, m.invocation_id))))
      (λ x. record {
        message_type = x.0;
        target = x.1.0;
        arguments = x.1.1.0;
        invocation_id = x.1.1.1;
      })
      (λ m. refl)

-- No byte of it is the terminator.
abbrev raise : Bytes → Bytes
raise [] = []
raise (x ∷ xs) = (x + 31) ∷ raise xs

abbrev lower : Bytes → Bytes
lower [] = []
lower (x ∷ xs) = (x - 31) ∷ lower xs

lower-raise : (xs : Bytes) → lower (raise xs) ≡ xs
lower-raise [] = refl
lower-raise (x ∷ xs) =
    ap (λ k. k ∷ lower (raise xs)) {x = x + 31 - 31} (omega arith) ∙ ap (◌∷◌ x) (lower-raise xs)

has_terminator-raise : (xs : Bytes) → has_terminator (raise xs) ≡ false
has_terminator-raise [] = refl
has_terminator-raise (x ∷ xs) = ground (arith, has_terminator-raise xs)

-- Raw JSON of no byte is none; blanks are not written.
abbrev compact : Bytes → Bytes
compact [] = []
compact (x ∷ xs) = let rest = compact xs in if x == 32 then rest else x ∷ rest

abbrev are_json : List Bytes → Bool
are_json [] = true
are_json ([] ∷ raws) = false
are_json ((x ∷ raw) ∷ raws) = are_json raws

abbrev compacted : SignalrMessage → SignalrMessage
compacted m = record m { arguments = map compact m.arguments }

abbrev written : SignalrMessage → Bytes
written m = 99 ∷ 99 ∷ 99 ∷ raise (write message_codec (compacted m))

abbrev marshal : SignalrMessage → Option Bytes
marshal m = if are_json m.arguments then some (written m) else none

abbrev unmarshal : Bytes → Option SignalrMessage
unmarshal (a ∷ b ∷ c ∷ bytes) = read message_codec (lower bytes)
unmarshal _ = none

unmarshal-written : (m : SignalrMessage) → unmarshal (written m) ≡ some (compacted m)
unmarshal-written m =
    ap (read message_codec) (lower-raise (write message_codec (compacted m)))
    ∙ read-write message_codec (compacted m)

marshal-written : (m : SignalrMessage) (bytes : Bytes) → marshal m ≡ some bytes → written m ≡ bytes
marshal-written m bytes w = ground (arith, w)

-- A completion is the text of its id.
abbrev read_completion : Bytes → Option CompletionMessage
read_completion bytes = some (record {
  invocation_id = some (encode bytes);
  completion_result = none;
  error = some "refused";
})

abbrev json : Json
json = record {
  print = λ n. encode (n ∷ []);
  unmarshal_type = λ bytes. unmarshal bytes >>= λ m. some m.message_type;
  unmarshal_close = λ bytes. some "closed";
  unmarshal_completion = read_completion;
  unmarshal_message = unmarshal;
  marshal_message = marshal;
  compact = compact;
  marshal_agent_message = λ m. some m.message_payload;
}

json-IsJson : IsJson json
json-IsJson = record {
  long = λ m bytes w. subst (λ bs. 2 < length bs) (marshal-written m bytes w) (omega arith);
  escaped = λ m bytes w.
      subst (λ bs. has_terminator bs ≡ false) (marshal-written m bytes w)
        (has_terminator-raise (write message_codec (compacted m)));
  typed = λ m bytes w.
      subst (λ bs. (unmarshal bs >>= λ k. some k.message_type) ≡ some m.message_type)
        (marshal-written m bytes w)
        (ap (λ o. o >>= λ k. some k.message_type) (unmarshal-written m));
  back = λ m bytes w.
      subst (λ bs. unmarshal bs ≡ some (compacted m)) (marshal-written m bytes w)
        (unmarshal-written m);
}

first_of : (k n : ℕ) → some (k ∷ []) ≡ some (n ∷ []) → k ≡ n
first_of k n e = grind arith

json-IsPrint : IsPrint json
json-IsPrint k n e =
    first_of k n (sym (decode-encode (k ∷ [])) ∙ ap decode e ∙ decode-encode (n ∷ []))

abbrev idle : Signalr
idle = record { invocator = left_with [] 0; inbound = []; killed = none }

abbrev hello : SignalrMessage
hello = record {
  message_type = 1;
  target = "hello";
  arguments = (55 ∷ 32 ∷ []) ∷ [];
  invocation_id = "";
}

abbrev hello_read : SignalrMessage
hello_read = record hello { arguments = (55 ∷ []) ∷ [] }

splits : split (1 ∷ 2 ∷ 30 ∷ 3 ∷ 30 ∷ []) ≡ (1 ∷ 2 ∷ []) ∷ (3 ∷ []) ∷ [] ∷ []
unfolding split
splits = refl

abbrev two_frames : List (SignalrMessage × Bytes)
two_frames = (hello, written hello) ∷ (hello, written hello) ∷ []

unwrap-framed_example :
    unwrap json (framed two_frames) idle
    ≡ (ok tt, record idle { inbound = hello_read ∷ hello_read ∷ [] })
unwrap-framed_example =
    unwrap-framed json two_frames idle json-IsJson (refl, (refl, tt)) (refl, (refl, tt))

abbrev to_hub : AgentMessage → Option String
to_hub m = some "hub"

abbrev greeting : AgentMessage
greeting = record {
  channel_id = "c";
  message_type = stream;
  schema_version = "1.0";
  message_payload = 5 ∷ [];
}

abbrev refusal : CompletionMessage
refusal = record {
  invocation_id = some (encode (0 ∷ []));
  completion_result = none;
  error = some "refused";
}

greeting-IsWritten :
    IsWritten json to_hub greeting "hub"
      (5 ∷ [])
      (written (track json (wrapped "hub" (5 ∷ [])) idle.invocator).1)
      idle
unfolding track
greeting-IsWritten = record { chosen = refl; payload_of = refl; bytes_of = refl }

send-process_completion_message_example :
    let settled = record idle { invocator = left_with [] 1 } in
    ((o : Outcome SignalrError Unit) × (process_completion_message json
          (0 ∷ [])
          (send json to_hub true greeting idle).1
        ≡ (o, settled))
      × Says "hub" refusal o)
    × (send json to_hub false greeting idle ≡ (err send_failed, settled))
send-process_completion_message_example =
    send-process_completion_message json to_hub greeting "hub" (5 ∷ [])
      (written (track json (wrapped "hub" (5 ∷ [])) idle.invocator).1) idle (0 ∷ []) refusal
      json-IsPrint tt greeting-IsWritten refl refl
