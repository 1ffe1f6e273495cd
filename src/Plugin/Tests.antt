-- ===== src/Plugin/Tests.antt =====
-- Runs of the db and web actions, and their theorems at concrete codecs and reads.
use bzero.Shared.{
  ℕ, zero, suc, ◌≡◌, ◌≢◌, ◌↔◌, refl, Bool, true, none, List, [], ◌∷◌, arith, ◌>>=◌, panic, take,
}
use bzero.Mrtap.Types.{Bytes}
use bzero.Mrtap.Sample.{encode, decode, decode-encode}
use bzero.Plugin.Codec.{Codec, nat, through, both, text_codec, write, read}
use bzero.Plugin.Stream.{Base64}
use bzero.Plugin.InOrder.{Covers, pick, has}
use bzero.Plugin.Dial.{DialActionPayload, DialInputActionPayload, DialJson, dial_input}
use bzero.Plugin.Dial.Agent.{Read, pump, receive, Dial, DialError}
use bzero.Plugin.Dial.Agent
use bzero.Plugin.Dial.Daemon.{LocalRead, receive_streams}
use bzero.Plugin.Dial.Daemon
use bzero.Plugin.Dial.Delivery.{
  contents, reaches_end, receive_streams_prefix, receive_streams-contents,
}
use bzero.Plugin.Dial.Input.{new_dial, receive_panics_iff}

abbrev base64 : Base64
base64 = record { encode = encode; decode = decode }

abbrev start_codec : Codec DialActionPayload
start_codec =
    through (both text_codec text_codec)
      (λ (p : DialActionPayload). (p.request_id, p.stream_message_version))
      (λ x. record { request_id = x.0; stream_message_version = x.1 }) (λ p. refl)

abbrev input_codec : Codec DialInputActionPayload
input_codec =
    through (both text_codec (both nat text_codec))
      (λ (p : DialInputActionPayload). (p.request_id, (p.sequence_number, p.data_text)))
      (λ x. record { request_id = x.0; sequence_number = x.1.0; data_text = x.1.1 }) (λ p. refl)

abbrev dial_json : DialJson
dial_json = record {
  marshal_start = write start_codec;
  unmarshal_start = read start_codec;
  marshal_input = write input_codec;
  unmarshal_input = read input_codec;
}

-- Three reads, the last at the end.
abbrev three_reads : List Read
three_reads = Agent.got (1 ∷ 2 ∷ []) ∷ Agent.got (3 ∷ []) ∷ Agent.eof [] ∷ []

-- The last message comes first, and one message twice.
abbrev mixed : List ℕ
mixed = 2 ∷ 1 ∷ 1 ∷ 0 ∷ 1 ∷ []

abbrev takes_all : List Bytes → Bytes → Bool
takes_all w bytes = true

mixed-Covers : Covers mixed 3
unfolding has
mixed-Covers zero h = refl
mixed-Covers (suc zero) h = refl
mixed-Covers (suc (suc zero)) h = refl
mixed-Covers (suc (suc (suc k))) h = absurd (omega arith)

receive_streams_prefix_example :
    (n : ℕ) × ((receive_streams base64 takes_all
        (pick (1 ∷ 2 ∷ []) (pump base64 "202204" 0 three_reads))).state.handed
      ≡ take n (contents "202204" three_reads))
receive_streams_prefix_example =
    receive_streams_prefix base64 "202204" takes_all three_reads (1 ∷ 2 ∷ []) decode-encode

receive_streams-contents_example :
    let r = receive_streams base64 takes_all (pick mixed (pump base64 "202204" 0 three_reads)) in
    (r.state.handed ≡ contents "202204" three_reads) × (r.stopped ≡ reaches_end three_reads)
unfolding pump
receive_streams-contents_example =
    receive_streams-contents base64 "202204" takes_all three_reads mixed decode-encode
      (λ w bytes. refl) mixed-Covers

abbrev local_reads : List LocalRead
local_reads = Daemon.got (7 ∷ []) ∷ Daemon.got [] ∷ Daemon.got (8 ∷ 9 ∷ []) ∷ Daemon.failed ∷ []

receive_panics_iff_example :
    ((receive base64 dial_json true takes_all dial_input (7 ∷ []) new_dial).0 ≡ panic) ↔ (
      (dial_input ≡ dial_input)
      × ((dial_json.unmarshal_input (7 ∷ []) >>= λ p. base64.decode p.data_text) ≢ none))
unfolding new_dial
receive_panics_iff_example =
    receive_panics_iff base64 dial_json true takes_all dial_input (7 ∷ []) new_dial refl
