-- ===== src/SignalR/Frames.antt =====
-- Messages that come together, each with its terminator, are taken apart into what they were
-- (bzerolib/connection/messenger/signalr/signalr.go).
use bzero.Shared.{
  ℕ, ◌<◌, ◌≡◌, map, refl, sym, ap, ◌∙◌, Bool, false, ◌||◌, some, List, [], ◌∷◌, ◌++◌, ◌==◌, length,
  append_assoc, append-nil, arith, Outcome, ok, lt→leb,
}
use bzero.Mrtap.Types.{Bytes}
use bzero.SignalR.{
  SignalrMessage, Signalr, SignalrError, Json, invocation, terminator_byte, split, process_each,
  process_one, process_typed, process_invocation, unwrap,
}

abbrev pub has_terminator : Bytes → Bool
has_terminator [] = false
has_terminator (x ∷ xs) = (x == terminator_byte) || has_terminator xs

-- A message as it is read back: its arguments are raw JSON, which is written compactly.
abbrev pub as_read : Json → SignalrMessage → SignalrMessage
as_read j m = record m { arguments = map j.compact m.arguments }

-- What is documented of the encoding of a message that can be written: an object has more than its two
-- braces, a control character is escaped, and the fields are read back.
pub record IsJson (j : Json) : Type 0 where
  pub long :
      (m : SignalrMessage) (bytes : Bytes) → j.marshal_message m ≡ some bytes → 2 < length bytes
  pub escaped :
      (m : SignalrMessage) (bytes : Bytes)
      → j.marshal_message m ≡ some bytes
      → has_terminator bytes ≡ false
  pub typed :
      (m : SignalrMessage) (bytes : Bytes)
      → j.marshal_message m ≡ some bytes
      → j.unmarshal_type bytes ≡ some m.message_type
  pub back :
      (m : SignalrMessage) (bytes : Bytes)
      → j.marshal_message m ≡ some bytes
      → j.unmarshal_message bytes ≡ some (as_read j m)

-- The messages that can be written, with what is written of them.
abbrev pub AreWritten : Json → List (SignalrMessage × Bytes) → Type 0
AreWritten j [] = Unit
AreWritten j ((m, bytes) ∷ ms) = (j.marshal_message m ≡ some bytes) × AreWritten j ms

-- Each with its terminator, one behind the other.
abbrev pub framed : List (SignalrMessage × Bytes) → Bytes
framed [] = []
framed ((m, bytes) ∷ ms) = bytes ++ terminator_byte ∷ framed ms

abbrev pub messages : Json → List (SignalrMessage × Bytes) → List SignalrMessage
messages j [] = []
messages j ((m, bytes) ∷ ms) = as_read j m ∷ messages j ms

abbrev pub AreInvocations : List (SignalrMessage × Bytes) → Type 0
AreInvocations [] = Unit
AreInvocations ((m, bytes) ∷ ms) = (m.message_type ≡ invocation) × AreInvocations ms

split-frame :
    (p rest : Bytes)
    → has_terminator p ≡ false
    → split (p ++ terminator_byte ∷ rest) ≡ p ∷ split rest
unfolding split
split-frame [] rest h = refl
split-frame (x ∷ p) rest h = ground (arith, split-frame p rest)

inbound_is :
    (s : Signalr) (xs ys : List SignalrMessage)
    → xs ≡ ys
    → ◌≡◌ {A = Outcome SignalrError Unit × Signalr}
        (ok tt, record s { inbound = xs })
        (ok tt, record s { inbound = ys })
inbound_is s xs ys e = ap (λ w. (ok tt, record s { inbound = w })) e

module _ (j : Json) (json : IsJson j) where
  process_one-typed :
      (m : SignalrMessage) (bytes : Bytes) (s : Signalr)
      → j.marshal_message m ≡ some bytes
      → process_one j bytes s ≡ process_typed j m.message_type bytes s
  unfolding process_one
  process_one-typed m bytes s w =
      rw (lt→leb (length bytes) 2 (json.long m bytes w)) (rw (json.typed m bytes w) refl)

  process_typed-invocation :
      (t : ℕ) (bytes : Bytes) (s : Signalr)
      → t ≡ invocation
      → process_typed j t bytes s ≡ process_invocation j bytes s
  unfolding process_typed
  process_typed-invocation t bytes s e = rw e refl

  process_invocation-marshal :
      (m : SignalrMessage) (bytes : Bytes) (s : Signalr)
      → j.marshal_message m ≡ some bytes
      → process_invocation j bytes s ≡ (ok tt, record s { inbound = s.inbound ++ as_read j m ∷ [] })
  unfolding process_invocation
  process_invocation-marshal m bytes s w = ground (arith, json.back m bytes w)

  process_one-marshal :
      (m : SignalrMessage) (bytes : Bytes) (s : Signalr)
      → j.marshal_message m ≡ some bytes
      → m.message_type ≡ invocation
      → process_one j bytes s ≡ (ok tt, record s { inbound = s.inbound ++ as_read j m ∷ [] })
  process_one-marshal m bytes s w e =
      process_one-typed m bytes s w
      ∙ process_typed-invocation m.message_type bytes s e
      ∙ process_invocation-marshal m bytes s w

  unwrap-framed_from :
      (ms : List (SignalrMessage × Bytes)) (s : Signalr)
      → AreWritten j ms
      → AreInvocations ms
      → process_each j (split (framed ms)) s
        ≡ (ok tt, record s { inbound = s.inbound ++ messages j ms })
  unfolding process_each process_one split
  unwrap-framed_from [] s w h =
      inbound_is s s.inbound (s.inbound ++ []) (sym (append-nil s.inbound))
  unwrap-framed_from ((m, bytes) ∷ ms) s w h =
      rw (split-frame bytes (framed ms) (json.escaped m bytes w.0)) (
        rw (process_one-marshal m bytes s w.0 h.0) (
          unwrap-framed_from ms (record s { inbound = s.inbound ++ as_read j m ∷ [] }) w.1 h.1
          ∙ inbound_is s ((s.inbound ++ as_read j m ∷ []) ++ messages j ms)
              (s.inbound ++ as_read j m ∷ messages j ms)
              (append_assoc s.inbound (as_read j m ∷ []) (messages j ms))))

-- Invocations that could be written and come in one piece, each with its terminator, are handed on in order,
-- as they were but for the raw JSON of their arguments, which is as encoding/json writes it, and
-- nothing else has changed.
pub unwrap-framed :
    (j : Json) (ms : List (SignalrMessage × Bytes)) (s : Signalr)
    → IsJson j
    → AreWritten j ms
    → AreInvocations ms
    → unwrap j (framed ms) s ≡ (ok tt, record s { inbound = s.inbound ++ messages j ms })
unfolding unwrap
unwrap-framed j ms s json w h = unwrap-framed_from j json ms s w h
