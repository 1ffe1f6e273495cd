-- ===== src/Channel/Daemon/Handshake.antt =====
-- `handshakeOrTimeout`: the loop that waits for the SynAck, and how often it starts again.
use bzero.Shared.{
  ℕ, ◌+◌, ◌≤◌, ◌≡◌, ◌≢◌, Bool, Option, none, some, String, List, [], ◌∷◌, leb, arith, if◌then◌else◌,
  length, length-append, Outcome, ok, err, panic,
}
use bzero.Mrtap.Types.{Bytes}
use bzero.Mrtap.Externals.{Externals}
use bzero.Mrtap.PipelineMap.{OrderedMap}
use bzero.Mrtap.Daemon.{Credential}
use bzero.Channel.Types.{mrtap, error, AgentMessage}
use bzero.Channel.Wire.{Wire}
use bzero.Channel.Daemon.{
  ChannelError, Plugins, Opening, DataChannel, known, retried_too_often, handshake_timed_out,
  bad_first_message, max_retry, check_for_known_errors, conn_send, open_data_channel_with, start,
  pass_on, handle_mrtap,
}

-- What the loop waits for; a message comes with the nonce that is drawn if a Syn is built for it.
pub data Event : Type 0 where
  dying timed_out : Event
  received : AgentMessage → String → Event

module _ {V M C P : Type 0} (x : Externals V) (o : OrderedMap M) (c : Credential C)
    (w : Wire ChannelError) (plugins : Plugins P) (opening : Opening) where
  -- The error after the last retry: a known one if the message tells.
  unfoldable pub latest_error : AgentMessage → ChannelError
  latest_error m = elim (w.read_error m.message_payload) [
    | none ↦ retried_too_often
    | some e ↦ elim (check_for_known_errors x o c w plugins opening e.message) [
      | some k ↦ known k
      | none ↦ retried_too_often
    ]
  ]

  -- The loop; `none` while it waits.
  unfoldable pub handshake_loop :
      Bool
      → String
      → Option Bytes
      → List Event
      → ℕ
      → DataChannel V M C P
      → DataChannel V M C P × Option (Outcome ChannelError (Unit {0}))
  handshake_loop attach action json [] retry_count d = (d, none)
  handshake_loop attach action json (dying ∷ es) retry_count d = (d, some (ok tt))
  handshake_loop attach action json (timed_out ∷ es) retry_count d =
      (d, some (err handshake_timed_out))
  handshake_loop attach action json (received m nonce ∷ es) retry_count d =
      let (d', started) = start x o c w plugins opening d attach action json nonce in
      let rest = handshake_loop attach action json es (retry_count + 1) d' in
      let (d2, handled) = handle_mrtap x o c w plugins opening d m in
      elim m.message_type [
        | error ↦
            if leb max_retry retry_count then (d, some (err (latest_error m))) else elim started [
              | ok _ ↦ rest
              | err e ↦ (d', some (err e))
              | panic ↦ (d', some panic)
            ]
        | mrtap ↦ (d2, some handled)
        | _ ↦ (d, some (err bad_first_message))
      ]

  unfoldable pub handshake_or_timeout :
      Bool
      → String
      → Option Bytes
      → String
      → List Event
      → DataChannel V M C P
      → DataChannel V M C P × Option (Outcome ChannelError (Unit {0}))
  handshake_or_timeout attach action json nonce es d =
      let (d', started) = start x o c w plugins opening d attach action json nonce in
      let rest = handshake_loop attach action json es 0 d' in
      elim started [ ok _ ↦ rest | err e ↦ (d', some (err e)) | panic ↦ (d', some panic) ]

  start-sent :
      (d : DataChannel V M C P) (attach : Bool) (action : String) (json : Option Bytes)
      (nonce : String)
      → length (start x o c w plugins opening d attach action json nonce).0.sent ≤ length d.sent + 1
  unfolding start open_data_channel_with conn_send
  start-sent d attach action json nonce = grind (arith, length-append)

  handle_mrtap-sent :
      (d : DataChannel V M C P) (m : AgentMessage)
      → (handle_mrtap x o c w plugins opening d m).0.sent ≡ d.sent
  unfolding handle_mrtap pass_on
  handle_mrtap-sent d m = ground arith

  handshake_loop-sent :
      (attach : Bool) (action : String) (json : Option Bytes) (es : List Event) (n : ℕ)
      (d : DataChannel V M C P)
      → n ≤ 3
      → length (handshake_loop attach action json es n d).0.sent + n ≤ length d.sent + 3
  unfolding handshake_loop
  handshake_loop-sent attach action json [] n d h = omega arith
  handshake_loop-sent attach action json (dying ∷ es) n d h = omega arith
  handshake_loop-sent attach action json (timed_out ∷ es) n d h = omega arith
  handshake_loop-sent attach action json (received m nonce ∷ es) n d h = ground (
    arith,
    start-sent d attach action json nonce,
    handle_mrtap-sent d m,
    handshake_loop-sent attach action json es (n + 1)
        (start x o c w plugins opening d attach action json nonce).0,
  )

  -- However many error messages and other events come in, the handshake asks the connection four times
  -- at most to open the data channel: once, and once for each of three errors.
  pub handshake-bounded :
      (attach : Bool) (action : String) (json : Option Bytes) (nonce : String) (es : List Event)
      (d : DataChannel V M C P)
      → length (handshake_or_timeout attach action json nonce es d).0.sent ≤ length d.sent + 4
  unfolding handshake_or_timeout
  handshake-bounded attach action json nonce es d = ground (
    arith,
    start-sent d attach action json nonce,
    handshake_loop-sent attach action json es 0
        (start x o c w plugins opening d attach action json nonce).0,
  )

  -- Every event is an error message.
  abbrev pub AllErrors : List Event → Type 0
  AllErrors [] = Unit
  AllErrors (dying ∷ es) = ⊥
  AllErrors (timed_out ∷ es) = ⊥
  AllErrors (received m nonce ∷ es) = (m.message_type ≡ error) × AllErrors es

  -- The loop is over, without success.
  abbrev pub HasFailed : Option (Outcome ChannelError (Unit {0})) → Type 0
  HasFailed r = (r ≢ none) × (r ≢ some (ok tt))

  handshake_loop-fails :
      (attach : Bool) (action : String) (json : Option Bytes) (es : List Event) (n : ℕ)
      (d : DataChannel V M C P)
      → n ≤ 3
      → AllErrors es
      → 4 ≤ n + length es
      → HasFailed (handshake_loop attach action json es n d).1
  unfolding handshake_loop
  handshake_loop-fails attach action json [] n d k a h = absurd (omega arith)
  handshake_loop-fails attach action json (dying ∷ es) n d k a h = elim a [ ]
  handshake_loop-fails attach action json (timed_out ∷ es) n d k a h = elim a [ ]
  handshake_loop-fails attach action json (received m nonce ∷ es) n d k a h = ground (
    arith,
    a.0,
    handshake_loop-fails attach action json es (n + 1)
        (start x o c w plugins opening d attach action json nonce).0,
  )

  -- Four error messages end the handshake, and not with success.
  pub handshake-fails :
      (attach : Bool) (action : String) (json : Option Bytes) (nonce : String) (es : List Event)
      (d : DataChannel V M C P)
      → AllErrors es
      → 4 ≤ length es
      → HasFailed (handshake_or_timeout attach action json nonce es d).1
  unfolding handshake_or_timeout
  handshake-fails attach action json nonce es d a h = ground (
    arith,
    handshake_loop-fails attach action json es 0
        (start x o c w plugins opening d attach action json nonce).0 (omega arith) a (omega arith),
  )
