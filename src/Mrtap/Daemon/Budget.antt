-- ===== src/Mrtap/Daemon/Budget.antt =====
-- How often the daemon may try to recover before a Data message of it is acked.
use bzero.Shared.{
  ◌+◌, ◌≤◌, ◌≡◌, ◌≢◌, ◌⊎◌, eq_iff, Bool, true, Option, none, some, String, List, [], ◌∷◌, arith, ok,
  length, length-append,
}
use bzero.Mrtap.Types.{Bytes, Message}
use bzero.Mrtap.Externals.{Externals}
use bzero.Mrtap.PipelineMap.{OrderedMap, find}
use bzero.Mrtap.Daemon.{Daemon, Credential, build_syn, send_syn, add_to_pipeline_map}
use bzero.Mrtap.Daemon.Recovery.{ErrorMessage, recover, restart}

module _ {V M C : Type 0} (x : Externals V) (o : OrderedMap M) (c : Credential C) where
  -- A call adds at most one message to the outbox, and leaves the count of attempts alone.
  abbrev Sends : Daemon V M C → Daemon V M C → Type 0
  Sends d d' =
      (length d'.outbox_queue ≤ length d.outbox_queue + 1)
      × (d'.error_recovery_attempt ≡ d.error_recovery_attempt)

  send_syn-Sends :
      (d : Daemon V M C) (msg : Message) (send : Bool) → Sends d (send_syn x o c d msg send).0
  unfolding send_syn add_to_pipeline_map
  send_syn-Sends d msg send = ground (arith, length-append d.outbox_queue (msg ∷ []))

  build_syn-Sends :
      (d : Daemon V M C) (action : String) (bytes : Option Bytes) (send : Bool) (nonce : String)
      → Sends d (build_syn x o c d action bytes send nonce).0
  unfolding build_syn
  build_syn-Sends d action none send nonce = ground arith
  build_syn-Sends d action (some json) send nonce = grind (arith, send_syn-Sends)

  -- An attempt is counted for each message sent, and none is made after the third.
  restart-budget :
      (d : Daemon V M C) (nonce : String)
      → let d' = (restart x o c d nonce).0 in
        length d'.outbox_queue + d.error_recovery_attempt
          ≤ length d.outbox_queue + d'.error_recovery_attempt
        × (d.error_recovery_attempt ≤ 3 → d'.error_recovery_attempt ≤ 3)
  unfolding restart
  restart-budget d nonce = ground (
    arith,
    build_syn-Sends
        (record d { error_recovery_attempt = d.error_recovery_attempt + 1; recovering = true }) ""
        (some (b'"' ∷ b'"' ∷ [])) true nonce,
  )

  recover-budget :
      (d : Daemon V M C) (e : ErrorMessage) (nonce : String)
      → let d' = (recover x o c d e nonce).0 in
        length d'.outbox_queue + d.error_recovery_attempt
          ≤ length d.outbox_queue + d'.error_recovery_attempt
        × (d.error_recovery_attempt ≤ 3 → d'.error_recovery_attempt ≤ 3)
  unfolding recover
  recover-budget d e nonce = ground (arith, restart-budget d nonce)

  -- A run of error messages, with the nonces drawn for the Syns.
  unfoldable pub recover_each : Daemon V M C → List (ErrorMessage × String) → Daemon V M C
  recover_each d [] = d
  recover_each d ((e, nonce) ∷ es) = recover_each (recover x o c d e nonce).0 es

  recover_each-budget :
      (es : List (ErrorMessage × String)) (d : Daemon V M C)
      → d.error_recovery_attempt ≤ 3
      → let d' = recover_each d es in
        length d'.outbox_queue + d.error_recovery_attempt
          ≤ length d.outbox_queue + d'.error_recovery_attempt
        × (d'.error_recovery_attempt ≤ 3)
  unfolding recover_each
  recover_each-budget [] d h = (omega arith, h)
  recover_each-budget ((e, nonce) ∷ es) d h =
      let step = recover-budget d e nonce in
      let rest = recover_each-budget es (recover x o c d e nonce).0 (step.1 h) in
      (omega (arith, step.0, rest.0), rest.1)

  -- Whatever error messages arrive, and however many, a daemon that has made three attempts at most
  -- sends no more Syns for them than the attempts it had left of three.
  pub recover_bounded :
      (es : List (ErrorMessage × String)) (d : Daemon V M C)
      → d.error_recovery_attempt ≤ 3
      → length (recover_each d es).outbox_queue + d.error_recovery_attempt
        ≤ length d.outbox_queue + 3
  recover_bounded es d h = omega (arith, recover_each-budget es d h)

  -- An error that names a schema version and a message is acted on only when that message is in flight
  -- and no recovery is under way; otherwise it changes nothing.
  pub recover_ignores :
      (d : Daemon V M C) (e : ErrorMessage) (nonce : String)
      → e.schema_version ≢ ""
      → e.hpointer ≢ ""
      → (d.recovering ≡ true) ⊎ (find e.hpointer (o.pairs d.pipeline_map) ≡ none)
      → recover x o c d e nonce ≡ (d, ok tt)
  unfolding recover
  recover_ignores d e nonce versioned pointed idle =
      ground (arith, idle, eq_iff e.schema_version "", eq_iff e.hpointer "")
