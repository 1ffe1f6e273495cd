-- ===== src/Mrtap/Daemon/Recovery.antt =====
-- `Recover`, `resend` and `Validate` of bctl/daemon/mrtap/mrtap.go.
use bzero.Shared.{
  ◌+◌, Bool, true, false, not, ◌&&◌, none, some, String, [], ◌∷◌, str_eq, leb, if◌then◌else◌,
  length, Outcome, ok, err, panic,
}
use bzero.Mrtap.Types.{
  PayloadType, syn_ack, data_ack, SynAckPayload, Payload, syn_ack_payload, Message,
}
use bzero.Mrtap.Externals.{Externals}
use bzero.Mrtap.Keypair
use bzero.Mrtap.Message
use bzero.Mrtap.PipelineMap.{OrderedMap, Pairs, find, following}
use bzero.Mrtap.Daemon.{
  Daemon, DaemonError, Credential, max_error_recovery_tries, as_daemon, pipeline, build_syn,
  hpointer_empty, too_many_retries, invalid_public_key, invalid_signature, unknown_hpointer,
  bad_schema_version, bad_constraint,
}

-- What `Recover` reads of `bzerr.ErrorMessage`.
pub record ErrorMessage : Type 0 where
  pub schema_version : String
  pub type : String
  pub message : String
  pub hpointer : String

module _ {V M C : Type 0} (x : Externals V) (o : OrderedMap M) (c : Credential C) where
  -- The part of `Recover` for an error that is not ignored. `json.Marshal([]byte{})` is two quotes.
  unfoldable pub restart : Daemon V M C → String → Daemon V M C × Outcome DaemonError (Unit {0})
  restart m nonce =
      if leb max_error_recovery_tries m.error_recovery_attempt
      then (m, err too_many_retries)
      else let m1 = record m {
        error_recovery_attempt = m.error_recovery_attempt + 1;
        recovering = true;
      } in
        let (m2, built) = build_syn x o c m1 "" (some (b'"' ∷ b'"' ∷ [])) true nonce in
        elim built [ ok _ ↦ (m2, ok tt) | err e ↦ (m2, err e) | panic ↦ (m2, panic) ]

  -- An error without a schema version is never ignored.
  unfoldable pub recover :
      Daemon V M C → ErrorMessage → String → Daemon V M C × Outcome DaemonError (Unit {0})
  recover m e nonce =
      if str_eq e.schema_version ""
      then restart m nonce
      else if str_eq e.hpointer ""
      then (m, err hpointer_empty)
      else if m.recovering
      then (m, ok tt)
      else elim (find e.hpointer (o.pairs m.pipeline_map)) [
        | none ↦ (m, ok tt)
        | some _ ↦ restart m nonce
      ]

  -- The loop over the lost pairs; an error of `pipeline` is dropped.
  unfoldable pub pipeline_each :
      Daemon V M C → Pairs → Daemon V M C × Outcome DaemonError (Unit {0})
  pipeline_each m [] = (m, ok tt)
  pipeline_each m ((k, msg) ∷ ps) =
      let (m', sent) = pipeline x o c m (Message.get_action msg) (Message.get_action_payload msg) in
      let rest = pipeline_each m' ps in elim sent [ panic ↦ (m', panic) | _ ↦ rest ]

  -- Whether the nonce is the hash of the last Data message that was acked.
  unfoldable pub is_last_acked : Daemon V M C → String → Bool
  is_last_acked m nonce = elim m.last_acked_data [
    | none ↦ false
    | some last ↦ let h = Message.hash x last in not (str_eq h "") && str_eq nonce h
  ]

  unfoldable pub resend : Daemon V M C → V → String → Daemon V M C × Outcome DaemonError (Unit {0})
  resend m version nonce =
      let lost = o.pairs m.pipeline_map in
      let m1 = record m { pipeline_map = o.empty } in
      elim (x.new_constraint "> 2.0") [
        | none ↦ (m1, ok tt)
        | some should_check_nonce ↦ elim (following nonce lost) [
          | some later ↦ pipeline_each m1 later
          | none ↦
              if should_check_nonce version && not (is_last_acked m nonce)
              then (m1, ok tt)
              else pipeline_each m1 lost
        ]
      ]

  -- The last lines of `Validate`: the length that `IsPipelineEmpty` reads.
  unfoldable pub settle :
      Daemon V M C × Outcome DaemonError (Unit {0}) → Daemon V M C × Outcome DaemonError (Unit {0})
  settle (m, ok u) = (record m { pipeline_length = length (o.pairs m.pipeline_map) }, ok u)
  settle (m, err e) = (m, err e)
  settle (m, panic) = (m, panic)

  -- What follows `resend` in the SynAck case.
  unfoldable pub complete_handshake :
      V
      → Daemon V M C × Outcome DaemonError (Unit {0})
      → Daemon V M C × Outcome DaemonError (Unit {0})
  complete_handshake version (m, panic) = (m, panic)
  complete_handshake version (m, _) = elim (x.new_constraint "< 2.0") [
    | none ↦ (m, err bad_constraint)
    | some is_old ↦ (
      record m {
        pre_pipelining_agent = is_old version;
        pipeline_limit = if is_old version then 1 else m.pipeline_limit;
        is_handshake_complete = true;
      },
      ok tt,
    )
  ]

  unfoldable pub accept_syn_ack :
      Daemon V M C → Message → SynAckPayload → Daemon V M C × Outcome DaemonError (Unit {0})
  accept_syn_ack m msg p =
      let m1 = record m {
        last_ack = some msg;
        pipeline_map = o.delete m.pipeline_map p.h_pointer;
      } in
      elim (x.new_version p.schema_version) [
        | none ↦ (m1, err bad_schema_version)
        | some version ↦
            let m2 = record m1 { schema_version = some version; recovering = false } in
            complete_handshake version (resend m2 version p.nonce)
      ]

  -- The switch on the type of a message whose hash pointer is that of `acked`.
  unfoldable pub accept_ack :
      PayloadType
      → Payload
      → Daemon V M C
      → Message
      → String
      → Message
      → Daemon V M C × Outcome DaemonError (Unit {0})
  accept_ack syn_ack (syn_ack_payload p) m msg hpointer acked = accept_syn_ack m msg p
  accept_ack data_ack payload m msg hpointer acked = (
    record m {
      last_ack = some msg;
      pipeline_map = o.delete m.pipeline_map hpointer;
      last_acked_data = some acked;
      error_recovery_attempt = 0;
    },
    ok tt,
  )
  accept_ack _ payload m msg hpointer acked = (m, ok tt)

  -- The key of the first SynAck is kept before its signature is verified.
  unfoldable pub learn_key : Daemon V M C → Payload → Outcome DaemonError (Daemon V M C)
  learn_key m (syn_ack_payload p) = elim m.ack_public_key [
    | some _ ↦ ok m
    | none ↦ elim (Keypair.public_key_from_string x p.target_public_key) [
      | none ↦ err invalid_public_key
      | some key ↦ ok (record m { ack_public_key = some key })
    ]
  ]
  learn_key m _ = ok m

  -- The agent's key first, then the key of the first SynAck, which may be nil.
  unfoldable pub check_signature : Daemon V M C → Message → Outcome DaemonError (Unit {0})
  check_signature m msg = elim (Message.verify_signature x msg (some m.agent_pub_key)) [
    | ok _ ↦ ok tt
    | panic ↦ panic
    | err _ ↦ elim (Message.verify_signature x msg m.ack_public_key) [
      | ok _ ↦ ok tt
      | err _ ↦ err invalid_signature
      | panic ↦ panic
    ]
  ]

  unfoldable pub accept_pointer :
      Daemon V M C → Message → String → Daemon V M C × Outcome DaemonError (Unit {0})
  accept_pointer m msg hpointer = elim (find hpointer (o.pairs m.pipeline_map)) [
    | none ↦ (m, err unknown_hpointer)
    | some acked ↦ settle (accept_ack msg.type msg.payload m msg hpointer acked)
  ]

  unfoldable pub validate : Daemon V M C → Message → Daemon V M C × Outcome DaemonError (Unit {0})
  validate m msg = elim (learn_key m msg.payload) [
    | err e ↦ (m, err e)
    | panic ↦ (m, panic)
    | ok m1 ↦ elim (check_signature m1 msg) [
      | err e ↦ (m1, err e)
      | panic ↦ (m1, panic)
      | ok _ ↦ elim (Message.get_hpointer msg) [
        | err e ↦ (m1, as_daemon (err e))
        | panic ↦ (m1, panic)
        | ok hpointer ↦ accept_pointer m1 msg hpointer
      ]
    ]
  ]
