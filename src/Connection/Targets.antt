-- ===== src/Connection/Targets.antt =====
-- What the handler of each of the hub's methods does to a channel that is open, at the agent's connection
-- (bctl/agent/controlchannel/dataconnection/connection.go).
use bzero.Shared.{
  ℕ, ◌≡◌, ◌≢◌, refl, sym, ap, subst, true, false, Option, none, some, String, List, [], ◌∷◌, ◌++◌,
  append-nil, str_eq, eq_iff, if◌then◌else◌, Bool-cases, inl, inr, Outcome, ok, err, panic, arith,
}
use bzero.Mrtap.Types.{Bytes}
use bzero.Mrtap.Externals.{Externals}
use bzero.Mrtap.Agent as Mrtap
use bzero.Mrtap.Agent.{Config}
use bzero.Channel.Types.{AgentMessage}
use bzero.Channel.Wire.{Wire}
use bzero.Channel.Agent
use bzero.Channel.Agent.{ChannelError, DataChannel, Plugins}
use bzero.SignalR.{SignalrMessage}
use bzero.Connection.{
  Decoder, DataConnection, no_mrtap, logged, opened, open_data_channel, handle, has_argument,
}
use bzero.Connection.Served.{
  IsServed, added, same_result, forward-IsServed, close-IsServed, open-IsServed,
}

module _ (j : Decoder) where
  -- The id of the channel that a message opens or closes.
  abbrev changed_by : String → Bytes → Option String
  changed_by target bytes =
      if str_eq target "OpenDataChannel"
      then some (j.unmarshal_open bytes).data_channel_id
      else if str_eq target "CloseDataChannel"
      then some (j.unmarshal_close bytes)
      else none

  -- What a message has for the channel of an id.
  abbrev held_for : String → String → Bytes → List AgentMessage
  held_for id target bytes =
      if str_eq target "RequestBastionToAgentV1"
      then added id (j.unmarshal_agent_message bytes)
      else []

  abbrev pub changed_at : String → List Bytes → Option String
  changed_at target [] = none
  changed_at target (bytes ∷ _) = changed_by target bytes

  abbrev pub changed_channel : SignalrMessage → Option String
  changed_channel m = changed_at m.target m.arguments

  abbrev pub held_at : String → String → List Bytes → List AgentMessage
  held_at id target [] = []
  held_at id target (bytes ∷ _) = held_for id target bytes

  abbrev pub addressed : String → SignalrMessage → List AgentMessage
  addressed id m = held_at id m.target m.arguments

module _ {V P : Type 0} where
  -- The state that a handler leaves serves the channel, its part of the message added.
  abbrev Serves :
      String → ℕ → List AgentMessage → List AgentMessage → Option (DataConnection V P) → Type 0
  Serves id h q more o = (s' : DataConnection V P) → o ≡ some s' → IsServed s' id h (q ++ more)

  pub unchanged-Serves :
      (s : DataConnection V P) (id : String) (h : ℕ) (q : List AgentMessage)
      → IsServed s id h q
      → Serves id h q [] (some s)
  unchanged-Serves s id h q v s' r =
      subst (IsServed s' id h) (sym (append-nil q))
        (subst (λ t. IsServed t id h q) (same_result _ s s' refl r) v)

module _ {V P : Type 0} (x : Externals V) (w : Wire ChannelError) (plugins : Plugins P)
    (j : Decoder) (config : Config) where
  module _ (now : ℕ) (random : String) (bytes : Bytes) (s : DataConnection V P) (id : String)
      (h : ℕ) (q : List AgentMessage) (v : IsServed s id h q) where
    -- A handler, at a message of a target.
    abbrev HandlesTarget : String → Type 0
    HandlesTarget target =
        target ≢ "CloseConnection"
        → changed_by j target bytes ≢ some id
        → Serves id h q (held_for j id target bytes)
            (handle x w plugins j config now random target bytes s)

    handle-close_connection : HandlesTarget "CloseConnection"
    handle-close_connection n d = absurd (n refl)

    handle-connected : HandlesTarget "DaemonConnected"
    unfolding handle
    handle-connected n d = by_timeout (j.unmarshal_idle_timeout bytes)
      where
        by_timeout :
            (o : Option ℕ)
            → Serves id h q [] (elim o [
              | none ↦ some s
              | some timeout ↦ some (record s { idle_timeout = timeout })
            ])
        by_timeout none = unchanged-Serves s id h q v
        by_timeout (some timeout) = unchanged-Serves (record s { idle_timeout = timeout }) id h q v

    handle-open : HandlesTarget "OpenDataChannel"
    unfolding handle open_data_channel
    handle-open n d = by_mrtap (Mrtap.new x config)
      where
        by_mrtap :
            (o : Outcome Mrtap.AgentError (Mrtap.Agent V))
            → Serves id h q [] (
                logged {V = V} {P = P} (elim o [
                  | ok mt ↦
                      opened x w plugins j
                        (j.unmarshal_open bytes).data_channel_id
                        (Agent.new x w plugins
                          (j.unmarshal_open bytes).data_channel_id
                          mt
                          now
                          random
                          (j.unmarshal_open bytes).syn)
                        s
                  | err e ↦ (s, err (no_mrtap e))
                  | panic ↦ (s, panic)
                ]))
        by_mrtap (err e) = unchanged-Serves s id h q v
        by_mrtap panic = λ s' r. absurd (ground (arith, r))
        by_mrtap (ok mt) = λ s' r.
            let new =
              Agent.new x w plugins (j.unmarshal_open bytes).data_channel_id mt now random
                (j.unmarshal_open bytes).syn in
            subst (IsServed s' id h) (sym (append-nil q)) (
              open-IsServed x w plugins j s s' id (j.unmarshal_open bytes).data_channel_id h q new.0
                new.1 (λ e. d (ap some (sym e))) v r)

    handle-close : HandlesTarget "CloseDataChannel"
    unfolding handle
    handle-close n d s' r = subst (IsServed s' id h) (sym (append-nil q)) (
        close-IsServed x w plugins j s s' (j.unmarshal_close bytes) id h q
          (λ e. d (ap some (sym e))) v r)

    handle-request : HandlesTarget "RequestBastionToAgentV1"
    unfolding handle
    handle-request n d s' r =
        forward-IsServed x w plugins j s s' (j.unmarshal_agent_message bytes) id h q v r

    handle-other : (target : String) → has_argument target ≡ false → HandlesTarget target
    unfolding handle has_argument
    handle-other target e n d s' r = ground (arith, e, r, unchanged-Serves s id h q v s')

    pub handle-Serves : (target : String) → HandlesTarget target
    unfolding has_argument
    handle-Serves target = elim (Bool-cases (str_eq target "CloseConnection")) [
      | inl y ↦ at_target "CloseConnection" y handle-close_connection
      | inr a ↦ elim (Bool-cases (str_eq target "DaemonConnected")) [
        | inl y ↦ at_target "DaemonConnected" y handle-connected
        | inr b ↦ elim (Bool-cases (str_eq target "OpenDataChannel")) [
          | inl y ↦ at_target "OpenDataChannel" y handle-open
          | inr c ↦ elim (Bool-cases (str_eq target "CloseDataChannel")) [
            | inl y ↦ at_target "CloseDataChannel" y handle-close
            | inr e ↦ elim (Bool-cases (str_eq target "RequestBastionToAgentV1")) [
              | inl y ↦ at_target "RequestBastionToAgentV1" y handle-request
              | inr f ↦ handle-other target (ground (arith, a, b, c, e, f))
            ]
          ]
        ]
      ]
    ]
      where
        at_target : (t : String) → str_eq target t ≡ true → HandlesTarget t → HandlesTarget target
        at_target t y = subst HandlesTarget (sym ((eq_iff target t).0 y))
