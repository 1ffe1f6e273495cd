-- ===== src/Connection/Tests.antt =====
-- An agent's connection with one shell open, and what reaches the shell.
use bzero.Shared.{
  ℕ, ◌≡◌, refl, Bool, true, false, Option, none, some, String, List, [], ◌∷◌, ap, ok, err, str_eq,
  eq_iff, ◌≢◌, arith,
}
use bzero.Mrtap.Types.{Bytes}
use bzero.Mrtap.Agent as Mrtap
use bzero.Mrtap.Agent.{Config}
use bzero.Mrtap.Message.Json.{not_an_object}
use bzero.Mrtap.Sample.{world}
use bzero.Channel.Types.{AgentMessage, mrtap}
use bzero.Channel.Broker.{lookup, store, erase}
use bzero.Channel.Sample.{hello, agent_wire, echo, shell_channel}
use bzero.Channel.Agent
use bzero.Connection.{
  Decoder, DataConnection, Event, arrives, dies, stops, step, run, OpenDataChannelMessage,
  not_opened, get_elem?, open_data_channel, forward, target_select_handler, time_out, idle_for, die,
  close, by_daemon,
}
use bzero.Connection.Served.{IsServed}
use bzero.Connection.Delivery.{AllSpare, run-addressed}
use bzero.Connection.Shutdown.{killed-closes}
use bzero.Connection.Failed.{failed_open-subscribed}

abbrev message_to : String → AgentMessage
message_to id = record {
  channel_id = id;
  message_type = mrtap;
  schema_version = "1.0";
  message_payload = [];
}

-- One byte stands for the id of the shell.
abbrev id_of : Bytes → String
id_of (_ ∷ []) = "dc"
id_of _ = "other"

abbrev decoder : Decoder
decoder = record {
  unmarshal_reason = λ bytes. some "done";
  unmarshal_idle_timeout = λ bytes. some 9;
  unmarshal_open = λ bytes. record { data_channel_id = id_of bytes; syn = [] };
  unmarshal_close = id_of;
  unmarshal_agent_message = λ bytes. message_to (id_of bytes);
  marshal_reason = λ reason. [];
}

abbrev config : Config
config = record {
  public_key = [];
  private_key = [];
  idp_provider = "google";
  idp_org_id = "org";
  service_account_jwks_urls = [];
}

abbrev start : DataConnection ℕ Bytes
start = record {
  ready = true;
  broker = ("dc", some 0) ∷ [];
  channels = shell_channel ∷ [];
  send_queue = [];
  idle_timeout = 60;
  killed = none;
  dead = false;
  stopped = false;
}

abbrev arrival : String → Bytes → Event
arrival target bytes = arrives (record {
  now = 10;
  random = "random";
  message = record {
    message_type = 1;
    target = target;
    arguments = bytes ∷ [];
    invocation_id = "";
  };
})

-- The Syn of the other channel cannot be read.
abbrev events : List Event
events =
    arrival "DaemonConnected" []
    ∷ arrival "RequestBastionToAgentV1" (1 ∷ [])
    ∷ arrival "OpenDataChannel" (2 ∷ 2 ∷ [])
    ∷ dies
    ∷ arrival "RequestBastionToAgentV1" (1 ∷ [])
    ∷ arrival "CloseDataChannel" (2 ∷ 2 ∷ [])
    ∷ arrival "RequestBastionToAgentV1" (2 ∷ 2 ∷ [])
    ∷ []

abbrev after : DataConnection ℕ Bytes
after = elim (run world agent_wire echo decoder config events start) [ none ↦ start | some s ↦ s ]

other_id : ◌≢◌ {A = Option String} (some "other") (some "dc")
other_id e = ground (arith, ap {B = Bool} (λ k. elim k [ none ↦ false | some t ↦ str_eq t "dc" ]) e)

start-IsServed : IsServed start "dc" 0 []
unfolding lookup get_elem?
start-IsServed = (
  (refl, refl, refl),
  ((refl, tt), refl, λ other' d e. ground (arith, e, d, eq_iff "dc" other')),
  (shell_channel, refl, refl, refl),
)

run-addressed_example : IsServed after "dc" 0 (message_to "dc" ∷ message_to "dc" ∷ [])
unfolding run lookup bzero.Connection.receive bzero.Connection.handle forward step
    bzero.Channel.Broker.direct_message open_data_channel Mrtap.new bzero.Connection.opened
    Agent.new Agent.start_with bzero.Mrtap.Message.Json.unmarshal bzero.Channel.Broker.subscribe
    store bzero.Connection.close_data_channel bzero.Channel.Broker.close_channel erase
run-addressed_example =
    run-addressed world agent_wire echo decoder config events start after "dc" 0 [] start-IsServed
      events-AllSpare events_end
  where
    named : (target : String) → str_eq target "CloseConnection" ≡ false → target ≢ "CloseConnection"
    named target e f = ground (arith, e, (eq_iff target "CloseConnection").1 f)

    events-AllSpare : AllSpare decoder "dc" events
    events-AllSpare = (
      (named _ refl, λ e. cc),
      (
        (named _ refl, λ e. cc),
        (
          (named _ refl, λ e. other_id e),
          (
            tt,
            (
              (named _ refl, λ e. cc),
              ((named _ refl, λ e. other_id e), ((named _ refl, λ e. cc), tt)),
            ),
          ),
        ),
      ),
    )

    events_end : run world agent_wire echo decoder config events start ≡ some after
    events_end = refl

-- The daemon has closed the connection.
abbrev closing : DataConnection ℕ Bytes
closing = record start { killed = some (by_daemon "done") }

abbrev closed_channel : Agent.DataChannel ℕ Bytes
closed_channel = record shell_channel { is_alive = false }

abbrev gone : DataConnection ℕ Bytes
gone = record closing { ready = false; broker = []; channels = closed_channel ∷ []; dead = true }

killed-closes_example :
    (gone.ready ≡ false)
    × (gone.broker ≡ [])
    × (closed_channel.is_alive ≡ false)
    × (run world agent_wire echo decoder config
          (stops ∷ arrival "RequestBastionToAgentV1" (1 ∷ []) ∷ [])
          gone
        ≡ some (record gone { stopped = true }))
unfolding step die bzero.Channel.Broker.close bzero.Connection.send lookup get_elem?
    bzero.Connection.make_all bzero.Connection.make bzero.Connection.change
killed-closes_example =
    killed-closes world agent_wire echo decoder config closing gone (by_daemon "done") "dc" 0
      closed_channel (arrival "RequestBastionToAgentV1" (1 ∷ []) ∷ []) refl refl ((λ e. cc), tt)
      refl refl refl

failed_open-subscribed_example :
    ((open_data_channel world agent_wire echo decoder config 10 "random"
        (record { data_channel_id = "other"; syn = [] })
        start).1
      ≡ err (not_opened (Agent.malformed_message not_an_object)))
    × ((forward world agent_wire echo decoder
          (message_to "other")
          (open_data_channel world agent_wire echo decoder config 10 "random"
            (record { data_channel_id = "other"; syn = [] })
            start).0).1
        ≡ ok tt)
unfolding Mrtap.new Agent.new Agent.start_with bzero.Mrtap.Message.Json.unmarshal
failed_open-subscribed_example =
    failed_open-subscribed world agent_wire echo decoder config 10 "random"
      (record { data_channel_id = "other"; syn = [] }) start mt _ (message_to "other") refl refl
      refl
  where
    mt : Mrtap.Agent ℕ
    mt = elim (Mrtap.new world config) [ ok a ↦ a | _ ↦ shell_channel.mrtap ]

-- The idle timer's reason does not take the place of an earlier one.
close_first : (time_out (close (by_daemon "done") start)).killed ≡ some (by_daemon "done")
unfolding time_out close bzero.Connection.kill
close_first = refl

die_last :
    (elim (die world agent_wire echo decoder start) [ none ↦ false | some r ↦ (r.1).ready ]) ≡ false
unfolding die bzero.Channel.Broker.close bzero.Connection.send
die_last = refl

sends_back : target_select_handler hello ≡ some "ResponseAgentToBastionV1"
unfolding target_select_handler
sends_back = refl
