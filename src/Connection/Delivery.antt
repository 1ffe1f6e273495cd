-- ===== src/Connection/Delivery.antt =====
-- Which channel of an agent's connection gets a message
-- (bctl/agent/controlchannel/dataconnection/connection.go).
use bzero.Shared.{
  sym, ◌∙◌, false, ℕ, ◌≡◌, ◌≢◌, refl, subst, Option, none, some, String, List, [], ◌∷◌, ◌++◌,
  append_assoc, if◌then◌else◌, arith,
}
use bzero.Mrtap.Types.{Bytes}
use bzero.Mrtap.Externals.{Externals}
use bzero.Mrtap.Agent.{Config}
use bzero.Channel.Types.{AgentMessage}
use bzero.Channel.Wire.{Wire}
use bzero.Channel.Agent.{ChannelError, Plugins}
use bzero.SignalR.{SignalrMessage}
use bzero.Connection.{
  Decoder, DataConnection, Arrival, Event, arrives, idles, dies, stops, step, run, handle,
  has_argument, receive,
}
use bzero.Connection.Served.{IsServed}
use bzero.Connection.Targets.{
  changed_at, held_at, changed_channel, addressed, unchanged-Serves, handle-Serves,
}

module _ (j : Decoder) where
  -- What an event has for the channel of an id.
  abbrev brought : String → Event → List AgentMessage
  brought id (arrives a) = addressed j id a.message
  brought id _ = []

  abbrev pub all_addressed : String → List Event → List AgentMessage
  all_addressed id [] = []
  all_addressed id (e ∷ es) = brought id e ++ all_addressed id es

  -- An event does not close the connection, nor open or close a channel of the id.
  abbrev Spares : String → Event → Type 0
  Spares id (arrives a) =
      (a.message.target ≢ "CloseConnection") × (changed_channel j a.message ≢ some id)
  Spares id idles = ⊥
  Spares id dies = Unit
  Spares id stops = Unit

  abbrev pub AllSpare : String → List Event → Type 0
  AllSpare id [] = Unit
  AllSpare id (e ∷ es) = Spares id e × AllSpare id es

module _ {V P : Type 0} (x : Externals V) (w : Wire ChannelError) (plugins : Plugins P)
    (j : Decoder) (config : Config) where
  receive-Serves :
      (now : ℕ) (random : String) (m : SignalrMessage) (s s' : DataConnection V P) (id : String)
      (h : ℕ) (q : List AgentMessage)
      → m.target ≢ "CloseConnection"
      → changed_channel j m ≢ some id
      → IsServed s id h q
      → receive x w plugins j config now random m s ≡ some s'
      → IsServed s' id h (q ++ addressed j id m)
  unfolding receive
  receive-Serves now random m s s' id h q n d v r = by_arguments m.arguments d r
    where
      by_arguments :
          (bs : List Bytes)
          → (changed_at j m.target bs ≢ some id)
          → (elim bs [
            | [] ↦ if has_argument m.target then none else some s
            | bytes ∷ _ ↦ handle x w plugins j config now random m.target bytes s
          ]
              ≡ some s')
          → IsServed s' id h (q ++ held_at j id m.target bs)
      by_arguments [] d r = unchanged-Serves s id h q v s' (ground (arith, r))
      by_arguments (bytes ∷ bs) d r =
          handle-Serves x w plugins j config now random bytes s id h q v m.target n d s' r

  step_arrives :
      (a : Arrival) (s : DataConnection V P)
      → s.stopped ≡ false
      → step x w plugins j config (arrives a) s
        ≡ receive x w plugins j config a.now a.random a.message s
  unfolding step
  step_arrives a s e = rw e refl

  step_dies :
      (s : DataConnection V P)
      → s.killed ≡ none
      → s.dead ≡ false
      → step x w plugins j config dies s ≡ some s
  unfolding step
  step_dies s k e = ground (arith, k, e)

  step_stops :
      (s : DataConnection V P) → s.dead ≡ false → step x w plugins j config stops s ≡ some s
  unfolding step
  step_stops s e = ground (arith, e)

  step-Serves :
      (e : Event) (s s' : DataConnection V P) (id : String) (h : ℕ) (q : List AgentMessage)
      → Spares j id e
      → IsServed s id h q
      → step x w plugins j config e s ≡ some s'
      → IsServed s' id h (q ++ brought j id e)
  step-Serves (arrives a) s s' id h q spare ((k, e, f), l, i) r =
      receive-Serves a.now a.random a.message s s' id h q spare.0 spare.1 ((k, e, f), l, i)
        (sym (step_arrives a s f) ∙ r)
  step-Serves idles s s' id h q spare v r = elim spare [ ]
  step-Serves dies s s' id h q spare ((k, e, f), l, i) r =
      unchanged-Serves s id h q ((k, e, f), l, i) s' (sym (step_dies s k e) ∙ r)
  step-Serves stops s s' id h q spare ((k, e, f), l, i) r =
      unchanged-Serves s id h q ((k, e, f), l, i) s' (sym (step_stops s e) ∙ r)

  -- While a connection was not killed, a data channel that is open, alone at its place, gets what the
  -- connection has for it and nothing else: after any events that end without a panic, of which none is a
  -- message that closes the connection or opens or closes a channel of its id, nor the idle timer's end,
  -- the connection still runs, the channel is still open, and what it has not read is what it had not
  -- before, followed by the agent messages of the requests with its id, in their order. What happens to the other
  -- channels meanwhile, and what cannot be decoded, changes nothing of that. What the channel's own
  -- goroutine does is not among the events.
  pub run-addressed :
      (es : List Event) (s s' : DataConnection V P) (id : String) (h : ℕ) (q : List AgentMessage)
      → IsServed s id h q
      → AllSpare j id es
      → run x w plugins j config es s ≡ some s'
      → IsServed s' id h (q ++ all_addressed j id es)
  unfolding run
  run-addressed [] s s' id h q v spare r = unchanged-Serves s id h q v s' r
  run-addressed (e ∷ es) s s' id h q v spare r =
      by_first (λ t. run-addressed es t s' id h (q ++ brought j id e))
        (step x w plugins j config e s) refl r
    where
      by_first :
          ((t : DataConnection V P)
            → IsServed t id h (q ++ brought j id e)
            → AllSpare j id es
            → run x w plugins j config es t ≡ some s'
            → IsServed s' id h ((q ++ brought j id e) ++ all_addressed j id es))
          → (o : Option (DataConnection V P)) → step x w plugins j config e s ≡ o
          → (elim o [ none ↦ none | some t ↦ run x w plugins j config es t ] ≡ some s')
          → IsServed s' id h (q ++ (brought j id e ++ all_addressed j id es))
      by_first rest none f r = absurd (ground (arith, r))
      by_first rest (some t) f r =
          subst (IsServed s' id h) (append_assoc q (brought j id e) (all_addressed j id es))
            (rest t (step-Serves e s t id h q spare.0 v f) spare.1 r)
