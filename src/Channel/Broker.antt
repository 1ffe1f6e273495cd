-- ===== src/Channel/Broker.antt =====
-- bzerolib/connection/broker/broker.go: which channel takes the messages of an id. `H` is a channel, an
-- interface that may be nil; a method gives the calls it makes on channels, in order, beside its
-- result. The Go map is a list of its pairs, and the order of a `range` over it is the list's.
pub mod Laws
use bzero.Shared.{
  ℕ, Bool, true, false, Option, none, some, String, List, [], ◌∷◌, ◌++◌, map, str_eq, if◌then◌else◌,
  length, Outcome, ok, err, panic,
}
use bzero.Channel.Types.{AgentMessage}

pub data BrokerError : Type 0 where
  no_subscribers no_subscriber : BrokerError

pub data Call (H : Type 0) : Type 0 where
  received : H → AgentMessage → Call H
  closed : H → String → Call H

abbrev pub Subscribers : Type 0 → Type 0
Subscribers H = List (String × Option H)

module _ {H : Type 0} where
  unfoldable pub new : Subscribers H
  new = []

  -- The reads and writes of the Go map.
  unfoldable pub lookup : String → Subscribers H → Option (Option H)
  lookup id [] = none
  lookup id ((k, h) ∷ ps) = if str_eq k id then some h else lookup id ps

  unfoldable pub store : String → Option H → Subscribers H → Subscribers H
  store id h [] = (id, h) ∷ []
  store id h ((k, g) ∷ ps) = if str_eq k id then (k, h) ∷ ps else (k, g) ∷ store id h ps

  unfoldable pub erase : String → Subscribers H → Subscribers H
  erase id [] = []
  erase id ((k, g) ∷ ps) = if str_eq k id then ps else (k, g) ∷ erase id ps

  -- `Close`: a nil channel panics, with those before it closed and deleted.
  unfoldable pub close :
      Subscribers H → String → Subscribers H × List (Call H) × Outcome BrokerError (Unit {0})
  close [] reason = ([], [], ok tt)
  close ((k, none) ∷ ps) reason = ((k, none) ∷ ps, [], panic)
  close ((k, some h) ∷ ps) reason =
      let rest = close ps reason in (rest.0, closed h reason ∷ rest.1, rest.2)

  -- `CloseChannel`
  unfoldable pub close_channel :
      Subscribers H → String → String → Subscribers H × List (Call H) × Outcome BrokerError Bool
  close_channel b id reason = elim (lookup id b) [
    | none ↦ (b, [], ok false)
    | some none ↦ (b, [], panic)
    | some (some h) ↦ (erase id b, closed h reason ∷ [], ok true)
  ]

  unfoldable pub num_channels : Subscribers H → ℕ
  num_channels b = length b

  unfoldable pub subscribe : Subscribers H → String → Option H → Subscribers H
  subscribe b id h = store id h b

  -- The loop of `Broadcast`, which passes over a nil channel.
  unfoldable pub receive_each : Subscribers H → AgentMessage → List (Call H)
  receive_each [] m = []
  receive_each ((k, none) ∷ ps) m = receive_each ps m
  receive_each ((k, some h) ∷ ps) m = received h m ∷ receive_each ps m

  unfoldable pub broadcast :
      Subscribers H → AgentMessage → List (Call H) × Outcome BrokerError (Unit {0})
  broadcast [] m = ([], err no_subscribers)
  broadcast (p ∷ ps) m = (receive_each (p ∷ ps) m, ok tt)

  unfoldable pub direct_message :
      Subscribers H → String → AgentMessage → List (Call H) × Outcome BrokerError (Unit {0})
  direct_message b id m = elim (lookup id b) [
    | none ↦ ([], err no_subscriber)
    | some none ↦ ([], panic)
    | some (some h) ↦ (received h m ∷ [], ok tt)
  ]
