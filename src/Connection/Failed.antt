-- ===== src/Connection/Failed.antt =====
-- A data channel that could not be opened, at the agent's connection
-- (bctl/agent/controlchannel/dataconnection/connection.go).
use bzero.Shared.{ℕ, ◌≡◌, some, String, length, ok, err, arith}
use bzero.Mrtap.Externals.{Externals}
use bzero.Mrtap.Agent as Mrtap
use bzero.Mrtap.Agent.{Config}
use bzero.Channel.Types.{AgentMessage}
use bzero.Channel.Wire.{Wire}
use bzero.Channel.Broker
use bzero.Channel.Broker.{lookup, store}
use bzero.Channel.Broker.Laws.{lookup-store_self}
use bzero.Channel.Agent
use bzero.Channel.Agent.{ChannelError, DataChannel, Plugins}
use bzero.Connection.{
  Decoder, DataConnection, OpenDataChannelMessage, not_opened, opened, open_data_channel, forward,
}

module _ {V P : Type 0} (x : Externals V) (w : Wire ChannelError) (plugins : Plugins P)
    (j : Decoder) where
  forward-subscribed :
      (s : DataConnection V P) (m : AgentMessage) (h : ℕ)
      → lookup m.channel_id s.broker ≡ some (some h)
      → (forward x w plugins j m s).1 ≡ ok tt
  unfolding forward Broker.direct_message
  forward-subscribed s m h e = ground (arith, e)

  -- A data channel whose `New` fails is reported as not opened, and stays subscribed: right after it a message
  -- for its id is taken without an error, though no goroutine reads it.
  pub failed_open-subscribed :
      (config : Config) (now : ℕ) (random : String) (o : OpenDataChannelMessage)
      (s : DataConnection V P) (mt : Mrtap.Agent V) (e : ChannelError) (m : AgentMessage)
      → Mrtap.new x config ≡ ok mt
      → (Agent.new x w plugins o.data_channel_id mt now random o.syn).1 ≡ err e
      → m.channel_id ≡ o.data_channel_id
      → ((open_data_channel x w plugins j config now random o s).1 ≡ err (not_opened e))
        × ((forward x w plugins j m (open_data_channel x w plugins j config now random o s).0).1
            ≡ ok tt)
  unfolding open_data_channel opened Broker.subscribe
  failed_open-subscribed config now random o s mt e m k f same = (
    ground (arith, k, f),
    forward-subscribed (open_data_channel x w plugins j config now random o s).0 m
        (length s.channels)
        (ground (
          arith,
          k,
          f,
          same,
          lookup-store_self o.data_channel_id (some (length s.channels)) s.broker,
        )),
  )
