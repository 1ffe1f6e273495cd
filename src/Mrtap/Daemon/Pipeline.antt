-- ===== src/Mrtap/Daemon/Pipeline.antt =====
-- What `pipeline` and `Inbox` do where they succeed, and the bound on the messages in flight.
use bzero.Shared.{
  ◌+◌, ◌≤◌, ◌≡◌, ◌≢◌, some, String, [], ◌∷◌, ◌++◌, eq_iff, arith, length, true, Outcome, ok,
}
use bzero.Mrtap.Types.{Bytes, Message}
use bzero.Mrtap.Externals.{Externals}
use bzero.Mrtap.Message
use bzero.Mrtap.PipelineMap.{OrderedMap}
use bzero.Mrtap.PipelineMap.Laws.{length-put}
use bzero.Mrtap.Daemon.{
  Daemon, DaemonError, Credential, pipeline, ship, add_to_pipeline_map, ack_to_build_off,
  build_response, inbox, is_open,
}

module _ {V M C : Type 0} (x : Externals V) (o : OrderedMap M) (c : Credential C) where
  -- The state after a message was shipped.
  abbrev pub shipped : Daemon V M C → Message → Daemon V M C
  shipped d msg =
      let map = o.set d.pipeline_map (Message.hash x msg) msg in
      record d {
        pipeline_map = map;
        pipeline_length = length (o.pairs map);
        outbox_queue = d.outbox_queue ++ (msg ∷ []);
      }

  pub ship_lem :
      (d : Daemon V M C) (msg : Message)
      → Message.hash x msg ≢ ""
      → ship x o c d msg ≡ (shipped d msg, ok tt)
  unfolding ship add_to_pipeline_map
  ship_lem d msg h = ground (arith, eq_iff (Message.hash x msg) "")

  pub pipeline_lem :
      (d : Daemon V M C) (action : String) (bytes : Bytes) (ack msg : Message)
      → action ≢ ""
      → ack_to_build_off x o c d ≡ ok ack
      → build_response x o c d ack action bytes ≡ ok msg
      → Message.hash x msg ≢ ""
      → pipeline x o c d action bytes ≡ (shipped d msg, ok tt)
  unfolding pipeline
  pipeline_lem d action bytes ack msg named next built filled =
      ground (arith, eq_iff action "", ship_lem d msg filled)

  ship-length :
      (d : Daemon V M C) (msg : Message)
      → length (o.pairs (ship x o c d msg).0.pipeline_map) ≤ length (o.pairs d.pipeline_map) + 1
  unfolding ship add_to_pipeline_map
  ship-length d msg = ground (
    arith,
    o.pairs-set d.pipeline_map (Message.hash x msg) msg,
    length-put (Message.hash x msg) msg (o.pairs d.pipeline_map),
  )

  ship-frame :
      (d : Daemon V M C) (msg : Message)
      → (ship x o c d msg).0.pre_pipelining_agent ≡ d.pre_pipelining_agent
  unfolding ship add_to_pipeline_map
  ship-frame d msg = ground arith

  -- `pipeline` does not change which kind of agent the daemon takes the other end for.
  pub pipeline-frame :
      (d : Daemon V M C) (action : String) (bytes : Bytes)
      → (pipeline x o c d action bytes).0.pre_pipelining_agent ≡ d.pre_pipelining_agent
  unfolding pipeline
  pipeline-frame d action bytes = grind (arith, ship-frame)

  -- Whatever `pipeline` comes to, it adds one message to those in flight at most.
  pipeline-length :
      (d : Daemon V M C) (action : String) (bytes : Bytes)
      → length (o.pairs (pipeline x o c d action bytes).0.pipeline_map)
        ≤ length (o.pairs d.pipeline_map) + 1
  unfolding pipeline
  pipeline-length d action bytes = grind (arith, ship-length)

  -- A call of `Inbox` that does not wait leaves no more messages in flight than the pipeline's limit,
  -- and none at all is added while the handshake is not complete.
  pub inbox-length :
      (d d' : Daemon V M C) (action : String) (bytes : Bytes) (r : Outcome DaemonError (Unit {0}))
      → inbox x o c d action bytes ≡ some (d', r)
      → (d.is_handshake_complete ≡ true) × (length (o.pairs d'.pipeline_map) ≤ d.pipeline_limit)
  unfolding inbox is_open
  inbox-length d d' action bytes r h = ground (arith, pipeline-length d action bytes)
