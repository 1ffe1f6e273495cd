-- ===== src/Connection/Served.antt =====
-- What a handler of an agent's connection leaves of a channel that is open
-- (bctl/agent/controlchannel/dataconnection/connection.go).
use bzero.Shared.{
  ℕ, ◌≡◌, ◌≢◌, refl, sym, ap, subst, ◌∙◌, true, false, Option, none, some, String, List, [], ◌∷◌,
  ◌++◌, append-nil, length, str_eq, eq_iff, if◌then◌else◌, Bool-cases, inl, inr, Outcome, ok, err,
  panic, arith,
}
use bzero.Mrtap.Externals.{Externals}
use bzero.Channel.Types.{AgentMessage}
use bzero.Channel.Wire.{Wire}
use bzero.Channel.Broker
use bzero.Channel.Broker.{Subscribers, Call, received, closed, lookup, store, erase}
use bzero.Channel.Agent
use bzero.Channel.Agent.{ChannelError, DataChannel, Plugins}
use bzero.Connection.{
  Decoder, DataConnection, get_elem?, logged, make, make_all, opened, close_data_channel, forward,
}
use bzero.Connection.Places.{
  LeadsTo, get_elem?-change_self, get_elem?-change_other, get_elem?-append, store-LeadsTo,
  erase-LeadsTo,
}

-- What a forwarded message adds to what the channel of an id has not read.
abbrev pub added : String → AgentMessage → List AgentMessage
added id m = if str_eq m.channel_id id then m ∷ [] else []

module _ {V P : Type 0} where
  -- The channel at a place is alive, with the messages that it has not read.
  abbrev pub HasInput : List (DataChannel V P) → ℕ → List AgentMessage → Type 0
  HasInput cs h q =
      (c : DataChannel V P) × (get_elem? cs h ≡ some c) × (c.is_alive ≡ true) × (c.input_chan ≡ q)

  -- The connection was not killed.
  abbrev pub IsRunning : DataConnection V P → Type 0
  IsRunning s = (s.killed ≡ none) × (s.dead ≡ false) × (s.stopped ≡ false)

  -- The connection runs, the channel of an id is open, and `q` is what it has not read.
  abbrev pub IsServed : DataConnection V P → String → ℕ → List AgentMessage → Type 0
  IsServed s id h q = IsRunning s × LeadsTo s.broker id h × HasInput s.channels h q

module _ {V P : Type 0} where
  pub same_result :
      (o : Option (DataConnection V P)) (t s' : DataConnection V P)
      → o ≡ some t
      → o ≡ some s'
      → t ≡ s'
  same_result o t s' e f = ground (arith, e, f)

module _ {V P : Type 0} (x : Externals V) (w : Wire ChannelError) (plugins : Plugins P)
    (j : Decoder) where
  received-HasInput :
      (cs : List (DataChannel V P)) (h : ℕ) (m : AgentMessage) (q : List AgentMessage)
      → HasInput cs h q
      → HasInput (make x w plugins j (received h m) cs) h (q ++ m ∷ [])
  unfolding make Agent.receive
  received-HasInput cs h m q (c, e, alive, i) = (
    Agent.receive x w plugins c m,
    get_elem?-change_self h (λ c. Agent.receive x w plugins c m) cs c e,
    ground (arith, alive),
    ground (arith, alive, i),
  )

  received-HasInput_other :
      (cs : List (DataChannel V P)) (g h : ℕ) (m : AgentMessage) (q : List AgentMessage)
      → g ≢ h
      → HasInput cs h q
      → HasInput (make x w plugins j (received g m) cs) h q
  unfolding make
  received-HasInput_other cs g h m q d (c, e, alive, i) =
      (c, get_elem?-change_other g h (λ c. Agent.receive x w plugins c m) cs d ∙ e, alive, i)

  closed-HasInput_other :
      (cs : List (DataChannel V P)) (g h : ℕ) (reason : String) (q : List AgentMessage)
      → g ≢ h
      → HasInput cs h q
      → HasInput (make x w plugins j (closed g reason) cs) h q
  unfolding make
  closed-HasInput_other cs g h reason q d (c, e, alive, i) =
      (c, get_elem?-change_other g h (λ c. record c { is_alive = false }) cs d ∙ e, alive, i)

  forward_own :
      (s : DataConnection V P) (m : AgentMessage) (h : ℕ)
      → lookup m.channel_id s.broker ≡ some (some h)
      → logged (forward x w plugins j m s)
        ≡ some (record s { channels = make x w plugins j (received h m) s.channels })
  unfolding forward Broker.direct_message make_all
  forward_own s m h e = ground (arith, e)

  forward_unknown :
      (s : DataConnection V P) (m : AgentMessage)
      → lookup m.channel_id s.broker ≡ none
      → logged (forward x w plugins j m s) ≡ some s
  unfolding forward Broker.direct_message make_all
  forward_unknown s m e = ground (arith, e)

  forward_nil :
      (s : DataConnection V P) (m : AgentMessage)
      → lookup m.channel_id s.broker ≡ some none
      → logged (forward x w plugins j m s) ≡ none
  unfolding forward Broker.direct_message make_all
  forward_nil s m e = ground (arith, e)

  pub forward-IsServed :
      (s s' : DataConnection V P) (m : AgentMessage) (id : String) (h : ℕ) (q : List AgentMessage)
      → IsServed s id h q
      → logged (forward x w plugins j m s) ≡ some s'
      → IsServed s' id h (q ++ added id m)
  forward-IsServed s s' m id h q (run, (v, e, only), i) r =
      elim (Bool-cases (str_eq m.channel_id id)) [
        | inl y ↦
            let own =
              subst (λ k. lookup k s.broker ≡ some (some h)) (sym ((eq_iff m.channel_id id).0 y))
                e in
            rw y (
              subst (λ t. IsServed t id h (q ++ m ∷ []))
                (same_result _ _ s' (forward_own s m h own) r)
                (run, (v, e, only), received-HasInput s.channels h m q i))
        | inr y ↦ rw y (
            subst (IsServed s' id h) (sym (append-nil q)) (
              other_served (λ f. ground (arith, y, eq_iff m.channel_id id, f))
                (lookup m.channel_id s.broker) refl))
      ]
    where
      other_served :
          (m.channel_id ≢ id)
          → (o : Option (Option ℕ)) → lookup m.channel_id s.broker ≡ o
          → IsServed s' id h q
      other_served d none f =
          subst (λ t. IsServed t id h q) (same_result _ _ s' (forward_unknown s m f) r)
            (run, (v, e, only), i)
      other_served d (some none) f = absurd (ground (arith, forward_nil s m f, r))
      other_served d (some (some g)) f =
          subst (λ t. IsServed t id h q) (same_result _ _ s' (forward_own s m g f) r)
            (
              run,
              (v, e, only),
              received-HasInput_other s.channels g h m q
                  (λ k. only m.channel_id (λ n. d (sym n)) (f ∙ ap (λ n. some (some n)) k)) i,
            )

  close_found :
      (s : DataConnection V P) (other' : String) (g : ℕ)
      → lookup other' s.broker ≡ some (some g)
      → logged (close_data_channel x w plugins j other' s)
        ≡ some (record s {
          broker = erase other' s.broker;
          channels =
              make x w plugins j
                (closed g "received close data channel control message from daemon")
                s.channels;
        })
  unfolding close_data_channel Broker.close_channel make_all
  close_found s other' g e = ground (arith, e)

  close_unknown :
      (s : DataConnection V P) (other' : String)
      → lookup other' s.broker ≡ none
      → logged (close_data_channel x w plugins j other' s) ≡ some s
  unfolding close_data_channel Broker.close_channel make_all
  close_unknown s other' e = ground (arith, e)

  close_nil :
      (s : DataConnection V P) (other' : String)
      → lookup other' s.broker ≡ some none
      → logged (close_data_channel x w plugins j other' s) ≡ none
  unfolding close_data_channel Broker.close_channel make_all
  close_nil s other' e = ground (arith, e)

  pub close-IsServed :
      (s s' : DataConnection V P) (other' id : String) (h : ℕ) (q : List AgentMessage)
      → id ≢ other'
      → IsServed s id h q
      → logged (close_data_channel x w plugins j other' s) ≡ some s'
      → IsServed s' id h q
  close-IsServed s s' other' id h q d (run, (v, e, only), i) r =
      by_lookup (lookup other' s.broker) refl
    where
      by_lookup : (o : Option (Option ℕ)) → lookup other' s.broker ≡ o → IsServed s' id h q
      by_lookup none f =
          subst (λ t. IsServed t id h q) (same_result _ _ s' (close_unknown s other' f) r)
            (run, (v, e, only), i)
      by_lookup (some none) f = absurd (ground (arith, close_nil s other' f, r))
      by_lookup (some (some g)) f =
          subst (λ t. IsServed t id h q) (same_result _ _ s' (close_found s other' g f) r)
            (
              run,
              erase-LeadsTo s.broker id other' h d (v, e, only),
              closed-HasInput_other s.channels g h _ q
                  (λ k. only other' d (f ∙ ap (λ n. some (some n)) k)) i,
            )

  -- A channel that is opened stands after those that are there.
  opened-IsServed :
      (s : DataConnection V P) (c : DataChannel V P) (sent : List AgentMessage) (id other' : String)
      (h : ℕ) (q : List AgentMessage)
      → id ≢ other'
      → IsServed s id h q
      → IsServed
          (record s {
            broker = store other' (some (length s.channels)) s.broker;
            channels = s.channels ++ c ∷ [];
            send_queue = sent;
          })
          id
          h
          q
  opened-IsServed s c sent id other' h q d (run, l, (b, e, alive, i)) =
      let kept = get_elem?-append h s.channels c b e in
      (
        run,
        store-LeadsTo s.broker id other' h (length s.channels) d (λ k. omega (arith, kept.1, k)) l,
        (b, kept.0, alive, i),
      )

  pub open-IsServed :
      (s s' : DataConnection V P) (id other' : String) (h : ℕ) (q : List AgentMessage)
      (c : DataChannel V P) (result : Outcome ChannelError (Unit {0}))
      → id ≢ other'
      → IsServed s id h q
      → logged (opened x w plugins j other' (c, result) s) ≡ some s'
      → IsServed s' id h q
  unfolding opened Broker.subscribe
  open-IsServed s s' id other' h q c (ok u) d v r =
      subst (λ t. IsServed t id h q) (same_result _ _ s' refl r)
        (opened-IsServed s c s.send_queue id other' h q d v)
  open-IsServed s s' id other' h q c (err e) d v r =
      subst (λ t. IsServed t id h q) (same_result _ _ s' refl r)
        (opened-IsServed s (record c { output_chan = [] }) (s.send_queue ++ c.output_chan) id other'
          h q d v)
  open-IsServed s s' id other' h q c panic d v r = absurd (ground (arith, r))
