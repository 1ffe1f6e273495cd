-- ===== src/Connection/Shutdown.antt =====
-- What becomes of a connection that is killed
-- (bctl/agent/controlchannel/dataconnection/connection.go).
use bzero.Shared.{
  ℕ, zero, suc, ◌≡◌, ◌⊎◌, inl, inr, refl, sym, ap, subst, ◌∙◌, true, false, none, some, String,
  List, [], ◌∷◌, map, str_eq, Bool-cases, arith,
}
use bzero.Mrtap.Externals.{Externals}
use bzero.Mrtap.Agent.{Config}
use bzero.Channel.Types.{AgentMessage, close_daemon_websocket, current_version}
use bzero.Channel.Wire.{Wire}
use bzero.Channel.Broker.{Subscribers, closed, lookup}
use bzero.Channel.Broker.Laws.{AllLive, live, close-all}
use bzero.Channel.Agent.{ChannelError, DataChannel, Plugins}
use bzero.Connection.{
  Decoder, DataConnection, CloseReason, Event, arrives, idles, dies, stops, get_elem?, change, make,
  make_all, send, die, step, run,
}
use bzero.Connection.Served.{same_result}

module _ {A : Type 0} where
  get_elem?-change_cases :
      (m n : ℕ) (f : A → A) (cs : List A) (c : A)
      → get_elem? (change m f cs) n ≡ some c
      → (b : A) × (get_elem? cs n ≡ some b) × ((c ≡ f b) ⊎ (c ≡ b))
  unfolding get_elem? change
  get_elem?-change_cases m n f [] c e = absurd (ground (arith, e))
  get_elem?-change_cases zero zero f (b ∷ cs) c e = (b, refl, inl (ground (arith, e)))
  get_elem?-change_cases zero (suc n) f (b ∷ cs) c e = (c, e, inr refl)
  get_elem?-change_cases (suc m) zero f (b ∷ cs) c e = (b, refl, inr (ground (arith, e)))
  get_elem?-change_cases (suc m) (suc n) f (b ∷ cs) c e = get_elem?-change_cases m n f cs c e

  get_elem?-change_at :
      (n : ℕ) (f : A → A) (cs : List A) (c : A)
      → get_elem? (change n f cs) n ≡ some c
      → (b : A) × (c ≡ f b)
  unfolding get_elem? change
  get_elem?-change_at n f [] c e = absurd (ground (arith, e))
  get_elem?-change_at zero f (b ∷ cs) c e = (b, ground (arith, e))
  get_elem?-change_at (suc n) f (b ∷ cs) c e = get_elem?-change_at n f cs c e

module _ {V P : Type 0} (x : Externals V) (w : Wire ChannelError) (plugins : Plugins P)
    (j : Decoder) (reason : String) where
  abbrev IsClosed : List (DataChannel V P) → ℕ → Type 0
  IsClosed cs h = (c : DataChannel V P) → get_elem? cs h ≡ some c → c.is_alive ≡ false

  close_one :
      (h : ℕ) (cs : List (DataChannel V P)) → IsClosed (make x w plugins j (closed h reason) cs) h
  unfolding make
  close_one h cs c e =
      ap (λ d. d.is_alive) (get_elem?-change_at h (λ d. record d { is_alive = false }) cs c e).1

  stays_closed :
      (g h : ℕ) (cs : List (DataChannel V P))
      → IsClosed cs h
      → IsClosed (make x w plugins j (closed g reason) cs) h
  unfolding make
  stays_closed g h cs v c e =
      let from = get_elem?-change_cases g h (λ d. record d { is_alive = false }) cs c e in
      elim (from.2) [
        | inl k ↦ ap (λ d. d.is_alive) k
        | inr k ↦ ap (λ d. d.is_alive) k ∙ v from.0 (from.1)
      ]

  all_stay_closed :
      (hs : List ℕ) (h : ℕ) (cs : List (DataChannel V P))
      → IsClosed cs h
      → IsClosed (make_all x w plugins j (map (λ g. closed g reason) hs) cs) h
  unfolding make_all
  all_stay_closed [] h cs v = v
  all_stay_closed (g ∷ hs) h cs v = all_stay_closed hs h _ (stays_closed g h cs v)

  subscribed-IsClosed :
      (b : Subscribers ℕ) (id : String) (h : ℕ) (cs : List (DataChannel V P))
      → lookup id b ≡ some (some h)
      → IsClosed (make_all x w plugins j (map (λ g. closed g reason) (live b)) cs) h
  unfolding lookup make_all
  subscribed-IsClosed [] id h cs e = absurd (ground (arith, e))
  subscribed-IsClosed ((k, none) ∷ ps) id h cs e =
      subscribed-IsClosed ps id h cs (ground (arith, e))
  subscribed-IsClosed ((k, some g) ∷ ps) id h cs e = elim (Bool-cases (str_eq k id)) [
    | inl y ↦
        let same : g ≡ h = ground (arith, e, y) in
        all_stay_closed (live ps) h _
          (subst (λ n. IsClosed (make x w plugins j (closed g reason) cs) n) same (close_one g cs))
    | inr y ↦ subscribed-IsClosed ps id h _ (ground (arith, e, y))
  ]

module _ {V P : Type 0} (x : Externals V) (w : Wire ChannelError) (plugins : Plugins P)
    (j : Decoder) (config : Config) where
  -- The connection after its dying branch.
  abbrev left_dead : DataConnection V P → DataConnection V P
  left_dead s = record s {
    ready = false;
    broker = [];
    channels =
        make_all x w plugins j (map (λ h. closed h "connection closed") (live s.broker)) s.channels;
    dead = true;
    send_queue = [];
  }

  step-left_dead :
      (s : DataConnection V P) (reason : CloseReason)
      → s.killed ≡ some reason
      → s.dead ≡ false
      → AllLive s.broker
      → step x w plugins j config dies s ≡ some (left_dead s)
  unfolding step die send
  step-left_dead s reason k e v =
      ground (arith, k, e, (close-all s.broker "connection closed" farewell v).0)
    where
      farewell : AgentMessage
      farewell = record {
        channel_id = "";
        message_type = close_daemon_websocket;
        schema_version = current_version;
        message_payload = [];
      }

  step-stopped :
      (e : Event) (s : DataConnection V P)
      → s.dead ≡ true
      → s.stopped ≡ true
      → step x w plugins j config e s ≡ some s
  unfolding step
  step-stopped (arrives a) s d t = rw t refl
  step-stopped idles s d t = rw t refl
  step-stopped dies s d t = rw d refl
  step-stopped stops s d t = ground (arith, d, t)

  step_stops :
      (s : DataConnection V P)
      → s.dead ≡ true
      → step x w plugins j config stops s ≡ some (record s { stopped = true })
  unfolding step
  step_stops s d = ground (arith, d)

  run-stopped :
      (es : List Event) (s : DataConnection V P)
      → s.dead ≡ true
      → s.stopped ≡ true
      → run x w plugins j config es s ≡ some s
  unfolding run
  run-stopped [] s d t = refl
  run-stopped (e ∷ es) s d t =
      ap (λ o. elim o [ none ↦ none | some r ↦ run x w plugins j config es r ])
        (step-stopped e s d t)
      ∙ run-stopped es s d t

  -- A killed connection whose subscribers are channels, at its dying branch: it is not ready any more, no channel
  -- is subscribed, and each that was is closed. Once its loop has stopped after that, nothing that
  -- comes changes it.
  pub killed-closes :
      (s s' : DataConnection V P) (reason : CloseReason) (id : String) (h : ℕ) (c : DataChannel V P)
      (es : List Event)
      → s.killed ≡ some reason
      → s.dead ≡ false
      → AllLive s.broker
      → step x w plugins j config dies s ≡ some s'
      → lookup id s.broker ≡ some (some h)
      → get_elem? s'.channels h ≡ some c
      → (s'.ready ≡ false)
        × (s'.broker ≡ [])
        × (c.is_alive ≡ false)
        × (run x w plugins j config (stops ∷ es) s' ≡ some (record s' { stopped = true }))
  unfolding run step
  killed-closes s s' reason id h c es k d v r l e =
      let same = same_result _ (left_dead s) s' (step-left_dead s reason k d v) r in
      let dead : s'.dead ≡ true = sym (ap (λ t. t.dead) same) in
      (
        sym (ap (λ t. t.ready) same),
        sym (ap (λ t. t.broker) same),
        subscribed-IsClosed x w plugins j "connection closed" s.broker id h s.channels l c
            (ap (λ t. get_elem? t.channels h) same ∙ e),
        ap (λ o. elim o [ none ↦ none | some t ↦ run x w plugins j config es t ])
              (step_stops s' dead)
            ∙ run-stopped es (record s' { stopped = true }) dead refl,
      )
