-- ===== src/Channel/Broker/Laws.antt =====
-- The broker as a map from ids to channels, over bzerolib/connection/broker/broker.go.
use bzero.Shared.{
  ◌+◌, ◌≡◌, ◌≢◌, refl, ap, ◌∙◌, true, Option, none, some, String, List, [], ◌∷◌, map, str_eq,
  eq_iff, length, arith, Bool-cases, inl, inr, ok, err,
}
use bzero.Channel.Types.{AgentMessage}
use bzero.Channel.Broker.{
  no_subscriber, no_subscribers, receive_each, broadcast, received, closed, Subscribers, lookup,
  store, erase, close, close_channel, num_channels, subscribe, direct_message,
}

module _ {H : Type 0} where
  -- No two subscribers have one id, as in a Go map.
  abbrev pub IsMap : Subscribers H → Type 0
  IsMap [] = Unit
  IsMap ((k, h) ∷ ps) = (lookup k ps ≡ none) × IsMap ps

  pub lookup-store_self :
      (id : String) (h : Option H) (b : Subscribers H) → lookup id (store id h b) ≡ some h
  unfolding lookup store
  lookup-store_self id h [] = ground (arith, eq_iff id id)
  lookup-store_self id h ((k, g) ∷ ps) = ground (arith, lookup-store_self id h ps)

  pub lookup-store_other :
      (id other' : String) (h : Option H) (b : Subscribers H)
      → id ≢ other'
      → lookup other' (store id h b) ≡ lookup other' b
  unfolding lookup store
  lookup-store_other id other' h [] n = ground (arith, eq_iff id other')
  lookup-store_other id other' h ((k, g) ∷ ps) n =
      ground (arith, lookup-store_other id other' h ps n, eq_iff k id, eq_iff k other')

  pub lookup-erase_self :
      (id : String) (b : Subscribers H) → IsMap b → lookup id (erase id b) ≡ none
  unfolding lookup erase
  lookup-erase_self id [] v = refl
  lookup-erase_self id ((k, g) ∷ ps) v =
      ground (arith, lookup-erase_self id ps v.1, v.0, eq_iff k id)

  pub lookup-erase_other :
      (id other' : String) (b : Subscribers H)
      → id ≢ other'
      → lookup other' (erase id b) ≡ lookup other' b
  unfolding lookup erase
  lookup-erase_other id other' [] n = refl
  lookup-erase_other id other' ((k, g) ∷ ps) n =
      ground (arith, lookup-erase_other id other' ps n, eq_iff k id, eq_iff k other')

  length-erase :
      (id : String) (h : Option H) (b : Subscribers H)
      → lookup id b ≡ some h
      → length (erase id b) + 1 ≡ length b
  unfolding lookup erase
  length-erase id h [] e = absurd (ground (arith, e))
  length-erase id h ((k, g) ∷ ps) e = elim (Bool-cases (str_eq k id)) [
    | inl f ↦ ground (arith, f)
    | inr f ↦ ground (arith, f, length-erase id h ps (ground (arith, e, f)))
  ]

  lookup-erase-none :
      (k id : String) (b : Subscribers H) → lookup k b ≡ none → lookup k (erase id b) ≡ none
  unfolding lookup erase
  lookup-erase-none k id [] e = refl
  lookup-erase-none k id ((j, g) ∷ ps) e = ground (arith, e, lookup-erase-none k id ps)

  pub erase-IsMap : (id : String) (b : Subscribers H) → IsMap b → IsMap (erase id b)
  unfolding erase
  erase-IsMap id [] v = tt
  erase-IsMap id ((k, g) ∷ ps) v = elim (Bool-cases (str_eq k id)) [
    | inl f ↦ rw f v.1
    | inr f ↦ rw f (lookup-erase-none k id ps v.0, erase-IsMap id ps v.1)
  ]

  pub store-IsMap :
      (id : String) (h : Option H) (b : Subscribers H) → IsMap b → IsMap (store id h b)
  unfolding store lookup
  store-IsMap id h [] v = (refl, tt)
  store-IsMap id h ((k, g) ∷ ps) v = elim (Bool-cases (str_eq k id)) [
    | inl f ↦ rw f v
    | inr f ↦ rw f (
      lookup-store_other id k h ps (λ e. ground (arith, f, eq_iff k id, e)) ∙ v.0,
      store-IsMap id h ps v.1,
    )
  ]

  -- A message for an id goes to the channel last subscribed under it, and a subscription changes nothing
  -- for any other id; the subscribers remain a map.
  pub subscribe-direct_message :
      (b : Subscribers H) (id : String) (h : H) (m : AgentMessage)
      → IsMap b
      → IsMap (subscribe b id (some h))
        × (direct_message (subscribe b id (some h)) id m ≡ (received h m ∷ [], ok tt))
        × ((other' : String)
            → id ≢ other'
            → direct_message (subscribe b id (some h)) other' m ≡ direct_message b other' m)
  unfolding subscribe direct_message
  subscribe-direct_message b id h m v = (
    store-IsMap id (some h) b v,
    ground (arith, lookup-store_self id (some h) b),
    λ other' n. ground (arith, lookup-store_other id other' (some h) b n),
  )

  -- Closing a channel that is subscribed closes it once and removes it: a message for its id is refused
  -- from then on, every other id is served as before, and the broker has one channel less.
  pub close_channel-removes :
      (b : Subscribers H) (id reason : String) (h : H) (m : AgentMessage)
      → IsMap b
      → lookup id b ≡ some (some h)
      → (b' : Subscribers H) × (close_channel b id reason ≡ (b', closed h reason ∷ [], ok true))
        × IsMap b'
        × (direct_message b' id m ≡ ([], err no_subscriber))
        × ((other' : String) → id ≢ other' → direct_message b' other' m ≡ direct_message b other' m)
        × (num_channels b' + 1 ≡ num_channels b)
  unfolding close_channel direct_message num_channels
  close_channel-removes b id reason h m v e = (
    erase id b,
    ground (arith, e),
    erase-IsMap id b v,
    ground (arith, lookup-erase_self id b v),
    λ other' n. ground (arith, lookup-erase_other id other' b n),
    length-erase id (some h) b e,
  )

  -- The channels that are not nil, in the map's order.
  abbrev pub live : Subscribers H → List H
  live [] = []
  live ((k, none) ∷ ps) = live ps
  live ((k, some h) ∷ ps) = h ∷ live ps

  -- Every subscriber is a channel.
  abbrev pub AllLive : Subscribers H → Type 0
  AllLive [] = Unit
  AllLive ((k, h) ∷ ps) = (h ≢ none) × AllLive ps

  -- Where no subscriber is nil, `Close` closes each of them once and leaves the broker empty, and
  -- `Broadcast` is then refused.
  pub close-all :
      (b : Subscribers H) (reason : String) (m : AgentMessage)
      → AllLive b
      → (close b reason ≡ ([], map (λ h. closed h reason) (live b), ok tt))
        × (broadcast (close b reason).0 m ≡ ([], err no_subscribers))
  unfolding close broadcast
  close-all b reason m v = (closes b v, ground (arith, closes b v))
    where
      closes :
          (b : Subscribers H)
          → AllLive b
          → close b reason ≡ ([], map (λ h. closed h reason) (live b), ok tt)
      closes [] v = refl
      closes ((k, none) ∷ ps) v = absurd (v.0 refl)
      closes ((k, some h) ∷ ps) v = ground (arith, closes ps v.1)

  receive_each-live :
      (b : Subscribers H) (m : AgentMessage) → receive_each b m ≡ map (λ h. received h m) (live b)
  unfolding receive_each
  receive_each-live [] m = refl
  receive_each-live ((k, none) ∷ ps) m = receive_each-live ps m
  receive_each-live ((k, some h) ∷ ps) m = ap (◌∷◌ (received h m)) (receive_each-live ps m)

  -- `Broadcast` on a broker with subscribers reaches every channel once, in the map's order, and passes
  -- over those that are nil.
  pub broadcast-live :
      (b : Subscribers H) (m : AgentMessage)
      → b ≢ []
      → broadcast b m ≡ (map (λ h. received h m) (live b), ok tt)
  unfolding broadcast
  broadcast-live [] m n = absurd (n refl)
  broadcast-live (p ∷ ps) m n = ap (λ calls. (calls, ok tt)) (receive_each-live (p ∷ ps) m)
