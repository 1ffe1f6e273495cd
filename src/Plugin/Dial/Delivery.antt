-- ===== src/Plugin/Dial/Delivery.antt =====
-- The db action downstream: what the agent reads from its TCP connection and streams, against what the
-- daemon writes to its local connection (bctl/agent and bctl/daemon, plugin/db/actions/dial/dial.go).
use bzero.Shared.{
  ℕ, zero, suc, ◌≡◌, refl, sym, ap, ◌∙◌, Bool, true, false, not, Option, none, some, String, List,
  [], ◌∷◌, ◌++◌, append_assoc, append-nil, if◌then◌else◌, inl, inr, length, take, arith, Bool-cases,
  not_cancel,
}
use bzero.Mrtap.Types.{Bytes}
use bzero.Plugin.InOrder.{
  Numbered, Covers, KeepsAlive, pick, deliver, arrive_all-deliver, arrive_all_prefix, deliver_on,
  deliver_off,
}
use bzero.Plugin.Stream.{
  StreamType, StreamMessage, Base64, IsBase64, number, is_legacy, db_stream, db_stream_end, stream,
  error,
}
use bzero.Plugin.Dial.Agent.{Read, pump, send_stream_message, got, eof, failed, dead}
use bzero.Plugin.Dial.Daemon.{Local, process, process_as, write_local, fresh, receive_streams}

-- The contents that reach a local connection that takes them: every read, and in the messages from 202204 on
-- the bytes of the last one.
abbrev pub contents : String → List Read → List Bytes
contents version [] = []
contents version (dead ∷ reads) = []
contents version (failed text ∷ reads) = []
contents version (eof bytes ∷ reads) = if is_legacy version then [] else bytes ∷ []
contents version (got bytes ∷ reads) = bytes ∷ contents version reads

-- Whether the agent read to the end.
abbrev pub reaches_end : List Read → Bool
reaches_end [] = false
reaches_end (dead ∷ reads) = false
reaches_end (failed text ∷ reads) = false
reaches_end (eof bytes ∷ reads) = true
reaches_end (got bytes ∷ reads) = reaches_end reads

module _ (b : Base64) (accepts : List Bytes → Bytes → Bool)
    (takes : (w : List Bytes) (bytes : Bytes) → accepts w bytes ≡ true) where
  write_local-alive :
      (o : Option Bytes) (l : Local) → l.alive ≡ true → (write_local b accepts o l).alive ≡ true
  unfolding write_local
  write_local-alive none l h = h
  write_local-alive (some bytes) l h = ground (arith, takes l.handed bytes)

  process_as-alive :
      (t : StreamType) (m : StreamMessage) (l : Local)
      → l.alive ≡ true
      → (process_as b accepts t m l).0.alive ≡ true
  unfolding process_as
  process_as-alive db_stream m l h = write_local-alive (b.decode m.content) l h
  process_as-alive stream m l h = write_local-alive (b.decode m.content) l h
  process_as-alive db_stream_end m l h = h
  process_as-alive _ m l h = h

  process-KeepsAlive : KeepsAlive number (λ (l : Local). l.alive) (process b accepts)
  unfolding process
  process-KeepsAlive m l h = process_as-alive m.stream_type m l h

module _ (b : Base64) (version : String) where
  pub pump-Numbered : (n : ℕ) (reads : List Read) → Numbered number n (pump b version n reads)
  unfolding pump send_stream_message
  pump-Numbered n [] = tt
  pump-Numbered n (dead ∷ reads) = tt
  pump-Numbered n (failed text ∷ reads) = (refl, tt)
  pump-Numbered n (eof bytes ∷ reads) = (refl, tt)
  pump-Numbered n (got bytes ∷ reads) = (refl, pump-Numbered (suc n) reads)

  module _ (accepts : List Bytes → Bytes → Bool) (sound : IsBase64 b) where
    process_read :
        (n : ℕ) (bytes : Bytes) (l : Local)
        → process b accepts
            (send_stream_message b version n
              (if is_legacy version then db_stream else stream)
              true
              bytes)
            l
          ≡ (write_local b accepts (some bytes) l, true)
    unfolding process process_as send_stream_message
    process_read n bytes l = grind (arith, sound bytes)

    process_end :
        (n : ℕ) (bytes : Bytes) (l : Local)
        → process b accepts
            (send_stream_message b version n
              (if is_legacy version then db_stream_end else stream)
              false
              bytes)
            l
          ≡ (if is_legacy version then l else write_local b accepts (some bytes) l, false)
    unfolding process process_as send_stream_message
    process_end n bytes l = grind (arith, sound bytes)

    process_error :
        (n : ℕ) (text : Bytes) (l : Local)
        → process b accepts (send_stream_message b version n error false text) l ≡ (l, true)
    unfolding process process_as send_stream_message
    process_error n text l = refl

    handed-write_local :
        (bytes : Bytes) (l : Local)
        → (write_local b accepts (some bytes) l).handed ≡ l.handed ++ bytes ∷ []
    unfolding write_local
    handed-write_local bytes l = ground arith

    settled : (k : ℕ) (l : Local) → (deliver (process b accepts) (take k []) l).0.handed ≡ l.handed
    unfolding deliver
    settled zero l = refl
    settled (suc k) l = refl

    ended :
        (bytes : Bytes) (l : Local)
        → (if is_legacy version then l else write_local b accepts (some bytes) l).handed
          ≡ l.handed ++ take 1 (contents version (eof bytes ∷ []))
    ended bytes l = elim (Bool-cases (is_legacy version)) [
      | inl old ↦ rw old (sym (append-nil _))
      | inr new ↦ rw new (handed-write_local bytes l)
    ]

    -- The handler over the first messages of what the agent streams.
    deliver-pump :
        (k n : ℕ) (reads : List Read) (l : Local)
        → (j : ℕ) × ((deliver (process b accepts) (take k (pump b version n reads)) l).0.handed
            ≡ l.handed ++ take j (contents version reads))
    unfolding pump deliver
    deliver-pump zero n reads l = (0, sym (append-nil _))
    deliver-pump (suc k) n [] l = (0, sym (append-nil _))
    deliver-pump (suc k) n (dead ∷ reads) l = (0, sym (append-nil _))
    deliver-pump (suc k) n (failed text ∷ reads) l =
        (0, rw (process_error n text l) (settled k l ∙ sym (append-nil _)))
    deliver-pump (suc k) n (eof bytes ∷ reads) l = (
      1,
      rw (deliver_off (process b accepts) _ (take k []) l _ (process_end n bytes l))
          (ended bytes l),
    )
    deliver-pump (suc k) n (got bytes ∷ reads) l =
        let later = deliver-pump k (suc n) reads (write_local b accepts (some bytes) l) in
        (
          suc later.0,
          rw
              (deliver_on (process b accepts) _ (take k (pump b version (suc n) reads)) l _
                (process_read n bytes l))
              (later.1
                ∙ ap (λ w. w ++ take later.0 (contents version reads)) (handed-write_local bytes l)
                ∙ append_assoc l.handed (bytes ∷ []) (take later.0 (contents version reads))),
        )

    module _ (takes : (w : List Bytes) (bytes : Bytes) → accepts w bytes ≡ true) where
      write_local_takes :
          (bytes : Bytes) (l : Local)
          → write_local b accepts (some bytes) l ≡ record l { handed = l.handed ++ bytes ∷ [] }
      unfolding write_local
      write_local_takes bytes l = ground (arith, takes l.handed bytes)

      last :
          (bytes : Bytes) (l : Local)
          → ◌≡◌ {A = Local × Bool}
              (if is_legacy version then l else write_local b accepts (some bytes) l, false)
              (record l { handed = l.handed ++ contents version (eof bytes ∷ []) }, false)
      last bytes l = elim (Bool-cases (is_legacy version)) [
        | inl old ↦ rw old (simp append-nil)
        | inr new ↦ rw new (simp (write_local_takes bytes l))
      ]

      -- The handler over all of what the agent streams, where the local connection takes each write.
      deliver-pump_all :
          (n : ℕ) (reads : List Read) (l : Local)
          → deliver (process b accepts) (pump b version n reads) l
            ≡ (record l { handed = l.handed ++ contents version reads }, not (reaches_end reads))
      unfolding pump deliver
      deliver-pump_all n [] l = simp append-nil
      deliver-pump_all n (dead ∷ reads) l = simp append-nil
      deliver-pump_all n (failed text ∷ reads) l = rw (process_error n text l) (simp append-nil)
      deliver-pump_all n (eof bytes ∷ reads) l =
          deliver_off (process b accepts) _ [] l _ (process_end n bytes l) ∙ last bytes l
      deliver-pump_all n (got bytes ∷ reads) l =
          deliver_on (process b accepts) _ _ l _ (process_read n bytes l)
          ∙ deliver-pump_all (suc n) reads _
          ∙ ap (λ v. (v, not (reaches_end reads)))
              (rw (write_local_takes bytes l) (
                ap (λ w. record l { handed = w })
                  (append_assoc l.handed (bytes ∷ []) (contents version reads))))

-- Whatever has come of the agent's stream messages, in whatever order, each once, several times or not at all,
-- what was handed to the daemon's local connection is a first part of the contents that the agent
-- read, in the order in which it read them, whether the connection takes the writes or not.
pub receive_streams_prefix :
    (b : Base64) (version : String) (accepts : List Bytes → Bytes → Bool) (reads : List Read)
    (order : List ℕ)
    → IsBase64 b
    → (n : ℕ) × ((receive_streams b accepts (pick order (pump b version 0 reads))).state.handed
        ≡ take n (contents version reads))
unfolding receive_streams
receive_streams_prefix b version accepts reads order sound =
    let some_first =
      arrive_all_prefix number (λ (l : Local). l.alive) (process b accepts) (pump b version 0 reads)
        fresh order (pump-Numbered b version 0 reads) in
    let delivered = deliver-pump b version accepts sound some_first.0 0 reads fresh in
    (delivered.0, sym (ap (λ (l : Local). l.handed) some_first.1) ∙ delivered.1)

-- Where all of the agent's stream messages have come, in whatever order, and the daemon's local
-- connection takes each write, it was handed each content that the agent read, in the order in which the
-- agent read them, and the daemon has closed it exactly if the agent came to the end.
pub receive_streams-contents :
    (b : Base64) (version : String) (accepts : List Bytes → Bytes → Bool) (reads : List Read)
    (order : List ℕ)
    → IsBase64 b
    → ((w : List Bytes) (bytes : Bytes) → accepts w bytes ≡ true)
    → Covers order (length (pump b version 0 reads))
    → let r = receive_streams b accepts (pick order (pump b version 0 reads)) in
      (r.state.handed ≡ contents version reads) × (r.stopped ≡ reaches_end reads)
unfolding receive_streams
receive_streams-contents b version accepts reads order sound takes cov =
    let equal =
      arrive_all-deliver number (λ (l : Local). l.alive) (process b accepts)
        (pump b version 0 reads) fresh order (process-KeepsAlive b accepts takes) refl
        (pump-Numbered b version 0 reads) cov
      ∙ deliver-pump_all b version accepts sound takes 0 reads fresh in
    (ap (λ p. p.0.handed) equal, not_cancel _ _ (ap (λ p. p.1) equal))
