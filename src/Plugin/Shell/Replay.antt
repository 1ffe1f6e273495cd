-- ===== src/Plugin/Shell/Replay.antt =====
-- The replay of a shell against what was streamed, and the numbers of its stream messages
-- (bctl/agent/plugin/shell/actions/defaultshell/defaultshell.go over bzerolib/ringbuffer).
use bzero.Shared.{
  ℕ, ◌≡◌, refl, sym, ap, ap₂, ◌∙◌, subst, true, false, Option, none, some, String, List, [], ◌∷◌,
  ◌++◌, append_assoc, append-nil, length, drop, min, last_of, last_of-last_of, last_of_all,
  drop-append_at, arith, inl, inr, Bool-cases, ok,
}
use bzero.Mrtap.Types.{Bytes}
use bzero.RingBuffer.{RingBuffer, new, write}
use bzero.RingBuffer.Window.{IsValid, contents}
use bzero.RingBuffer.Write.{Keeps, write-Keeps}
use bzero.RingBuffer.Replay.{new-IsValid, read_all-contents}
use bzero.Plugin.Stream.{StreamType, StreamMessage, Base64, IsBase64, std_out, stop}
use bzero.Plugin.Shell.{ShellJson}
use bzero.Plugin.Shell.Agent.{
  Terminal, Terminals, DefaultShell, Event, received, starts, crashes, reads, stops,
  shell_std_out_buff_capacity, kill, send_stream_message, end_pump, pump_starts, pump_reads,
  pump_stops, pump_crashes, open_shell, write_to_terminal, set_size, replay, replay_ring, replayed,
  receive, happen, run,
}

module _ (j : ShellJson) (t : Terminals) (action : String) (payload : Bytes)
    (d : DefaultShell) where
  -- `Receive` leaves the ring buffer and the stream alone.
  pub receive_frame :
      let r = (receive j t action payload d).1 in
      (r.ring_buffer ≡ d.ring_buffer)
      × (r.sent ≡ d.sent)
      × (r.stream_sequence_number ≡ d.stream_sequence_number)
  unfolding receive open_shell write_to_terminal set_size kill
  receive_frame = (ground arith, ground arith, ground arith)

-- The bytes that were streamed as the shell's output.
module _ (b : Base64) where
  abbrev output_of : StreamType → Option Bytes → Bytes
  output_of std_out (some bytes) = bytes
  output_of std_out none = []
  output_of _ o = []

  unfoldable pub stdout_of : List StreamMessage → Bytes
  stdout_of [] = []
  stdout_of (m ∷ ms) = output_of m.stream_type (b.decode m.content) ++ stdout_of ms

  stdout_of-append :
      (xs ys : List StreamMessage) → stdout_of (xs ++ ys) ≡ stdout_of xs ++ stdout_of ys
  unfolding stdout_of
  stdout_of-append [] ys = refl
  stdout_of-append (x ∷ xs) ys =
      ap (◌++◌ (output_of x.stream_type (b.decode x.content))) (stdout_of-append xs ys)
      ∙ sym (
          append_assoc (output_of x.stream_type (b.decode x.content)) (stdout_of xs) (stdout_of ys))

  -- The message that is sent.
  abbrev pub one_message : StreamType → Bytes → DefaultShell → List StreamMessage
  one_message t bytes d =
      record {
        request_id = "";
        schema_version = d.stream_message_version;
        sequence_number = d.stream_sequence_number;
        action = "shell/default";
        stream_type = t;
        more = false;
        log_id = "";
        content = b.encode bytes;
      }
      ∷ []

  std_out-one :
      (sound : IsBase64 b) (bytes : Bytes) (d : DefaultShell)
      → stdout_of (one_message std_out bytes d) ≡ bytes
  unfolding stdout_of
  std_out-one sound bytes d = rw (sound bytes) (append-nil bytes)

  stop-one : (bytes : Bytes) (d : DefaultShell) → stdout_of (one_message stop bytes d) ≡ []
  unfolding stdout_of
  stop-one bytes d = refl

  module _ (bytes : Bytes) (d : DefaultShell) where
    pub reads_idle : d.pumping ≡ false → pump_reads b bytes d ≡ d
    unfolding pump_reads
    reads_idle h = ground arith

    pub reads_on :
        (r ring : RingBuffer) (n : ℕ)
        → d.pumping ≡ true
        → d.ring_buffer ≡ some r
        → write r bytes ≡ some (ring, n)
        → pump_reads b bytes d
          ≡ send_stream_message b std_out bytes (record d { ring_buffer = some ring })
    unfolding pump_reads
    reads_on r ring n h e w = ground arith

    pub stops_idle : d.pumping ≡ false → pump_stops b bytes d ≡ d
    unfolding pump_stops
    stops_idle h = ground arith

    pub stops_on :
        d.pumping ≡ true → pump_stops b bytes d ≡ end_pump (send_stream_message b stop bytes d)
    unfolding pump_stops
    stops_on h = ground arith

crashes_frame :
    (d : DefaultShell)
    → ((pump_crashes d).ring_buffer ≡ d.ring_buffer) × ((pump_crashes d).sent ≡ d.sent)
unfolding pump_crashes kill
crashes_frame d = (ground arith, ground arith)

-- Events without a start of `writePump`.
abbrev pub IsOngoing : List Event → Type 0
IsOngoing [] = Unit
IsOngoing (starts ∷ es) = ⊥
IsOngoing (received t action payload ∷ es) = IsOngoing es
IsOngoing (reads bytes ∷ es) = IsOngoing es
IsOngoing (stops bytes ∷ es) = IsOngoing es
IsOngoing (crashes ∷ es) = IsOngoing es

module _ (b : Base64) (sound : IsBase64 b) (before : List StreamMessage) where
  -- The ring buffer holds the end of the output that was streamed after the messages `before`.
  record Mirrors (d : DefaultShell) : Type 0 where
    ring : RingBuffer
    more : List StreamMessage
    has_ring : d.ring_buffer ≡ some ring
    has_more : d.sent ≡ before ++ more
    valid : IsValid ring
    sized : ring.size ≡ shell_std_out_buff_capacity
    holds : contents ring ≡ last_of shell_std_out_buff_capacity (stdout_of b more)

  Mirrors-frame :
      (d e : DefaultShell) → e.ring_buffer ≡ d.ring_buffer → e.sent ≡ d.sent → Mirrors d → Mirrors e
  Mirrors-frame d e r s m = record {
    ring = m.ring;
    more = m.more;
    has_ring = r ∙ m.has_ring;
    has_more = s ∙ m.has_more;
    valid = m.valid;
    sized = m.sized;
    holds = m.holds;
  }

  -- A message more, whose output the ring buffer has written.
  sends-Mirrors :
      (t : StreamType) (bytes : Bytes) (d : DefaultShell) (ring : RingBuffer) (m : Mirrors d)
      → Keeps m.ring bytes ring
      → stdout_of b (one_message b t bytes d) ≡ bytes
      → Mirrors (send_stream_message b t bytes (record d { ring_buffer = some ring }))
  unfolding send_stream_message
  sends-Mirrors t bytes d ring m k e = record {
    ring = ring;
    more = m.more ++ one_message b t bytes d;
    has_ring = refl;
    has_more =
        ap (λ ms. ms ++ one_message b t bytes d) m.has_more
        ∙ append_assoc before m.more (one_message b t bytes d);
    valid = k.valid;
    sized = k.same_size ∙ m.sized;
    holds =
        k.newest
        ∙ ap₂ (λ size held. last_of size (held ++ bytes)) m.sized m.holds
        ∙ last_of-last_of shell_std_out_buff_capacity (stdout_of b m.more) bytes
        ∙ ap (last_of shell_std_out_buff_capacity) (
            ap (λ out. stdout_of b m.more ++ out) (sym e)
            ∙ sym (stdout_of-append b m.more (one_message b t bytes d)));
  }

  reads-Mirrors : (bytes : Bytes) (d : DefaultShell) → Mirrors d → Mirrors (pump_reads b bytes d)
  reads-Mirrors bytes d m = elim (Bool-cases d.pumping) [
    | inr idle ↦ subst Mirrors (sym (reads_idle b bytes d idle)) m
    | inl runs ↦
        let (ring, e, k) = write-Keeps m.ring bytes m.valid in
        subst Mirrors
          (sym (reads_on b bytes d m.ring ring (min (length bytes) m.ring.size) runs m.has_ring e))
          (sends-Mirrors std_out bytes d ring m k (std_out-one b sound bytes d))
  ]

  stops-Mirrors : (bytes : Bytes) (d : DefaultShell) → Mirrors d → Mirrors (pump_stops b bytes d)
  unfolding kill send_stream_message
  stops-Mirrors bytes d m = elim (Bool-cases d.pumping) [
    | inr idle ↦ subst Mirrors (sym (stops_idle b bytes d idle)) m
    | inl runs ↦ subst Mirrors (sym (stops_on b bytes d runs)) (record {
      ring = m.ring;
      more = m.more ++ one_message b stop bytes d;
      has_ring = m.has_ring;
      has_more =
          ap (λ ms. ms ++ one_message b stop bytes d) m.has_more
          ∙ append_assoc before m.more (one_message b stop bytes d);
      valid = m.valid;
      sized = m.sized;
      holds =
          m.holds
          ∙ ap (last_of shell_std_out_buff_capacity) (
              sym (append-nil (stdout_of b m.more))
              ∙ ap (λ out. stdout_of b m.more ++ out) (sym (stop-one b bytes d))
              ∙ sym (stdout_of-append b m.more (one_message b stop bytes d)));
    })
  ]

  crashes-Mirrors : (d : DefaultShell) → Mirrors d → Mirrors (pump_crashes d)
  crashes-Mirrors d m = Mirrors-frame d (pump_crashes d) (crashes_frame d).0 (crashes_frame d).1 m

  run-Mirrors :
      (j : ShellJson) (es : List Event) (d : DefaultShell)
      → IsOngoing es
      → Mirrors d
      → Mirrors (run b j es d)
  unfolding run happen
  run-Mirrors j [] d h m = m
  run-Mirrors j (starts ∷ es) d h m = elim h [ ]
  run-Mirrors j (received t action payload ∷ es) d h m =
      let f = receive_frame j t action payload d in
      run-Mirrors j es _ h (Mirrors-frame d (receive j t action payload d).1 f.0 f.1 m)
  run-Mirrors j (reads bytes ∷ es) d h m = run-Mirrors j es _ h (reads-Mirrors bytes d m)
  run-Mirrors j (stops bytes ∷ es) d h m = run-Mirrors j es _ h (stops-Mirrors bytes d m)
  run-Mirrors j (crashes ∷ es) d h m = run-Mirrors j es _ h (crashes-Mirrors d m)

  replay-Mirrors :
      (d : DefaultShell)
      → Mirrors d
      → replay d
        ≡ ok (last_of shell_std_out_buff_capacity (stdout_of b (drop (length before) d.sent)))
  unfolding replay
  replay-Mirrors d m =
      ap replay_ring m.has_ring
      ∙ ap replayed (read_all-contents m.ring m.valid)
      ∙ ap ok (
          m.holds
          ∙ ap (λ ms. last_of shell_std_out_buff_capacity (stdout_of b ms))
              (sym (drop-append_at (length before) before m.more refl)
                ∙ ap (drop (length before)) (sym m.has_more)))

module _ (d : DefaultShell) (terminal : Terminal) where
  pump_starts_lem :
      d.starting ≡ true
      → d.terminal ≡ some terminal
      → (pump_starts d).ring_buffer ≡ some (new shell_std_out_buff_capacity)
  unfolding pump_starts
  pump_starts_lem s e = ground arith

  pump_starts-sent : (pump_starts d).sent ≡ d.sent
  unfolding pump_starts kill
  pump_starts-sent = ground arith

new_size : (n : ℕ) → (new n).size ≡ n
unfolding new
new_size n = refl

new-contents : (n : ℕ) → contents (new n) ≡ last_of n []
unfolding new
new-contents n = sym (last_of_all n [] (omega arith))

stdout_of_nil : (b : Base64) → stdout_of b [] ≡ []
unfolding stdout_of
stdout_of_nil b = refl

-- From the start of a terminal's output on, whatever is read of it and whatever calls come between, in any
-- order, a replay returns the last ten thousand bytes of the output that was streamed since then, or
-- all of it if it is less.
pub run-replay :
    (b : Base64) (j : ShellJson) (d : DefaultShell) (terminal : Terminal) (es : List Event)
    → IsBase64 b
    → d.starting ≡ true
    → d.terminal ≡ some terminal
    → IsOngoing es
    → let r = run b j es (pump_starts d) in
      replay r
      ≡ ok (last_of shell_std_out_buff_capacity (stdout_of b (drop (length d.sent) r.sent)))
run-replay b j d terminal es sound s e ongoing =
    replay-Mirrors b sound d.sent (run b j es (pump_starts d))
      (run-Mirrors b sound d.sent j es (pump_starts d) ongoing fresh)
  where
    fresh : Mirrors b sound d.sent (pump_starts d)
    fresh = record {
      ring = new shell_std_out_buff_capacity;
      more = [];
      has_ring = pump_starts_lem d terminal s e;
      has_more = pump_starts-sent d terminal ∙ sym (append-nil d.sent);
      valid = new-IsValid shell_std_out_buff_capacity;
      sized = new_size shell_std_out_buff_capacity;
      holds =
          new-contents shell_std_out_buff_capacity
          ∙ ap (last_of shell_std_out_buff_capacity) (sym (stdout_of_nil b));
    }
