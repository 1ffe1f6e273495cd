-- ===== src/Plugin/Shell/Numbers.antt =====
-- The numbers of a shell's stream messages
-- (bctl/agent/plugin/shell/actions/defaultshell/defaultshell.go).
use bzero.Shared.{
  ℕ, suc, ◌+◌, ◌≡◌, refl, sym, ap, ◌∙◌, subst, true, Option, none, some, List, [], ◌∷◌, ◌++◌,
  length, arith, inl, inr, Bool-cases, length-append,
}
use bzero.Mrtap.Types.{Bytes}
use bzero.RingBuffer.{RingBuffer, write}
use bzero.Plugin.Stream.{StreamType, StreamMessage, Base64, number, std_out, stop}
use bzero.Plugin.InOrder.{Numbered}
use bzero.Plugin.Shell.{ShellJson}
use bzero.Plugin.Shell.Agent.{
  DefaultShell, Event, received, starts, crashes, reads, stops, new_shell, kill,
  send_stream_message, end_pump, keep_in, keep_and_send, pump_starts, pump_reads, pump_stops,
  pump_crashes, receive, happen, run,
}
use bzero.Plugin.Shell.Replay.{receive_frame, one_message, reads_idle, stops_idle, stops_on}

-- The stream messages of a shell count from `n` on.
abbrev IsCounted : DefaultShell → Type 0
IsCounted d = Numbered number 1 d.sent × (d.stream_sequence_number ≡ 1 + length d.sent)

Numbered-append :
    (n : ℕ) (xs : List StreamMessage) (m : StreamMessage)
    → Numbered number n xs
    → number m ≡ n + length xs
    → Numbered number n (xs ++ m ∷ [])
Numbered-append n [] m h e = (omega (arith, e), tt)
Numbered-append n (x ∷ xs) m h e = (h.0, Numbered-append (suc n) xs m h.1 (omega (arith, e)))

IsCounted-frame :
    (d e : DefaultShell)
    → e.sent ≡ d.sent
    → e.stream_sequence_number ≡ d.stream_sequence_number
    → IsCounted d
    → IsCounted e
IsCounted-frame d e s n h =
    (subst (Numbered number 1) (sym s) h.0, n ∙ h.1 ∙ ap (λ ms. 1 + length ms) (sym s))

end_frame :
    (d : DefaultShell)
    → ((end_pump d).sent ≡ d.sent)
      × ((end_pump d).stream_sequence_number ≡ d.stream_sequence_number)
unfolding kill
end_frame d = (refl, refl)

starts_frame :
    (d : DefaultShell)
    → ((pump_starts d).sent ≡ d.sent)
      × ((pump_starts d).stream_sequence_number ≡ d.stream_sequence_number)
unfolding pump_starts kill
starts_frame d = (ground arith, ground arith)

crash_frame :
    (d : DefaultShell)
    → ((pump_crashes d).sent ≡ d.sent)
      × ((pump_crashes d).stream_sequence_number ≡ d.stream_sequence_number)
unfolding pump_crashes kill
crash_frame d = (ground arith, ground arith)

reads_in :
    (b : Base64) (bytes : Bytes) (d : DefaultShell)
    → d.pumping ≡ true
    → pump_reads b bytes d ≡ keep_in b bytes d d.ring_buffer
unfolding pump_reads
reads_in b bytes d h = rw h refl

module _ (b : Base64) where
  send-IsCounted :
      (t : StreamType) (bytes : Bytes) (d : DefaultShell)
      → IsCounted d
      → IsCounted (send_stream_message b t bytes d)
  unfolding send_stream_message
  send-IsCounted t bytes d h = (
    Numbered-append 1 d.sent _ h.0 h.1,
    omega (arith, h.1, length-append d.sent (one_message b t bytes d)),
  )

  reads-IsCounted :
      (bytes : Bytes) (d : DefaultShell) → IsCounted d → IsCounted (pump_reads b bytes d)
  reads-IsCounted bytes d h = elim (Bool-cases d.pumping) [
    | inr idle ↦ subst IsCounted (sym (reads_idle b bytes d idle)) h
    | inl runs ↦ subst IsCounted (sym (reads_in b bytes d runs)) (in_ring d.ring_buffer)
  ]
    where
      written : (o : Option (RingBuffer × ℕ)) → IsCounted (keep_and_send b bytes d o)
      written none = IsCounted-frame d (end_pump d) (end_frame d).0 (end_frame d).1 h
      written (some (ring, n)) =
          send-IsCounted std_out bytes (record d { ring_buffer = some ring }) h

      in_ring : (o : Option RingBuffer) → IsCounted (keep_in b bytes d o)
      in_ring none = IsCounted-frame d (end_pump d) (end_frame d).0 (end_frame d).1 h
      in_ring (some ring) = written (write ring bytes)

  stops-IsCounted :
      (bytes : Bytes) (d : DefaultShell) → IsCounted d → IsCounted (pump_stops b bytes d)
  stops-IsCounted bytes d h = elim (Bool-cases d.pumping) [
    | inr idle ↦ subst IsCounted (sym (stops_idle b bytes d idle)) h
    | inl runs ↦
        let sent = send_stream_message b stop bytes d in
        subst IsCounted (sym (stops_on b bytes d runs)) (
          IsCounted-frame sent (end_pump sent) (end_frame sent).0 (end_frame sent).1
            (send-IsCounted stop bytes d h))
  ]

  happen-IsCounted :
      (j : ShellJson) (e : Event) (d : DefaultShell) → IsCounted d → IsCounted (happen b j e d)
  unfolding happen
  happen-IsCounted j (received t action payload) d h =
      let f = receive_frame j t action payload d in
      IsCounted-frame d (receive j t action payload d).1 f.1 f.2 h
  happen-IsCounted j starts d h =
      IsCounted-frame d (pump_starts d) (starts_frame d).0 (starts_frame d).1 h
  happen-IsCounted j (reads bytes) d h = reads-IsCounted bytes d h
  happen-IsCounted j (stops bytes) d h = stops-IsCounted bytes d h
  happen-IsCounted j crashes d h =
      IsCounted-frame d (pump_crashes d) (crash_frame d).0 (crash_frame d).1 h

  run-IsCounted :
      (j : ShellJson) (es : List Event) (d : DefaultShell) → IsCounted d → IsCounted (run b j es d)
  unfolding run
  run-IsCounted j [] d h = h
  run-IsCounted j (e ∷ es) d h = run-IsCounted j es (happen b j e d) (happen-IsCounted j e d h)

-- Whatever happens to a new shell, its stream messages are numbered 1, 2, 3 and so on, in the order in which
-- they were sent.
pub run-Numbered :
    (b : Base64) (j : ShellJson) (es : List Event) → Numbered number 1 (run b j es new_shell).sent
unfolding new_shell
run-Numbered b j es = (run-IsCounted b j es new_shell (tt, refl)).0
