-- ===== src/Plugin/Shell/Keys.antt =====
-- The keys that a user types, from the daemon's goroutine that gathers them to the agent's terminal
-- (bctl/daemon and bctl/agent, plugin/shell/actions/defaultshell/defaultshell.go).
use bzero.Shared.{
  ◌≡◌, refl, sym, ap, ◌∙◌, subst, true, some, List, [], ◌∷◌, ◌++◌, append_assoc, append-nil,
}
use bzero.Mrtap.Types.{Bytes}
use bzero.RingBuffer.Replay.{concat}
use bzero.Plugin.Shell.{ShellJson, IsShellJson, shell_input}
use bzero.Plugin.Shell.Agent.{Terminal, Terminals, DefaultShell, write_to_terminal, receive}
use bzero.Plugin.Shell.Daemon.{ActionWrapper, Wake, key, quiet, dying, send_std_in}

-- The keys that were typed.
abbrev pub keys_of : List Wake → Bytes
keys_of [] = []
keys_of (key k ∷ wakes) = k ∷ keys_of wakes
keys_of (quiet ∷ wakes) = keys_of wakes
keys_of (dying ∷ wakes) = keys_of wakes

-- The action does not end.
abbrev pub IsAlive : List Wake → Type 0
IsAlive [] = Unit
IsAlive (key k ∷ wakes) = IsAlive wakes
IsAlive (quiet ∷ wakes) = IsAlive wakes
IsAlive (dying ∷ wakes) = ⊥

-- The agent with a terminal on which some were typed.
abbrev pub with_typed : DefaultShell → Terminal → List Bytes → DefaultShell
with_typed d terminal typed = record d { terminal = some (record terminal { typed = typed }) }

-- What the terminal was handed comes to some bytes.
abbrev Typed : DefaultShell → Terminal → Bytes → DefaultShell → Type 0
Typed d terminal bytes after =
    (typed : List Bytes) × (after ≡ with_typed d terminal typed) × (concat typed ≡ bytes)

module _ (j : ShellJson) (t : Terminals) where
  -- The agent receives actions one after the other.
  unfoldable pub receive_all : List ActionWrapper → DefaultShell → DefaultShell
  receive_all [] d = d
  receive_all (a ∷ rest) d = receive_all rest (receive j t a.action a.action_payload d).1

  module _ (json : IsShellJson j) (writes : t.writes ≡ true) where
    receive_input :
        (bytes : Bytes) (d : DefaultShell) (terminal : Terminal) (typed : List Bytes)
        → (receive j t shell_input (j.marshal_input bytes) (with_typed d terminal typed)).1
          ≡ with_typed d terminal (typed ++ bytes ∷ [])
    unfolding receive write_to_terminal
    receive_input bytes d terminal typed = rw (json.input_back bytes) (rw writes refl)

    concat-append : (xs : List Bytes) (x : Bytes) → concat (xs ++ x ∷ []) ≡ concat xs ++ x
    concat-append [] x = append-nil x
    concat-append (y ∷ ys) x = ap (◌++◌ y) (concat-append ys x) ∙ sym (append_assoc y (concat ys) x)

    receive_all-send_std_in :
        (wakes : List Wake) (gathered : Bytes) (d : DefaultShell) (terminal : Terminal)
        (typed : List Bytes)
        → IsAlive wakes
        → Typed d terminal (concat typed ++ (gathered ++ keys_of wakes)) (
            receive_all
              (send_std_in j gathered (wakes ++ quiet ∷ []))
              (with_typed d terminal typed))
    unfolding receive_all send_std_in
    receive_all-send_std_in [] [] d terminal typed h =
        (typed, refl, sym (append-nil (concat typed)))
    receive_all-send_std_in [] (x ∷ xs) d terminal typed h = (
      typed ++ (x ∷ xs) ∷ [],
      receive_input (x ∷ xs) d terminal typed,
      concat-append typed (x ∷ xs) ∙ ap (◌++◌ (concat typed)) (sym (append-nil (x ∷ xs))),
    )
    receive_all-send_std_in (key k ∷ wakes) gathered d terminal typed h =
        subst
          (λ bytes. Typed d terminal (concat typed ++ bytes) (
            receive_all (send_std_in j (gathered ++ k ∷ []) (wakes ++ quiet ∷ []))
              (with_typed d terminal typed)))
          (append_assoc gathered (k ∷ []) (keys_of wakes))
          (receive_all-send_std_in wakes (gathered ++ k ∷ []) d terminal typed h)
    receive_all-send_std_in (quiet ∷ wakes) [] d terminal typed h =
        receive_all-send_std_in wakes [] d terminal typed h
    receive_all-send_std_in (quiet ∷ wakes) (x ∷ xs) d terminal typed h =
        let (all, e, c) = receive_all-send_std_in wakes [] d terminal (typed ++ (x ∷ xs) ∷ []) h in
        (
          all,
          ap (receive_all (send_std_in j [] (wakes ++ quiet ∷ [])))
                (receive_input (x ∷ xs) d terminal typed)
              ∙ e,
          c
              ∙ ap (λ bytes. bytes ++ keys_of wakes) (concat-append typed (x ∷ xs))
              ∙ append_assoc (concat typed) (x ∷ xs) (keys_of wakes),
        )
    receive_all-send_std_in (dying ∷ wakes) gathered d terminal typed h = elim h [ ]

-- The keys that a user has typed by a moment without keys are written to the agent's terminal, each once and
-- in order, behind what was written to it before, where the terminal takes the writes and nothing ends
-- the daemon's action.
pub receive_all-keys_of :
    (j : ShellJson) (t : Terminals) (d : DefaultShell) (terminal : Terminal) (wakes : List Wake)
    → IsShellJson j
    → t.writes ≡ true
    → d.terminal ≡ some terminal
    → IsAlive wakes
    → let after = receive_all j t (send_std_in j [] (wakes ++ quiet ∷ [])) d in
      (typed : List Bytes) × (after
        ≡ record d { terminal = some (record terminal { typed = typed }) })
      × (concat typed ≡ concat terminal.typed ++ keys_of wakes)
receive_all-keys_of j t d terminal wakes json writes e h =
    let same : d ≡ with_typed d terminal terminal.typed = ap (λ o. record d { terminal = o }) e in
    subst
      (λ x.
        Typed d terminal (concat terminal.typed ++ keys_of wakes)
          (receive_all j t (send_std_in j [] (wakes ++ quiet ∷ [])) x))
      (sym same) (receive_all-send_std_in j t json writes wakes [] d terminal terminal.typed h)
