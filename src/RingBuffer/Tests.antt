-- ===== src/RingBuffer/Tests.antt =====
-- The theorems on the ring buffer at concrete rings.
use bzero.Shared.{◌≡◌, refl, true, none, some, [], ◌∷◌, arith}
use bzero.RingBuffer.{RingBuffer, new, write, read, read_all, bytes}
use bzero.RingBuffer.Window.{IsValid}
use bzero.RingBuffer.Write.{Keeps, write-Keeps}
use bzero.RingBuffer.Read.{read_lem}
use bzero.RingBuffer.Replay.{write_each, replay_lem}

-- A ring of four that has gone round once: it holds 2, 3, 4, 5.
abbrev wrapped : RingBuffer
wrapped = record { buffer = 5 ∷ 2 ∷ 3 ∷ 4 ∷ []; size = 4; start = 1; end = 1; full = true }

wrapped-IsValid : IsValid wrapped
wrapped-IsValid = record {
  sized = refl;
  inside = omega arith;
  room = λ _. omega arith;
  tail = refl;
}

write-Keeps_example :
    (r' : RingBuffer) × (write wrapped (6 ∷ 7 ∷ 8 ∷ 9 ∷ []) ≡ some (r', 4))
    × Keeps wrapped (6 ∷ 7 ∷ 8 ∷ 9 ∷ []) r'
write-Keeps_example = write-Keeps wrapped (6 ∷ 7 ∷ 8 ∷ 9 ∷ []) wrapped-IsValid

read_lem_example : read wrapped (0 ∷ 0 ∷ 0 ∷ []) ≡ some (bytes (2 ∷ 3 ∷ 4 ∷ []) 3)
read_lem_example = read_lem wrapped (0 ∷ 0 ∷ 0 ∷ []) wrapped-IsValid

replay_lem_example :
    (r : RingBuffer) × (write_each (new 4) ((1 ∷ 2 ∷ 3 ∷ []) ∷ (4 ∷ 5 ∷ 6 ∷ []) ∷ []) ≡ some r)
    × (read_all r ≡ some (3 ∷ 4 ∷ 5 ∷ 6 ∷ [], none))
replay_lem_example = replay_lem 4 ((1 ∷ 2 ∷ 3 ∷ []) ∷ (4 ∷ 5 ∷ 6 ∷ []) ∷ [])
