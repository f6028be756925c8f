-- ===== src/Network/Threads/Tests.antt =====
-- Two threads at one session (CWanServerRoom2.cpp): the connection ends while a handler has it.
use game_server_client.Base.{ℕ, ◌+◌, ◌*◌, ◌^◌, ◌<◌, ◌≤◌, ◌≡◌, [], ◌∷◌, arith, refl}
use game_server_client.Network.Threads.{
  Slot, Move, flag, Phase, idle, locked, look, accepted, unlock, last, left, won, free, total,
  holds, System, Step, move, Reach, here, next,
}
use game_server_client.Network.Threads.Moves.{refers, owns, tries}
use game_server_client.Network.Threads.Safety.{
  connected, held_session_safe, io_count_lem, quiet_session_returns,
}

abbrev at : (io_count id stacked : ℕ) → (connection handler : Phase) → System
at io_count id stacked connection handler = record {
  slot = record { io_count = io_count; session_id = id; stacked = stacked };
  threads = connection ∷ handler ∷ [];
}

abbrev slot : (io_count id stacked : ℕ) → Slot
slot io_count id stacked = record { io_count = io_count; session_id = id; stacked = stacked }

-- The handler moves.
second :
    {s t : Slot} {p q c : Phase}
    → Move s p t q
    → Step 0 (record { slot = s; threads = c ∷ p ∷ [] }) (record { slot = t; threads = c ∷ q ∷ [] })
second {s} {t} {p} {q} {c} mv = move s t p q (c ∷ []) [] mv

-- The connection moves.
first :
    {s t : Slot} {p q c : Phase}
    → Move s p t q
    → Step 0 (record { slot = s; threads = p ∷ c ∷ [] }) (record { slot = t; threads = q ∷ c ∷ [] })
first {s} {t} {p} {q} {c} mv = move s t p q [] (c ∷ []) mv

-- The handler is let in, and the connection ends meanwhile.
held_run : Reach (connected 7 1) 0 (at 1 7 0 idle locked)
unfolding connected
held_run =
    next
      (next
        (next (next here (second (look (slot 1 7 0) 7)))
          (second (accepted (slot 2 7 0) 7 2 (omega arith) refl)))
        (first (unlock (slot 2 7 0))))
      (first (left (slot 2 7 0) (omega arith)))

-- The handler leaves, and releases the session.
quiet_run : Reach (connected 7 1) 0 (at 65536 0 1 idle idle)
quiet_run =
    next
      (next
        (next (next held_run (second (unlock (slot 1 7 0))))
          (second (last (slot 1 7 0) (omega arith))))
        (second (won (slot 0 7 0) refl)))
      (second (free (slot 65536 7 0)))

held_session_safe_example :
    (total owns (at 1 7 0 idle locked).threads ≡ 0)
    × ((at 1 7 0 idle locked).slot.stacked ≡ 0)
    × (flag (at 1 7 0 idle locked).slot.io_count ≡ 0)
unfolding total holds
held_session_safe_example =
    held_session_safe 7 1 (at 1 7 0 idle locked) (omega arith) held_run (omega arith)

io_count_example :
    ((at 1 7 0 idle locked).slot.io_count
      ≡ 2 ^ 16 * ((at 1 7 0 idle locked).slot.stacked + total owns (at 1 7 0 idle locked).threads)
        + total refers (at 1 7 0 idle locked).threads)
    × ((at 1 7 0 idle locked).slot.stacked + total owns (at 1 7 0 idle locked).threads ≤ 1)
    × (total refers (at 1 7 0 idle locked).threads < 2 ^ 16)
io_count_example = io_count_lem 7 1 (at 1 7 0 idle locked) (omega arith) held_run

quiet_session_returns_example : (at 65536 0 1 idle idle).slot.stacked ≡ 1
unfolding total refers tries owns
quiet_session_returns_example =
    quiet_session_returns 7 1 (at 65536 0 1 idle idle) (omega arith) quiet_run refl refl refl
