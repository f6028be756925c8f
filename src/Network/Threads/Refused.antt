-- ===== src/Network/Threads/Refused.antt =====
-- GetRoomNo of an id that SessionFindAndLock refuses (CWanServerRoom2.cpp).
use game_server_client.Base.{ℕ, suc, ◌≡◌, refl, List, [], ◌∷◌, arith, replicate}
use game_server_client.Network.Threads.{
  Slot, decrement, released, Phase, idle, locked, leaving, releasing, freeing, total, holds, System,
  move, unlock_refused, last, won, free, Reach, here, next,
}
use game_server_client.Network.Threads.Safety.{connected, total_idle}

-- A second thread that asks for the room of the session by an id that is not its own any more: it takes
-- the reference of the connection, and the session is freed, and its index put back, while the
-- connection has it.
pub refused_room_frees :
    (id n : ℕ)
    → (b : System) × Reach (connected id (suc n)) 1 b
      × (total holds b.threads ≡ 1)
      × (b.slot.stacked ≡ 1)
      × (b.slot.session_id ≡ 0)
unfolding connected total holds
refused_room_frees id n =
    let s0 : Slot = record { io_count = 1; session_id = id; stacked = 0 } in
    let s1 : Slot = decrement s0 in
    let s2 : Slot = record s1 { io_count = released } in
    let rest : List Phase = replicate n idle in
    let back : List Phase = locked ∷ [] in
    (
      record { slot = record s2 { session_id = 0; stacked = 1 }; threads = locked ∷ idle ∷ rest },
      next
          (next
            (next (next here (unlock_refused s0 back rest))
              (move s0 s1 leaving releasing back rest (last s0 (omega arith))))
            (move s1 s2 releasing freeing back rest (won s1 (omega arith))))
          (move s2 (record s2 { session_id = 0; stacked = 1 }) freeing idle back rest (free s2)),
      omega (arith, total_idle holds n refl),
      refl,
      refl,
    )
