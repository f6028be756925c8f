-- ===== src/Network/Threads.antt =====
-- The threads of the server around one session (SessionFindAndLock, SessionUnLock, SessionRelease,
-- SessionFree, SessionAlloc and GetRoomNo of 게임서버/네트워크/CWanServerRoom2.cpp), one atomic step at a time.
-- A reference that a connection, a room or an overlapped operation keeps is a thread that stays
-- `locked`.
pub mod Moves
pub mod Safety
pub mod Refused
mod Tests
use game_server_client.Base.{
  ℕ, ◌+◌, ◌-◌, ◌/◌, ◌%◌, ◌^◌, ◌<◌, ◌≡◌, ◌≢◌, List, [], ◌∷◌, ◌++◌, ◌==◌, if◌then◌else◌, add32, sub32,
}

-- The word `IOCount`, the id, and how often the session's index stands on `SessionIndex`.
pub record Slot : Type 0 where
  pub io_count : ℕ
  pub session_id : ℕ
  pub stacked : ℕ

-- `IOCOUNT(1, 0)`.
abbrev pub released : ℕ
released = 2 ^ 16

-- `IOCOUNT_FLAG_HIGH`.
abbrev pub flag : ℕ → ℕ
flag io_count = io_count / 2 ^ 16

abbrev pub increment : Slot → Slot
increment s = record s { io_count = add32 s.io_count 1 }

abbrev pub decrement : Slot → Slot
decrement s = record s { io_count = sub32 s.io_count 1 }

-- Where a thread stands: it has counted itself in for an id and InterlockedIncrement gave `ret`, it
-- has the session, it is about to decrement, it has decremented to 0, it is in SessionFree, it has
-- taken the index in SessionAlloc, has written the id, and has counted the connection.
pub data Phase : Type 0 where
  idle locked leaving releasing freeing taken named allocated : Phase
  counted : (id ret : ℕ) → Phase

-- One atomic step of one thread.
pub data Move : Slot → Phase → Slot → Phase → Type 0 where
  look : (s : Slot) (id : ℕ) → Move s idle (increment s) (counted id (increment s).io_count)
  rejected : (s : Slot) (id ret : ℕ) → flag ret ≡ 1 → Move s (counted id ret) s leaving
  mismatched :
      (s : Slot) (id ret : ℕ) → flag ret ≢ 1 → id ≢ s.session_id → Move s (counted id ret) s leaving
  accepted :
      (s : Slot) (id ret : ℕ) → flag ret ≢ 1 → id ≡ s.session_id → Move s (counted id ret) s locked
  unlock : (s : Slot) → Move s locked s leaving
  last : (s : Slot) → (decrement s).io_count ≡ 0 → Move s leaving (decrement s) releasing
  left : (s : Slot) → (decrement s).io_count ≢ 0 → Move s leaving (decrement s) idle
  kept : (s : Slot) → s.io_count ≢ 0 → Move s releasing s idle
  won : (s : Slot) → s.io_count ≡ 0 → Move s releasing (record s { io_count = released }) freeing
  free : (s : Slot) → Move s freeing (record s { session_id = 0; stacked = s.stacked + 1 }) idle
  take : (s : Slot) → 0 < s.stacked → Move s idle (record s { stacked = s.stacked - 1 }) taken
  name : (s : Slot) (id : ℕ) → Move s taken (record s { session_id = id }) named
  count : (s : Slot) → Move s named (increment s) allocated
  opened : (s : Slot) → Move s allocated (record s { io_count = s.io_count % 2 ^ 16 }) locked

-- The sum of a weight of the threads.
unfoldable pub total : (Phase → ℕ) → List Phase → ℕ
total w [] = 0
total w (p ∷ ps) = w p + total w ps

-- Threads that have the session.
unfoldable pub holds : Phase → ℕ
holds locked = 1
holds _ = 0

pub record System : Type 0 where
  pub slot : Slot
  pub threads : List Phase

-- A step of the system: a thread moves, or while one has the session another reference is counted
-- for it (RecvPost, SendPost), or GetRoomNo, which SessionFindAndLock has refused and left idle, calls
-- SessionUnLock all the same and takes a reference that it does not have. The number says how many of
-- the last the step is.
pub data Step : (refused : ℕ) → System → System → Type 0 where
  move :
      (s t : Slot) (p q : Phase) (before after : List Phase)
      → Move s p t q
      → Step 0
          (record { slot = s; threads = before ++ p ∷ after })
          (record { slot = t; threads = before ++ q ∷ after })
  retain :
      (s : Slot) (before after : List Phase)
      → 0 < total holds before + total holds after
      → Step 0
          (record { slot = s; threads = before ++ idle ∷ after })
          (record { slot = increment s; threads = before ++ locked ∷ after })
  unlock_refused :
      (s : Slot) (before after : List Phase)
      → Step 1
          (record { slot = s; threads = before ++ idle ∷ after })
          (record { slot = s; threads = before ++ leaving ∷ after })

-- Steps one after the other, with the number of refused GetRoomNo among them.
pub data Reach (a : System) : (refused : ℕ) → System → Type 0 where
  here : Reach a 0 a
  next : {n k : ℕ} {b c : System} → Reach a n b → Step k b c → Reach a (n + k) c
