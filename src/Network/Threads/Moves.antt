-- ===== src/Network/Threads/Moves.antt =====
-- What one atomic step of one thread does to the books that the word IOCount keeps
-- (CWanServerRoom2.cpp).
use game_server_client.Base.{ℕ, ◌+◌, ◌*◌, ◌^◌, ◌≤◌, ◌<◌, ◌≡◌, arith, ◌==◌, if◌then◌else◌}
use game_server_client.Network.Threads.{
  Slot, flag, increment, Phase, idle, locked, leaving, releasing, freeing, taken, named, allocated,
  counted, Move, look, rejected, mismatched, accepted, unlock, last, left, kept, won, free, take,
  name, count, opened,
}

-- Threads that are counted in `IOCount`.
unfoldable pub refers : Phase → ℕ
refers locked = 1
refers leaving = 1
refers allocated = 1
refers (counted id ret) = 1
refers _ = 0

-- Threads that own the released session, to free it or to give it out.
unfoldable pub owns : Phase → ℕ
owns freeing = 1
owns taken = 1
owns named = 1
owns allocated = 1
owns _ = 0

-- Threads that have the session, or will once they have compared its id.
unfoldable pub trusts : Phase → ℕ
trusts locked = 1
trusts (counted id ret) = if flag ret == 1 then 0 else 1
trusts _ = 0

-- Threads that are about to try to release the session.
unfoldable pub tries : Phase → ℕ
tries releasing = 1
tries _ = 0

-- The books of a slot, for one thread and the sums of the others'.
pub record IsBalanced (s : Slot) (p : Phase) (refs owners trusted triers : ℕ) : Type 0 where
  pub word : s.io_count ≡ 2 ^ 16 * (s.stacked + owns p + owners) + refers p + refs
  pub one_owner : s.stacked + owns p + owners ≤ 1
  pub no_holder : trusts p + trusted + 2 ^ 16 * (s.stacked + owns p + owners) ≤ 2 ^ 16
  pub not_lost : 1 ≤ s.stacked + owns p + owners + refers p + refs + tries p + triers

module _ (refs owners trusted triers : ℕ) (among : trusted ≤ refs) (few : refs + 1 < 2 ^ 16) where
  -- Every step of a thread keeps the books of all threads.
  pub Move-IsBalanced :
      {s t : Slot} {p q : Phase}
      → Move s p t q
      → IsBalanced s p refs owners trusted triers
      → IsBalanced t q refs owners trusted triers
  unfolding refers owns trusts tries
  Move-IsBalanced (look s id) b = ground (arith, b)
  Move-IsBalanced (rejected s id ret h) b = ground (arith, b)
  Move-IsBalanced (mismatched s id ret h k) b = ground (arith, b)
  Move-IsBalanced (accepted s id ret h k) b = ground (arith, b)
  Move-IsBalanced (unlock s) b = ground (arith, b)
  Move-IsBalanced (last s h) b = ground (arith, b)
  Move-IsBalanced (left s h) b = ground (arith, b)
  Move-IsBalanced (kept s h) b = ground (arith, b)
  Move-IsBalanced (won s h) b = ground (arith, b)
  Move-IsBalanced (free s) b = ground (arith, b)
  Move-IsBalanced (take s h) b = ground (arith, b)
  Move-IsBalanced (name s id) b = ground (arith, b)
  Move-IsBalanced (count s) b = ground (arith, b)
  Move-IsBalanced (opened s) b = ground (arith, b)

  pub retain-IsBalanced :
      (s : Slot)
      → IsBalanced s idle refs owners trusted triers
      → 0 < trusted
      → IsBalanced (increment s) locked refs owners trusted triers
  unfolding refers owns trusts tries
  retain-IsBalanced s b h = ground (arith, b)
