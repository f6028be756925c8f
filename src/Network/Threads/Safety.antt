-- ===== src/Network/Threads/Safety.antt =====
-- A session is not freed while a thread has it, is given out once, and is not lost (IOCount of
-- CWanServerRoom2.cpp), however the threads are interleaved, where GetRoomNo is not refused.
use game_server_client.Base.{
  ℕ, ◌+◌, ◌*◌, ◌^◌, ◌≤◌, ◌<◌, ◌≡◌, List, [], ◌∷◌, ◌++◌, arith, length, length-append, replicate,
  length-replicate, zero, suc, refl,
}
use game_server_client.Network.Threads.{
  Slot, flag, increment, Phase, idle, locked, counted, total, holds, System, Step, move, retain,
  unlock_refused, Reach, here, next,
}
use game_server_client.Network.Threads.Moves.{
  refers, owns, trusts, tries, IsBalanced, Move-IsBalanced, retain-IsBalanced,
}

-- The sum with one thread taken out.
total-insert :
    (w : Phase → ℕ) (before after : List Phase) (p : Phase)
    → total w (before ++ p ∷ after) ≡ w p + (total w before + total w after)
unfolding total
total-insert w [] after p = omega arith
total-insert w (b ∷ before) after p = omega (arith, total-insert w before after p)

total_mono :
    (v w : Phase → ℕ) → ((p : Phase) → v p ≤ w p) → (ps : List Phase) → total v ps ≤ total w ps
unfolding total
total_mono v w h [] = omega arith
total_mono v w h (p ∷ ps) = omega (arith, h p, total_mono v w h ps)

total-length : (ps : List Phase) → total (λ p. 1) ps ≡ length ps
unfolding total
total-length [] = refl
total-length (p ∷ ps) = omega (arith, total-length ps)

refers_small : (p : Phase) → refers p ≤ 1
unfolding refers
refers_small locked = omega arith
refers_small _ = omega arith

trusts-le-refers : (p : Phase) → trusts p ≤ refers p
unfolding trusts refers
trusts-le-refers (counted id ret) = ground arith
trusts-le-refers _ = omega arith

holds-le-trusts : (p : Phase) → holds p ≤ trusts p
unfolding holds trusts
holds-le-trusts locked = omega arith
holds-le-trusts _ = omega arith

-- The books of the whole system, for fewer than 2 ^ 16 threads.
record AreKept (a : System) : Type 0 where
  word : a.slot.io_count ≡ 2 ^ 16 * (a.slot.stacked + total owns a.threads) + total refers a.threads
  one_owner : a.slot.stacked + total owns a.threads ≤ 1
  no_holder : total trusts a.threads + 2 ^ 16 * (a.slot.stacked + total owns a.threads) ≤ 2 ^ 16
  not_lost :
      1 ≤ a.slot.stacked + total owns a.threads + total refers a.threads + total tries a.threads
  few : length a.threads < 2 ^ 16

-- The sum over the threads before and after one.
part : List Phase → List Phase → (Phase → ℕ) → ℕ
part before after w = total w before + total w after

module _ (s : Slot) (before after : List Phase) (p : Phase) where
  around : System
  around = record { slot = s; threads = before ++ p ∷ after }

  balanced :
      AreKept around
      → IsBalanced s p
          (part before after refers)
          (part before after owns)
          (part before after trusts)
          (part before after tries)
  unfolding around part
  balanced k = record {
    word =
        omega (arith, k.word, total-insert refers before after p, total-insert owns before after p);
    one_owner = omega (arith, k.one_owner, total-insert owns before after p);
    no_holder =
        omega (
          arith,
          k.no_holder,
          total-insert trusts before after p,
          total-insert owns before after p,
        );
    not_lost = omega (
      arith,
      k.not_lost,
      total-insert refers before after p,
      total-insert owns before after p,
      total-insert tries before after p,
    );
  }

  kept :
      IsBalanced s p
        (part before after refers)
        (part before after owns)
        (part before after trusts)
        (part before after tries)
      → length (before ++ p ∷ after) < 2 ^ 16
      → AreKept around
  unfolding around part
  kept b few = record {
    word =
        omega (arith, b.word, total-insert refers before after p, total-insert owns before after p);
    one_owner = omega (arith, b.one_owner, total-insert owns before after p);
    no_holder =
        omega (
          arith,
          b.no_holder,
          total-insert trusts before after p,
          total-insert owns before after p,
        );
    not_lost = omega (
      arith,
      b.not_lost,
      total-insert refers before after p,
      total-insert owns before after p,
      total-insert tries before after p,
    );
    few = few;
  }

length-replaced :
    (before after : List Phase) (p q : Phase)
    → length (before ++ p ∷ after) ≡ length (before ++ q ∷ after)
length-replaced before after p q =
    omega (arith, length-append before (p ∷ after), length-append before (q ∷ after))

held :
    (before after : List Phase)
    → 0 < total holds before + total holds after
    → 0 < part before after trusts
unfolding part
held before after h = omega (
  arith,
  total_mono holds trusts holds-le-trusts before,
  total_mono holds trusts holds-le-trusts after,
)

module _ (before after : List Phase) (p : Phase) (few : length (before ++ p ∷ after) < 2 ^ 16) where
  among : part before after trusts ≤ part before after refers
  unfolding part
  among = omega (
    arith,
    total_mono trusts refers trusts-le-refers before,
    total_mono trusts refers trusts-le-refers after,
  )

  room : part before after refers + 1 < 2 ^ 16
  unfolding part
  room = omega (
    arith,
    total_mono refers (λ p. 1) refers_small before,
    total_mono refers (λ p. 1) refers_small after,
    total-length before,
    total-length after,
    length-append before (p ∷ after),
  )

Step-AreKept : {k : ℕ} {a b : System} → Step k a b → k ≡ 0 → AreKept a → AreKept b
unfolding around
Step-AreKept (move s t p q before after mv) none w =
    kept t before after q
      (Move-IsBalanced (part before after refers) (part before after owns)
        (part before after trusts) (part before after tries) (among before after p w.few)
        (room before after p w.few) mv (balanced s before after p w))
      (omega (arith, length-replaced before after p q, w.few))
Step-AreKept (retain s before after h) none w =
    kept (increment s) before after locked
      (retain-IsBalanced (part before after refers) (part before after owns)
        (part before after trusts) (part before after tries) (among before after idle w.few)
        (room before after idle w.few) s (balanced s before after idle w) (held before after h))
      (omega (arith, length-replaced before after idle locked, w.few))
Step-AreKept (unlock_refused s before after) none w = absurd (omega arith)

Reach-AreKept : {a : System} {n : ℕ} {b : System} → AreKept a → Reach a n b → n ≡ 0 → AreKept b
Reach-AreKept w here none = w
Reach-AreKept w (next r st) none = Step-AreKept st (omega arith) (Reach-AreKept w r (omega arith))

-- A session as SessionAlloc leaves it, with its connection and threads that do nothing yet.
unfoldable pub connected : (id threads : ℕ) → System
connected id threads = record {
  slot = record { io_count = 1; session_id = id; stacked = 0 };
  threads = locked ∷ replicate threads idle;
}

pub total_idle : (w : Phase → ℕ) (n : ℕ) → w idle ≡ 0 → total w (replicate n idle) ≡ 0
unfolding total
total_idle w zero h = refl
total_idle w (suc n) h = omega (arith, h, total_idle w n h)

connected-AreKept : (id n : ℕ) → n + 1 < 2 ^ 16 → AreKept (connected id n)
unfolding connected total refers owns trusts tries
connected-AreKept id n h =
    let idles : List Phase = replicate n idle in
    let r : total refers idles ≡ 0 = total_idle refers n refl in
    let o : total owns idles ≡ 0 = total_idle owns n refl in
    let t : total trusts idles ≡ 0 = total_idle trusts n refl in
    record {
      word = omega arith;
      one_owner = omega arith;
      no_holder = omega arith;
      not_lost = omega arith;
      few = omega (arith, length-replicate n idle);
    }

module _ (id n : ℕ) (b : System) (few : n + 1 < 2 ^ 16) (r : Reach (connected id n) 0 b) where
  books : AreKept b
  books = Reach-AreKept (connected-AreKept id n few) r refl

  -- However fewer than 2 ^ 16 threads are interleaved from the connection of a session on, as long
  -- as SessionFindAndLock has refused no GetRoomNo for it: while a thread has the session, no
  -- thread is in SessionFree or has taken its index for another connection, the index is not on the
  -- stack, and the release flag of IOCount is not set.
  pub held_session_safe :
      0 < total holds b.threads
      → (total owns b.threads ≡ 0) × (b.slot.stacked ≡ 0) × (flag b.slot.io_count ≡ 0)
  held_session_safe h =
      let k : AreKept b = books in
      let t : total holds b.threads ≤ total trusts b.threads =
        total_mono holds trusts holds-le-trusts b.threads in
      let m : total refers b.threads ≤ length b.threads =
        omega (arith, total_mono refers (λ p. 1) refers_small b.threads, total-length b.threads) in
      omega (arith, k.no_holder, k.word, k.few)

  -- Under the same interleavings IOCount is the number of threads that are counted in, with the
  -- release flag exactly if the index is on the stack or a thread owns the released session; and
  -- those are never two.
  pub io_count_lem :
      (b.slot.io_count ≡ 2 ^ 16 * (b.slot.stacked + total owns b.threads) + total refers b.threads)
      × (b.slot.stacked + total owns b.threads ≤ 1)
      × (total refers b.threads < 2 ^ 16)
  io_count_lem =
      let k : AreKept b = books in
      (
        k.word,
        k.one_owner,
        omega (
          arith,
          k.few,
          total_mono refers (λ p. 1) refers_small b.threads,
          total-length b.threads,
        ),
      )

  -- Under the same interleavings, once no thread is counted in, about to release the session, or
  -- its owner, the index of the session is on the stack, once.
  pub quiet_session_returns :
      total refers b.threads ≡ 0
      → total tries b.threads ≡ 0
      → total owns b.threads ≡ 0
      → b.slot.stacked ≡ 1
  quiet_session_returns r t o = let k : AreKept b = books in omega (arith, k.not_lost, k.one_owner)
