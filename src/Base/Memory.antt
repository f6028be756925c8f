-- ===== src/Base/Memory.antt =====
-- `memcpy` into and out of a byte array: runs of cells from an offset on.
use Prim.Native.Nat.{ℕ, zero, suc, ◌+◌, ◌-◌, ◌≤◌, ◌<◌}
use mathlib.Core.Path.{◌≡◌, refl, ap, ap₂, ◌∙◌}
use mathlib.Core.Logic.{◌⊎◌}
use mathlib.Core.List.{List, [], ◌∷◌, ◌++◌}
use native.Mathlib.Omega.{arith}
use game_server_client.Base.Lists.{length, get_or, set, length-set, get_or-set_self, get_or-set_ne}

-- memcpy(mem + pos, bytes, length bytes)
unfoldable pub write_at : List ℕ → ℕ → List ℕ → List ℕ
write_at mem pos [] = mem
write_at mem pos (b ∷ bs) = write_at (set mem pos b) (suc pos) bs

-- The `n` bytes from `pos` on.
unfoldable pub read_at : List ℕ → ℕ → ℕ → List ℕ
read_at mem pos zero = []
read_at mem pos (suc n) = get_or mem pos 0 ∷ read_at mem (suc pos) n

pub length-write_at :
    (mem : List ℕ) (pos : ℕ) (bs : List ℕ) → length (write_at mem pos bs) ≡ length mem
unfolding write_at
length-write_at mem pos [] = refl
length-write_at mem pos (b ∷ bs) =
    length-write_at (set mem pos b) (suc pos) bs ∙ length-set mem pos b

pub length-read_at : (mem : List ℕ) (pos n : ℕ) → length (read_at mem pos n) ≡ n
unfolding read_at
length-read_at mem pos zero = refl
length-read_at mem pos (suc n) = ap suc (length-read_at mem (suc pos) n)

pub read_at-add :
    (mem : List ℕ) (pos m n : ℕ)
    → read_at mem pos (m + n) ≡ read_at mem pos m ++ read_at mem (pos + m) n
unfolding read_at
read_at-add mem pos zero n = ap₂ (read_at mem) (omega arith) (omega arith)
read_at-add mem pos (suc m) n =
    let shift : suc m + n ≡ suc (m + n) = omega arith in
    let next : suc pos + m ≡ pos + suc m = omega arith in
    rw shift (
      ap (◌∷◌ (get_or mem pos 0))
        (read_at-add mem (suc pos) m n ∙ ap (λ k. read_at mem (suc pos) m ++ read_at mem k n) next))

read_at-set :
    (mem : List ℕ) (i v pos n : ℕ)
    → (i < pos) ⊎ (pos + n ≤ i)
    → read_at (set mem i v) pos n ≡ read_at mem pos n
unfolding read_at
read_at-set mem i v pos zero h = refl
read_at-set mem i v pos (suc n) h =
    ap₂ ◌∷◌ (get_or-set_ne mem i pos v 0 (omega arith))
      (read_at-set mem i v (suc pos) n (omega arith))

-- A run that a write does not meet is as before.
pub read_at-write_at_apart :
    (mem bs : List ℕ) (at pos n : ℕ)
    → (at + length bs ≤ pos) ⊎ (pos + n ≤ at)
    → read_at (write_at mem at bs) pos n ≡ read_at mem pos n
unfolding write_at
read_at-write_at_apart mem [] at pos n h = refl
read_at-write_at_apart mem (b ∷ bs) at pos n h =
    read_at-write_at_apart (set mem at b) bs (suc at) pos n (omega arith)
    ∙ read_at-set mem at b pos n (omega arith)

get_or-write_at_below :
    (mem bs : List ℕ) (at pos : ℕ) → pos < at → get_or (write_at mem at bs) pos 0 ≡ get_or mem pos 0
unfolding write_at
get_or-write_at_below mem [] at pos h = refl
get_or-write_at_below mem (b ∷ bs) at pos h =
    get_or-write_at_below (set mem at b) bs (suc at) pos (omega arith)
    ∙ get_or-set_ne mem at pos b 0 (omega arith)

-- The run that a write covers is what was written.
pub read_at-write_at_self :
    (mem bs : List ℕ) (at n : ℕ)
    → n ≡ length bs
    → at + n ≤ length mem
    → read_at (write_at mem at bs) at n ≡ bs
unfolding write_at read_at
read_at-write_at_self mem [] at zero e h = refl
read_at-write_at_self mem [] at (suc n) e h = absurd (omega arith)
read_at-write_at_self mem (b ∷ bs) at zero e h = absurd (omega arith)
read_at-write_at_self mem (b ∷ bs) at (suc n) e h =
    ap₂ ◌∷◌
      (get_or-write_at_below (set mem at b) bs (suc at) at (omega arith)
        ∙ get_or-set_self mem at b 0 (omega arith))
      (read_at-write_at_self (set mem at b) bs (suc at) n (omega arith)
        (omega (arith, length-set mem at b)))

-- Behind a write the cells are as before.
pub get_or-write_at_above :
    (mem bs : List ℕ) (at pos : ℕ)
    → at + length bs ≤ pos
    → get_or (write_at mem at bs) pos 0 ≡ get_or mem pos 0
unfolding write_at
get_or-write_at_above mem [] at pos h = refl
get_or-write_at_above mem (b ∷ bs) at pos h =
    get_or-write_at_above (set mem at b) bs (suc at) pos (omega arith)
    ∙ get_or-set_ne mem at pos b 0 (omega arith)

-- A run in two parts, cut at an offset.
pub cut_run :
    (mem : List ℕ) (lo mid hi : ℕ)
    → lo ≤ mid
    → mid ≤ hi
    → read_at mem lo (mid - lo) ++ read_at mem mid (hi - mid) ≡ read_at mem lo (hi - lo)
cut_run mem lo mid hi h k =
    let sum : hi - lo ≡ mid - lo + (hi - mid) = omega arith in
    let from : lo + (mid - lo) ≡ mid = omega arith in
    rw (sum, read_at-add mem lo (mid - lo) (hi - mid), from)
