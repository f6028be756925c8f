-- ===== src/Inventory/Free.antt =====
-- Which slots of an inventory are free: the count that `usableSlots` keeps and the lowest one, that
-- `nextSlotSeq` names (getNextSlotSeq and deleteSlot of Inventory.cpp).
use game_server_client.Base.{
  ℕ, zero, suc, ◌+◌, ◌-◌, ◌≤◌, ◌<◌, ◌≡◌, refl, Bool, true, false, List, none, some, arith, get_or,
  set, get_or-set_ne, Bool-cases, ap, inl, inr, ◌⊎◌, ap₂,
}
use game_server_client.Inventory.Bag.{scan}

abbrev pub one_if : Bool → ℕ
one_if true = 1
one_if false = 0

-- How many of the `n` slots from `i` on are free.
unfoldable pub free_in : List Bool → ℕ → ℕ → ℕ
free_in free i zero = 0
free_in free i (suc n) = one_if (get_or free i false) + free_in free (suc i) n

free_in-add :
    (free : List Bool) (m i n : ℕ)
    → free_in free i (m + n) ≡ free_in free i m + free_in free (i + m) n
unfolding free_in
free_in-add free zero i n =
    let at : i + 0 ≡ i = omega arith in
    let size : 0 + n ≡ n = omega arith in rw (at, size) (omega arith)
free_in-add free (suc m) i n =
    let at : suc i + m ≡ i + suc m = omega arith in
    let size : suc m + n ≡ suc (m + n) = omega arith in
    rw size (omega (arith, free_in-add free m (suc i) n, ap (λ k. free_in free k n) at))

-- A write outside the range does not change the count.
pub free_in-set :
    (free : List Bool) (n i j : ℕ) (b : Bool)
    → (j < i) ⊎ (i + n ≤ j)
    → free_in (set free j b) i n ≡ free_in free i n
unfolding free_in
free_in-set free zero i j b h = refl
free_in-set free (suc n) i j b h =
    ap₂ ◌+◌ (ap one_if (get_or-set_ne free j i b false (omega arith)))
      (free_in-set free n (suc i) j b (omega arith))

-- The count between two slots, the first one included.
abbrev pub free_between : List Bool → ℕ → ℕ → ℕ
free_between free lo hi = free_in free lo (hi - lo)

-- The count is that below a slot, that slot, and that above it.
pub free_at :
    (free : List Bool) (lo mid hi : ℕ)
    → lo ≤ mid
    → mid < hi
    → free_between free lo hi
      ≡ free_between free lo mid + one_if (get_or free mid false) + free_between free (suc mid) hi
free_at free lo mid hi h k =
    let size : hi - lo ≡ mid - lo + suc (hi - suc mid) = omega arith in
    let at : lo + (mid - lo) ≡ mid = omega arith in
    rw (size, free_in-add free (mid - lo) lo (suc (hi - suc mid)), at)
      (unfold free_in in omega arith)

-- `scan` finds the lowest free slot of a range that has one.
pub scan_finds :
    (free : List Bool) (n i : ℕ)
    → 0 < free_in free i n
    → (j : ℕ) × (scan free i n ≡ some j)
      × (i ≤ j)
      × (j < i + n)
      × (get_or free j false ≡ true)
      × (free_between free i j ≡ 0)
unfolding scan free_in
scan_finds free zero i h = absurd (omega arith)
scan_finds free (suc n) i h = elim (Bool-cases (get_or free i false)) [
  | inl hit ↦
      let none_below : i - i ≡ 0 = omega arith in
      (i, ground arith, omega arith, omega arith, hit, rw none_below)
  | inr miss ↦
      let (j, found, lo, hi, is_free, below) = scan_finds free n (suc i) (ground arith) in
      let size : j - i ≡ suc (j - suc i) = omega arith in
      (j, ground arith, omega arith, omega arith, is_free, rw size (ground arith))
]

pub scan-none : (free : List Bool) (n i : ℕ) → free_in free i n ≡ 0 → scan free i n ≡ none
unfolding scan free_in
scan-none free zero i h = refl
scan-none free (suc n) i h = ground (arith, scan-none free n (suc i))

pub free_in-le : (free : List Bool) (n i : ℕ) → free_in free i n ≤ n
unfolding free_in
free_in-le free zero i = omega arith
free_in-le free (suc n) i = ground (arith, free_in-le free n (suc i))
