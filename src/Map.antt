-- ===== src/Map.antt =====
-- `std::map` with integer keys, as the game server uses it: an association list in the order of
-- its keys, which is the order of iteration.
use game_server_client.Base.{
  ℕ, ◌≡◌, refl, List, [], ◌∷◌, Bool, true, false, Option, none, some, arith, ltb, ◌==◌,
  if◌then◌else◌,
}

abbrev pub Map {ℓ} : Type ℓ → Type ℓ
Map V = List (ℕ × V)

module _ {ℓ} {V : Type ℓ} where
  -- `find`, and `at` where `none` is the exception.
  unfoldable pub find : ℕ → Map V → Option V
  find k [] = none
  find k ((j, w) ∷ m) = if k == j then some w else find k m

  unfoldable pub has : ℕ → Map V → Bool
  has k [] = false
  has k ((j, w) ∷ m) = if k == j then true else has k m

  -- `m[k] = v`
  unfoldable pub assign : ℕ → V → Map V → Map V
  assign k v [] = (k, v) ∷ []
  assign k v ((j, w) ∷ m) =
      let rest = assign k v m in
      if k == j then (k, v) ∷ m else if ltb k j then (k, v) ∷ (j, w) ∷ m else (j, w) ∷ rest

  -- `insert`, which leaves an entry that is there.
  unfoldable pub insert : ℕ → V → Map V → Map V
  insert k v m = elim (find k m) [ none ↦ assign k v m | some _ ↦ m ]

  -- `erase(k)`: every entry under the key, of which there is one at most.
  unfoldable pub erase : ℕ → Map V → Map V
  erase k [] = []
  erase k ((j, w) ∷ m) = let rest = erase k m in if k == j then rest else (j, w) ∷ rest

  -- `m[k]` where a missing entry is made with the default value `d`.
  unfoldable pub index : V → ℕ → Map V → V
  index d k m = elim (find k m) [ none ↦ d | some v ↦ v ]

  pub find-assign :
      (k j : ℕ) (v : V) (m : Map V) → find j (assign k v m) ≡ (if j == k then some v else find j m)
  unfolding find assign
  find-assign k j v [] = refl
  find-assign k j v ((i, w) ∷ m) = ground (arith, find-assign k j v m)

  pub has-assign :
      (k j : ℕ) (v : V) (m : Map V) → has j (assign k v m) ≡ (if j == k then true else has j m)
  unfolding has assign
  has-assign k j v [] = refl
  has-assign k j v ((i, w) ∷ m) = ground (arith, has-assign k j v m)

  pub find-erase : (k j : ℕ) (m : Map V) → find j (erase k m) ≡ (if j == k then none else find j m)
  unfolding find erase
  find-erase k j [] = ground arith
  find-erase k j ((i, w) ∷ m) = ground (arith, find-erase k j m)

  pub find-has : (k : ℕ) (m : Map V) → has k m ≡ false → find k m ≡ none
  unfolding find has
  find-has k [] h = refl
  find-has k ((j, w) ∷ m) h = ground (arith, find-has k m)

  -- `insert` gives the first value put under a key, and leaves the other keys.
  pub find-insert :
      (k j : ℕ) (v : V) (m : Map V)
      → find j (insert k v m)
        ≡ (if j == k then elim (find k m) [ none ↦ some v | some w ↦ some w ] else find j m)
  unfolding insert
  find-insert k j v m = ground (arith, find-assign k j v m)
