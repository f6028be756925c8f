-- ===== src/Config/Entries.antt =====
-- Reading a value behind its name, wherever it stands (라이브러리/TextPasing.cpp).
use game_server_client.Base.{
  le→leb, leb, take-append, drop-append, ℕ, zero, suc, ◌-◌, ◌≤◌, ◌<◌, ◌≡◌, ◌≢◌, refl, List, [], ◌∷◌,
  ◌++◌, true, false, Option, some, ◌==◌, arith, length, drop, length-append, Bool-cases, inl, inr,
  ◌>>=◌, leb, ap, sym, ◌∙◌,
}
use game_server_client.Field.{same}
use game_server_client.Field.Friends.{same_refl}
use game_server_client.Config.{
  position, is_space, is_stop, skip_spaces, skip, stopped, whole, matches, value_at, find_value,
}
use game_server_client.Config.Skips.{is_text, skip_lands, skip_none_text}

-- A text before an entry: it has no '/', and the name does not stand at any of its bytes, followed by
-- what may follow a name.
abbrev pub Clear : (word : List ℕ) → (noise behind : List ℕ) → Type 0
Clear word [] behind = Unit {0}
Clear word (c ∷ noise) behind =
    (c ≢ 47)
    × (is_space c ≡ false → matches word (c ∷ noise ++ behind) ≡ some false)
    × Clear word noise behind

text_solid : (x : ℕ) → is_text x ≡ true → is_space x ≡ false
unfolding is_text
text_solid x h = ground arith

solid_text : (x : ℕ) → x ≢ 47 → is_space x ≡ false → is_text x ≡ true
unfolding is_text
solid_text x no_slash h = ground arith

-- Where the blanks before an entry end.
landing :
    (word noise : List ℕ) (x : ℕ) (behind : List ℕ)
    → Clear word noise (x ∷ behind)
    → is_text x ≡ true
    → (y : ℕ) × (rest : List ℕ) × (skip_spaces (noise ++ x ∷ behind) ≡ some (y ∷ rest))
      × (is_text y ≡ true)
      × (length (y ∷ rest) ≤ length (noise ++ x ∷ behind))
unfolding skip_spaces
landing word [] x behind clear h = (x, behind, rw (text_solid x h) refl, h, omega arith)
landing word (c ∷ noise) x behind clear h = elim (Bool-cases (is_space c)) [
  | inl blank ↦
      let (y, rest, lands, stops, short) = landing word noise x behind clear.2 h in
      (y, rest, rw blank lands, stops, omega (arith, short))
  | inr solid ↦ (c, noise ++ x ∷ behind, rw solid refl, solid_text c clear.0 solid, omega arith)
]

module _ {A : Type 0} (word : List ℕ) (read : List ℕ → Option (Option A)) where
  -- A round of the loop, and the next one.
  found_at : (fuel left : ℕ) → (at : List ℕ) → Option (Option A)
  found_at fuel left at = do
    here ← matches word at
    elim here [
      | true ↦ value_at read (drop (length word) at)
      | false ↦ find_value fuel word read left (drop 1 at)
    ]

  find_step :
      (fuel left : ℕ) (text at : List ℕ)
      → 1 ≤ left
      → skip text ≡ some at
      → find_value (suc fuel) word read left text
        ≡ found_at fuel (left - (length text - length at) - 1) at
  unfolding find_value found_at
  find_step fuel left text at room here =
      let before : (left == 0) ≡ false = ground arith in rw (before, find_value) (rw here refl)

  find_blank :
      (fuel left : ℕ) (c : ℕ) (text : List ℕ) (y : ℕ) (rest : List ℕ)
      → is_space c ≡ true
      → skip_spaces text ≡ some (y ∷ rest)
      → is_text y ≡ true
      → length (y ∷ rest) ≤ length text
      → 2 ≤ left
      → find_value (suc fuel) word read left (c ∷ text)
        ≡ find_value (suc fuel) word read (left - 1) text
  unfolding skip_spaces
  find_blank fuel left c text y rest blank lands stops short room =
      let here : skip (c ∷ text) ≡ some (y ∷ rest) =
        skip_lands (c ∷ text) y rest (rw blank lands) stops in
      let there : skip text ≡ some (y ∷ rest) = skip_lands text y rest lands stops in
      let same_left : left - (length (c ∷ text) - length (y ∷ rest)) - 1
          ≡ left - 1 - (length text - length (y ∷ rest)) - 1 =
        omega (arith, short) in
      find_step fuel left (c ∷ text) (y ∷ rest) (omega arith) here
      ∙ ap (λ n. found_at fuel n (y ∷ rest)) same_left
      ∙ sym (find_step fuel (left - 1) text (y ∷ rest) (omega arith) there)

  find_other :
      (fuel left : ℕ) (c : ℕ) (text : List ℕ)
      → is_text c ≡ true
      → matches word (c ∷ text) ≡ some false
      → 1 ≤ left
      → find_value (suc fuel) word read left (c ∷ text) ≡ find_value fuel word read (left - 1) text
  unfolding found_at
  find_other fuel left c text stops other room =
      let same_left : left - (length (c ∷ text) - length (c ∷ text)) - 1 ≡ left - 1 = omega arith in
      find_step fuel left (c ∷ text) (c ∷ text) room
        (ap position (skip_none_text (length (c ∷ text)) c text stops))
      ∙ ap (λ n. found_at fuel n (c ∷ text)) same_left
      ∙ rw other refl

  -- The loop passes over what is clear of the name.
  find_behind :
      (noise : List ℕ) (x : ℕ) (behind : List ℕ) (fuel left : ℕ)
      → Clear word noise (x ∷ behind)
      → is_text x ≡ true
      → length noise < left
      → length noise < fuel
      → (fuel' : ℕ) × (left' : ℕ) × (find_value fuel word read left (noise ++ x ∷ behind)
          ≡ find_value (suc fuel') word read (suc left') (x ∷ behind))
  find_behind [] x behind (suc fuel) (suc left) clear stops l f = (fuel, left, refl)
  find_behind [] x behind fuel zero clear stops l f = absurd (omega arith)
  find_behind [] x behind zero left clear stops l f = absurd (omega arith)
  find_behind (c ∷ noise) x behind zero left clear stops l f = absurd (omega arith)
  find_behind (c ∷ noise) x behind (suc fuel) left clear stops l f =
      elim (Bool-cases (is_space c)) [
        | inl blank ↦
            let (y, rest, lands, ends, short) = landing word noise x behind clear.2 stops in
            let (fuel', left', e) =
              find_behind noise x behind (suc fuel) (left - 1) clear.2 stops (omega arith)
                (omega arith) in
            (
              fuel',
              left',
              find_blank fuel left c (noise ++ x ∷ behind) y rest blank lands ends short
                    (omega arith)
                  ∙ e,
            )
        | inr solid ↦
            let (fuel', left', e) =
              find_behind noise x behind fuel (left - 1) clear.2 stops (omega arith)
                (omega arith) in
            (
              fuel',
              left',
              find_other fuel left c (noise ++ x ∷ behind) (solid_text c clear.0 solid)
                    (clear.1 solid) (omega arith)
                  ∙ e,
            )
      ]

matches_self : (w : ℕ) (ws rest : List ℕ) → matches (w ∷ ws) (w ∷ ws ++ 32 ∷ rest) ≡ some true
unfolding matches whole stopped is_stop same
matches_self w ws rest =
    let fits : leb (suc (length ws)) (suc (length (ws ++ 32 ∷ rest))) ≡ true =
      le→leb _ _ (omega (arith, length-append ws (32 ∷ rest))) in
    let first : (w == w) ≡ true = ground arith in
    rw
      (
        first,
        fits,
        take-append (length ws) ws (32 ∷ rest) refl,
        drop-append (length ws) ws (32 ∷ rest) refl,
        same_refl ws,
      )
      refl

module _ {A : Type 0} (w : ℕ) (ws : List ℕ) (read : List ℕ → Option (Option A))
    (named : is_text w ≡ true) (v : ℕ) (value : List ℕ) (begins : is_text v ≡ true) where
  value_read : value_at read (32 ∷ 61 ∷ 32 ∷ v ∷ value) ≡ read (v ∷ value)
  unfolding value_at skip_spaces is_space is_text
  value_read =
      let sign : skip (32 ∷ 61 ∷ 32 ∷ v ∷ value) ≡ some (61 ∷ 32 ∷ v ∷ value) =
        skip_lands (32 ∷ 61 ∷ 32 ∷ v ∷ value) 61 (32 ∷ v ∷ value) refl refl in
      let there : skip (32 ∷ v ∷ value) ≡ some (v ∷ value) =
        skip_lands (32 ∷ v ∷ value) v value (rw (text_solid v begins) refl) begins in
      rw (sign, there) refl

  -- An entry "word = value" is found behind anything that is clear of the word, within the size, and its
  -- value is read.
  pub find_entry :
      (noise : List ℕ) (fuel left : ℕ)
      → Clear (w ∷ ws) noise (w ∷ ws ++ 32 ∷ 61 ∷ 32 ∷ v ∷ value)
      → length noise < left
      → length noise < fuel
      → find_value fuel (w ∷ ws) read left (noise ++ (w ∷ ws ++ 32 ∷ 61 ∷ 32 ∷ v ∷ value))
        ≡ read (v ∷ value)
  unfolding found_at
  find_entry noise fuel left clear l f =
      let text : List ℕ = ws ++ 32 ∷ 61 ∷ 32 ∷ v ∷ value in
      let (fuel', left', e) = find_behind (w ∷ ws) read noise w text fuel left clear named l f in
      e
      ∙ find_step (w ∷ ws) read fuel' (suc left') (w ∷ text) (w ∷ text) (omega arith)
          (ap position (skip_none_text (length (w ∷ text)) w text named))
      ∙ rw
          (
            matches_self w ws (61 ∷ 32 ∷ v ∷ value),
            drop-append (length ws) ws (32 ∷ 61 ∷ 32 ∷ v ∷ value) refl,
          )
          value_read
