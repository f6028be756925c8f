-- ===== src/Config/Skips.antt =====
-- What SkipNone skips (라이브러리/TextPasing.cpp).
use game_server_client.Base.{
  ap, zero, ℕ, suc, ◌≡◌, ◌≢◌, refl, List, [], ◌∷◌, Bool, true, false, some, if◌then◌else◌, ◌==◌,
  ◌||◌, arith, length, Bool-cases, inl, inr,
}
use game_server_client.Config.{
  is_space, skip_spaces, skip_lines, skip_block, skip_none, skip_round, skip, position, landed,
  unfinished,
}

-- A byte at which SkipNone stops.
unfoldable pub is_text : ℕ → Bool
is_text c = if is_space c || (c == 47) then false else true

pub skip_lines_text :
    (fuel : ℕ) (x : ℕ) (rest : List ℕ)
    → is_text x ≡ true
    → skip_lines (suc fuel) (x ∷ rest) ≡ some (x ∷ rest)
unfolding skip_lines is_text is_space
skip_lines_text fuel x [] h = ground arith
skip_lines_text fuel x (d ∷ rest) h = ground arith

pub skip_block_text :
    (x : ℕ) (rest : List ℕ) → is_text x ≡ true → skip_block (x ∷ rest) ≡ some (x ∷ rest)
unfolding skip_block is_text is_space
skip_block_text x [] h = ground arith
skip_block_text x (d ∷ rest) h = ground arith

pub skip_none_text :
    (fuel : ℕ) (x : ℕ) (rest : List ℕ)
    → is_text x ≡ true
    → skip_none (suc fuel) (x ∷ rest) ≡ landed (x ∷ rest)
unfolding skip_none is_text
skip_none_text fuel x rest h =
    let stops : (is_space x || (x == 47)) ≡ false = ground arith in rw (stops, skip_none) refl

blank_skips : (c : ℕ) → is_space c ≡ true → (is_space c || (c == 47)) ≡ true
blank_skips c h = rw h refl

head_text :
    (c : ℕ) (cs : List ℕ) (x : ℕ) (rest : List ℕ)
    → skip_spaces (c ∷ cs) ≡ some (x ∷ rest)
    → is_space c ≡ false
    → (c ≡ x) × (cs ≡ rest)
unfolding skip_spaces
head_text c cs x rest e solid =
    let same : some (c ∷ cs) ≡ some (x ∷ rest) = rw solid at e in (cc, cc)

nothing : (x : ℕ) (rest : List ℕ) → skip_spaces [] ≡ some (x ∷ rest) → ⊥
unfolding skip_spaces
nothing x rest e = cc

-- Blanks are skipped up to the text behind them.
pub skip_lands :
    (text : List ℕ) (x : ℕ) (rest : List ℕ)
    → skip_spaces text ≡ some (x ∷ rest)
    → is_text x ≡ true
    → skip text ≡ some (x ∷ rest)
unfolding skip_none skip_round
skip_lands [] x rest e h = absurd (nothing x rest e)
skip_lands (c ∷ cs) x rest e h = elim (Bool-cases (is_space c)) [
  | inl blank ↦
      rw (blank_skips c blank, skip_none)
        (rw e (
          rw (skip_lines_text (length (x ∷ rest)) x rest h, skip_block_text x rest h)
            (ap position (skip_none_text (length cs) x rest h))))
  | inr solid ↦
      let (first, behind) = head_text c cs x rest e solid in
      rw (first, behind) (ap position (skip_none_text (length (x ∷ rest)) x rest h))
]

slash_lines :
    (fuel c : ℕ) (cs : List ℕ) → c ≢ 47 → skip_lines (suc fuel) (47 ∷ c ∷ cs) ≡ some (47 ∷ c ∷ cs)
unfolding skip_lines
slash_lines fuel c cs h = let no : (c == 47) ≡ false = ground arith in rw (no, skip_lines) refl

slash_block : (c : ℕ) (cs : List ℕ) → c ≢ 42 → skip_block (47 ∷ c ∷ cs) ≡ some (47 ∷ c ∷ cs)
unfolding skip_block
slash_block c cs h = let no : (c == 42) ≡ false = ground arith in rw (no, skip_block) refl

slash_round :
    (c : ℕ) (cs : List ℕ) → c ≢ 47 → c ≢ 42 → skip_round (47 ∷ c ∷ cs) ≡ some (47 ∷ c ∷ cs)
unfolding skip_round skip_spaces is_space
slash_round c cs h k = rw (slash_lines (length (47 ∷ c ∷ cs)) c cs h) (slash_block c cs k)

-- A '/' that begins no comment: SkipNone has not come to an end after any number of rounds, and has not
-- read beyond the text.
pub slash_hangs :
    (fuel c : ℕ) (cs : List ℕ) → c ≢ 47 → c ≢ 42 → skip_none fuel (47 ∷ c ∷ cs) ≡ unfinished
unfolding skip_none is_space
slash_hangs zero c cs h k = refl
slash_hangs (suc fuel) c cs h k = rw (slash_round c cs h k, skip_none) (slash_hangs fuel c cs h k)
