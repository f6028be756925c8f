-- ===== src/Texts/Rows.antt =====
-- The rows that Parse keeps have as many columns as the first.
use game_server_client.Base.{
  ℕ, ◌≡◌, ◌≢◌, refl, List, [], ◌∷◌, arith, ◌==◌, length, ==_iff, false, ℕ_discrete,
}
use game_server_client.Inventory.Quantity.{ne→==_false}
use game_server_client.Texts.{parse_line, parse_from, parse}

-- Every row has `col` columns.
abbrev pub HaveColumns : ℕ → List (List (List ℕ)) → Type 0
HaveColumns col [] = Unit {0}
HaveColumns col (row ∷ rows) = (length row ≡ col) × HaveColumns col rows

parse_from-HaveColumns :
    (col : ℕ) (lines : List (List ℕ)) → col ≢ 0 → HaveColumns col (parse_from col lines)
unfolding parse_from
parse_from-HaveColumns col [] h = tt
parse_from-HaveColumns col (line ∷ lines) h =
    let set : (col == 0) ≡ false = ne→==_false col 0 h in
    elim (ℕ_discrete (length (parse_line line)) col) [
      | yes same ↦ rw set (
          rw ((==_iff (length (parse_line line)) col).1 same)
            (same, parse_from-HaveColumns col lines h))
      | no other ↦ rw set (
          rw (ne→==_false (length (parse_line line)) col other)
            (parse_from-HaveColumns col lines h))
    ]

length-ne : (xs : List (List ℕ)) → xs ≢ [] → length xs ≢ 0
length-ne [] h = absurd (h refl)
length-ne (x ∷ xs) h = λ e. absurd (omega arith)

-- Where the first line has a column, Parse keeps it as the first row, and every row that it keeps
-- has as many columns.
pub parse-HaveColumns :
    (line : List ℕ) (lines : List (List ℕ))
    → parse_line line ≢ []
    → (rest : List (List (List ℕ))) × (parse (line ∷ lines) ≡ parse_line line ∷ rest)
      × HaveColumns (length (parse_line line)) rest
unfolding parse parse_from
parse-HaveColumns line lines h =
    let n : ℕ = length (parse_line line) in
    (
      parse_from n lines,
      rw ((==_iff n n).1 refl) refl,
      parse_from-HaveColumns n lines (length-ne (parse_line line) h),
    )
