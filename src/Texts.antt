-- ===== src/Texts.antt =====
-- CombineStrings and SplitString (게임서버/컨텐츠/전역함수/StringUtilities.cpp, and the same two of the
-- login server), and the rows of a table (라이브러리/CCsvParser.cpp). Texts are lists of bytes; the lines
-- that `getline` reads of a file are an argument.
pub mod Splits
pub mod Rows
mod Tests
use game_server_client.Base.{ℕ, List, [], ◌∷◌, ◌++◌, ◌==◌, if◌then◌else◌, length}

-- `result += combiner` before every value but the first.
unfoldable pub combine_rest : List (List ℕ) → ℕ → List ℕ
combine_rest [] combiner = []
combine_rest (v ∷ vs) combiner = combiner ∷ v ++ combine_rest vs combiner

unfoldable pub combine_strings : List (List ℕ) → ℕ → List ℕ
combine_strings [] combiner = []
combine_strings (v ∷ vs) combiner = v ++ combine_rest vs combiner

-- The token that is left at the end of the text, if anything has been read of it.
unfoldable pub last_token : List ℕ → List (List ℕ)
last_token [] = []
last_token (c ∷ cs) = (c ∷ cs) ∷ []

-- The loop of `getline`: `token` is what has been read of the next one. A text that ends behind a
-- delimiter has no token after it.
unfoldable pub split_from : List ℕ → List ℕ → ℕ → List (List ℕ)
split_from token [] delimiter = last_token token
split_from token (c ∷ cs) delimiter =
    let ended = split_from [] cs delimiter in
    let longer = split_from (token ++ c ∷ []) cs delimiter in
    if c == delimiter then token ∷ ended else longer

unfoldable pub split_string : List ℕ → ℕ → List (List ℕ)
split_string str delimiter = split_from [] str delimiter

-- ParseLine: the delimiter is a comma.
unfoldable pub parse_line : List ℕ → List (List ℕ)
parse_line line = split_from [] line 44

-- The loop of Parse: rows that have not `col` columns are left out, and `col` is set by the first
-- row that has any.
unfoldable pub parse_from : (col : ℕ) → List (List ℕ) → List (List (List ℕ))
parse_from col [] = []
parse_from col (line ∷ lines) =
    let row = parse_line line in
    let col' = if col == 0 then length row else col in
    let rest = parse_from col' lines in if length row == col' then row ∷ rest else rest

-- Parse, on the lines of a file that could be opened.
unfoldable pub parse : List (List ℕ) → List (List (List ℕ))
parse lines = parse_from 0 lines
