-- ===== src/Config.antt =====
-- The scanner of the ini files (라이브러리/TextPasing.cpp): CTextPasing and CTextPasingCategory, which has
-- the same functions on a part of the text.
-- A position is what is left of the text from there on. `none` is undefined: a read beyond the text, or
-- a number that no int holds. SkipNone can go on for ever, and has an answer of its own for that, which
-- is `none` for its callers; a loop has fuel, one round more than the bytes left.
pub mod Skips
pub mod Entries
pub mod Ints
mod Tests
use game_server_client.Base.{
  ℕ, zero, suc, ◌+◌, ◌-◌, ◌%◌, ◌^◌, List, [], ◌∷◌, Bool, true, false, Option, none, some,
  if◌then◌else◌, ◌==◌, ltb, leb, ◌||◌, ◌&&◌, ◌>>=◌, length, take, drop, map,
}
use game_server_client.Tasks.{is_digit, read_digits}
use game_server_client.Field.{same}

-- A blank, a tab, '\r' or '\n'.
unfoldable pub is_space : ℕ → Bool
is_space c = (c == 32) || (c == 9) || (c == 13) || (c == 10)

-- What may follow a word: a blank, a tab, '\r' or '/'.
unfoldable pub is_stop : ℕ → Bool
is_stop c = (c == 32) || (c == 9) || (c == 13) || (c == 47)

unfoldable pub skip_spaces : List ℕ → Option (List ℕ)
skip_spaces [] = none
skip_spaces (c ∷ cs) = let rest = skip_spaces cs in if is_space c then rest else some (c ∷ cs)

-- Behind "//": to two bytes behind the next '\r', itself counted.
unfoldable pub skip_line : List ℕ → Option (List ℕ)
skip_line [] = none
skip_line (c ∷ cs) = let rest = skip_line cs in if c == 13 then some (drop 1 cs) else rest

unfoldable pub skip_lines : (fuel : ℕ) → List ℕ → Option (List ℕ)
skip_lines zero text = none
skip_lines (suc fuel) [] = none
skip_lines (suc fuel) (c ∷ []) = if c == 47 then none else some (c ∷ [])
skip_lines (suc fuel) (c ∷ d ∷ ds) = elim ((c == 47) && (d == 47)) [
  | false ↦ some (c ∷ d ∷ ds)
  | true ↦ do rest ← skip_line (d ∷ ds); skip_lines fuel rest
]

-- Behind "/*": to behind the next "*/".
unfoldable pub skip_to_end : List ℕ → Option (List ℕ)
skip_to_end [] = none
skip_to_end (c ∷ []) = none
skip_to_end (c ∷ d ∷ ds) =
    let rest = skip_to_end (d ∷ ds) in if (c == 42) && (d == 47) then some ds else rest

unfoldable pub skip_block : List ℕ → Option (List ℕ)
skip_block [] = none
skip_block (c ∷ []) = if c == 47 then none else some (c ∷ [])
skip_block (c ∷ d ∷ ds) = if (c == 47) && (d == 42) then skip_to_end ds else some (c ∷ d ∷ ds)

-- How SkipNone ends: at a position, with a read beyond the text, or not within some rounds.
pub data Skipped : Type 0 where
  landed : List ℕ → Skipped
  outside unfinished : Skipped

-- One round of SkipNone at a blank or a '/'.
unfoldable pub skip_round : List ℕ → Option (List ℕ)
skip_round text = do
  begun ← skip_spaces text
  lines ← skip_lines (suc (length begun)) begun
  skip_block lines

-- SkipNone
unfoldable pub skip_none : (fuel : ℕ) → List ℕ → Skipped
skip_none zero text = unfinished
skip_none (suc fuel) [] = outside
skip_none (suc fuel) (c ∷ cs) = elim (is_space c || (c == 47)) [
  | false ↦ landed (c ∷ cs)
  | true ↦ elim (skip_round (c ∷ cs)) [ none ↦ outside | some rest ↦ skip_none fuel rest ]
]

abbrev pub position : Skipped → Option (List ℕ)
position (landed text) = some text
position outside = none
position unfinished = none

abbrev pub skip : List ℕ → Option (List ℕ)
skip text = position (skip_none (suc (length text)) text)

-- Whether the word stands here, with what may follow a word.
unfoldable pub stopped : List ℕ → Option Bool
stopped [] = none
stopped (c ∷ cs) = some (is_stop c)

unfoldable pub whole : (word text : List ℕ) → Option Bool
whole word text =
    if leb (length word) (length text)
    then (if same word (take (length word) text)
        then stopped (drop (length word) text)
        else some false)
    else none

unfoldable pub matches : (word text : List ℕ) → Option Bool
matches word text = if same (take 1 word) (take 1 text) then whole word text else some false

-- Behind the word: a '=' and the value, or `false`.
unfoldable pub value_at :
    {A : Type 0} → (read : List ℕ → Option (Option A)) → List ℕ → Option (Option A)
value_at read text = do
  at ← skip text
  elim at [
    | [] ↦ none
    | c ∷ cs ↦ elim (c == 61) [ true ↦ do value ← skip cs; read value | false ↦ some none ]
  ]

-- The loop that all of GetValueInt, GetValueShort, GetValueByte, GetValueBool, GetValueChar and
-- GetValueWChar have: `left` is BufferSize less the position, and the inner `none` is `false`.
unfoldable pub find_value :
    {A : Type 0}
    → (fuel : ℕ) → (word : List ℕ) → (read : List ℕ → Option (Option A)) → (left : ℕ)
    → (text : List ℕ) → Option (Option A)
find_value zero word read left text = none
find_value (suc fuel) word read left text = elim (left == 0) [
  | true ↦ some none
  | false ↦ do
    at ← skip text
    here ← matches word at
    elim here [
      | true ↦ value_at read (drop (length word) at)
      | false ↦ find_value fuel word read (left - (length text - length at) - 1) (drop 1 at)
    ]
]

-- The digits of a number end within the text.
unfoldable pub digits_end : List ℕ → Bool
digits_end [] = false
digits_end (c ∷ cs) = let rest = digits_end cs in if is_digit c then rest else true

unfoldable pub read_int : List ℕ → Option (Option ℕ)
read_int text =
    if digits_end text
    then (if ltb (read_digits 0 text) (2 ^ 31) then some (some (read_digits 0 text)) else none)
    else none

unfoldable pub read_bool : List ℕ → Option (Option Bool)
read_bool [] = none
read_bool (c ∷ cs) =
    if (c == 102) || (c == 70)
    then some (some false)
    else if (c == 116) || (c == 84)
    then some (some true)
    else some none

-- The bytes up to a quote.
unfoldable pub quoted : (quote : ℕ) → List ℕ → Option (List ℕ)
quoted quote [] = none
quoted quote (c ∷ cs) =
    let rest = (do text ← quoted quote cs; some (c ∷ text)) in if c == quote then some [] else rest

unfoldable pub read_text : List ℕ → Option (Option (List ℕ))
read_text [] = none
read_text (c ∷ cs) =
    if (c == 34) || (c == 39) then (do text ← quoted c cs; some (some text)) else some none

-- CTextPasingCategory: its text goes on behind its size.
pub record Category : Type 0 where
  pub buffer : List ℕ
  pub buffer_size : ℕ

unfoldable pub get_value :
    {A : Type 0}
    → (read : List ℕ → Option (Option A)) → Category
    → (word : List ℕ) → Option (Option A)
get_value read c word = find_value (suc (length c.buffer)) word read c.buffer_size c.buffer

unfoldable pub get_value_int : Category → (word : List ℕ) → Option (Option ℕ)
get_value_int c word = get_value read_int c word

unfoldable pub get_value_short : Category → (word : List ℕ) → Option (Option ℕ)
get_value_short c word = do
  value ← get_value_int c word
  some (elim value [ none ↦ none | some n ↦ some (n % 2 ^ 16) ])

unfoldable pub get_value_byte : Category → (word : List ℕ) → Option (Option ℕ)
get_value_byte c word = do
  value ← get_value_int c word
  some (elim value [ none ↦ none | some n ↦ some (n % 2 ^ 8) ])

unfoldable pub get_value_bool : Category → (word : List ℕ) → Option (Option Bool)
get_value_bool c word = get_value read_bool c word

unfoldable pub get_value_char : Category → (word : List ℕ) → Option (Option (List ℕ))
get_value_char c word = get_value read_text c word

-- A char that becomes a wchar_t keeps its sign.
abbrev pub widen : ℕ → ℕ
widen c = if ltb c 128 then c else c + 65280

unfoldable pub get_value_wchar : Category → (word : List ℕ) → Option (Option (List ℕ))
get_value_wchar c word = do
  value ← get_value_char c word
  some (elim value [ none ↦ none | some text ↦ some (map widen text) ])

-- The size that FindCategory counts: the bytes up to a '}', the first one left out.
unfoldable pub category_size : List ℕ → Option ℕ
category_size [] = none
category_size (c ∷ cs) = do text ← quoted 125 cs; some (length text)

-- What stands behind the name of a category: it, or the position from which the loop goes on.
unfoldable pub category_at : List ℕ → Option (Option Category)
category_at [] = none
category_at (c ∷ cs) = elim (c == 123) [
  | false ↦ some none
  | true ↦ do
    buffer ← skip cs
    size ← category_size buffer
    some (some (record { buffer = buffer; buffer_size = size }))
]

-- FindCategory; the inner `none` is a null pointer.
unfoldable pub find_category :
    (fuel : ℕ) → (name : List ℕ) → (left : ℕ) → (text : List ℕ) → Option (Option Category)
find_category zero name left text = none
find_category (suc fuel) name left text =
    let on =
      λ (at : List ℕ). find_category fuel name (left - (length text - length at) - 1) (drop 1 at) in
    elim (left == 0) [
      | true ↦ some none
      | false ↦ do
        at ← skip text
        elim (same (take 1 at) (58 ∷ [])) [
          | false ↦ on at
          | true ↦ do
            named ← skip (drop 1 at)
            here ← whole name named
            elim here [
              | false ↦ on named
              | true ↦ do
                behind ← skip (drop (length name) named)
                found ← category_at behind
                elim found [ some c ↦ some (some c) | none ↦ on behind ]
            ]
        ]
    ]

-- FindCategory of CTextPasing on the text of a file.
unfoldable pub category_of : (file name : List ℕ) → Option (Option Category)
category_of file name = find_category (suc (length file)) name (length file) file
