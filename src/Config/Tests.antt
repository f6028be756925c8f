-- ===== src/Config/Tests.antt =====
-- An ini file as the servers have it, with blanks, comments and two categories.
use game_server_client.Base.{ℕ, ◌>>=◌, ◌≡◌, refl, List, [], ◌∷◌, Option, none, some, arith}
use game_server_client.Config.{
  get_value_int, get_value_char, category_of, find_category, category_at, category_size, find_value,
  get_value, read_int, read_text, matches, whole, stopped, value_at, skip_none, skip_round,
  unfinished, skip_spaces, skip_line, skip_lines, skip_block, skip_to_end, digits_end, quoted,
  is_space, is_stop,
}
use game_server_client.Config.Skips.{slash_hangs}
use game_server_client.Tasks.{read_digits}
use game_server_client.Field.{same}

-- ":A {\r\n//x\r\nPort = 50000\r\nIP = \"1.2\" N /*=*/= T }"
abbrev file : List ℕ
file =
    58 ∷ 65 ∷ 32 ∷ 123 ∷ 13 ∷ 10 ∷ 47 ∷ 47 ∷ 120 ∷ 13 ∷ 10 ∷ 80 ∷ 111 ∷ 114 ∷ 116 ∷ 32 ∷ 61 ∷ 32
    ∷ 53 ∷ 48 ∷ 48 ∷ 48 ∷ 48 ∷ 13 ∷ 10 ∷ 73 ∷ 80 ∷ 32 ∷ 61 ∷ 32 ∷ 34 ∷ 49 ∷ 46 ∷ 50 ∷ 34 ∷ 32 ∷ 78
    ∷ 32 ∷ 47 ∷ 42 ∷ 61 ∷ 42 ∷ 47 ∷ 61 ∷ 32 ∷ 84 ∷ 32 ∷ 125 ∷ []

port : Option (Option ℕ)
port = do
  found ← category_of file (65 ∷ [])
  elim found [ none ↦ none | some c ↦ get_value_int c (80 ∷ 111 ∷ 114 ∷ 116 ∷ []) ]

ip : Option (Option (List ℕ))
ip = do
  found ← category_of file (65 ∷ [])
  elim found [ none ↦ none | some c ↦ get_value_char c (73 ∷ 80 ∷ []) ]

port_test : port ≡ some (some 50000)
unfolding port category_of find_category category_at category_size find_value get_value
    get_value_int read_int matches whole stopped value_at skip_none skip_round skip_spaces skip_line
    skip_lines skip_block skip_to_end digits_end quoted is_space is_stop read_digits same
port_test = refl

ip_test : ip ≡ some (some (49 ∷ 46 ∷ 50 ∷ []))
unfolding ip category_of find_category category_at category_size find_value get_value get_value_char
    read_text matches whole stopped value_at skip_none skip_round skip_spaces skip_line skip_lines
    skip_block skip_to_end quoted is_space is_stop same
ip_test = refl

-- "IPs = 7\r\n" before "IP = 12\r\n"
abbrev noise : List ℕ
noise = 73 ∷ 80 ∷ 115 ∷ 32 ∷ 61 ∷ 32 ∷ 55 ∷ 13 ∷ 10 ∷ []

slash_hangs_example : skip_none 9 (47 ∷ 65 ∷ []) ≡ unfinished
slash_hangs_example = slash_hangs 9 65 [] (λ e. omega arith) (λ e. omega arith)
