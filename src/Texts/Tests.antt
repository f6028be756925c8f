-- ===== src/Texts/Tests.antt =====
-- Texts split at commas: "a,bc" and a table of two columns.
use game_server_client.Base.{◌≡◌, refl, [], ◌∷◌}
use game_server_client.Texts.{split_string, split_from, last_token, parse_line, parse, parse_from}

-- A text that ends behind the delimiter has no empty token after it.
trailing_test : split_string (97 ∷ 44 ∷ []) 44 ≡ (97 ∷ []) ∷ []
unfolding split_string split_from last_token
trailing_test = refl

-- The second line has one column and is left out.
parse_test : parse ((97 ∷ 44 ∷ 98 ∷ []) ∷ (99 ∷ []) ∷ []) ≡ ((97 ∷ []) ∷ (98 ∷ []) ∷ []) ∷ []
unfolding parse parse_from parse_line split_from last_token
parse_test = refl
