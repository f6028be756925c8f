-- ===== src/Lobby/Entries.antt =====
-- The lists that Query_Select_Character (게임서버/컨텐츠/전역함수/Query.cpp) joins into a text, as the
-- callbacks of Lobby.cpp split them.
use game_server_client.Base.{ℕ, ◌≡◌, ◌≢◌, refl, List, [], ◌∷◌, ◌++◌, map, arith}
use game_server_client.Texts.{combine_strings, combine_rest, split_string}
use game_server_client.Texts.Splits.{Lacks, AreTokens, split_string-combine_strings}
use game_server_client.Tasks.{to_string}
use game_server_client.Tasks.Numbers.{to_string_some, to_string-Lacks, to_string-Lacks_of}

-- CONCAT of two or three numbers, and GROUP_CONCAT of such.
unfoldable pub pair_text : ℕ × ℕ → List ℕ
pair_text (a, b) = combine_strings (to_string a ∷ to_string b ∷ []) 58

unfoldable pub triple_text : ℕ × ℕ × ℕ → List ℕ
triple_text (a, b, c) = combine_strings (to_string a ∷ to_string b ∷ to_string c ∷ []) 58

Lacks-append : (d : ℕ) (xs ys : List ℕ) → Lacks d xs → Lacks d ys → Lacks d (xs ++ ys)
Lacks-append d [] ys h k = k
Lacks-append d (x ∷ xs) ys h k = (h.0, Lacks-append d xs ys h.1 k)

append_some : (xs ys : List ℕ) → xs ≢ [] → xs ++ ys ≢ []
append_some [] ys h = absurd (h refl)
append_some (x ∷ xs) ys h = λ e. cc

-- A text that can stand between two commas.
abbrev pub IsEntry : List ℕ → Type 0
IsEntry text = Lacks 44 text × (text ≢ [])

pub pair_text-IsEntry : (p : ℕ × ℕ) → IsEntry (pair_text p)
unfolding pair_text combine_strings combine_rest
pair_text-IsEntry (a, b) =
    let last : Lacks 44 (58 ∷ to_string b ++ []) =
      (λ e. omega arith, Lacks-append 44 (to_string b) [] (to_string-Lacks_of 44 b refl) tt) in
    (
      Lacks-append 44 (to_string a) (58 ∷ to_string b ++ []) (to_string-Lacks_of 44 a refl) last,
      append_some (to_string a) (58 ∷ to_string b ++ []) (to_string_some a),
    )

pub triple_text-IsEntry : (t : ℕ × ℕ × ℕ) → IsEntry (triple_text t)
unfolding triple_text combine_strings combine_rest
triple_text-IsEntry (a, b, c) =
    let last : Lacks 44 (58 ∷ to_string c ++ []) =
      (λ e. omega arith, Lacks-append 44 (to_string c) [] (to_string-Lacks_of 44 c refl) tt) in
    let behind : Lacks 44 (58 ∷ to_string b ++ (58 ∷ to_string c ++ [])) = (
      λ e. omega arith,
      Lacks-append 44 (to_string b) (58 ∷ to_string c ++ []) (to_string-Lacks_of 44 b refl) last,
    ) in
    (
      Lacks-append 44 (to_string a) (58 ∷ to_string b ++ (58 ∷ to_string c ++ []))
          (to_string-Lacks_of 44 a refl) behind,
      append_some (to_string a) (58 ∷ to_string b ++ (58 ∷ to_string c ++ [])) (to_string_some a),
    )

pub entries_split :
    {A : Type 0} (text : A → List ℕ) (xs : List A)
    → ((x : A) → IsEntry (text x))
    → split_string (combine_strings (map text xs) 44) 44 ≡ map text xs
entries_split text xs h = split_string-combine_strings (map text xs) 44 (tokens text xs h)
  where
    tokens :
        {A : Type 0} (text : A → List ℕ) (xs : List A)
        → ((x : A) → IsEntry (text x))
        → AreTokens 44 (map text xs)
    tokens text [] h = tt
    tokens text (x ∷ []) h = h x
    tokens text (x ∷ y ∷ xs) h = ((h x).0, tokens text (y ∷ xs) h)

pub pair_split : (a b : ℕ) → split_string (pair_text (a, b)) 58 ≡ to_string a ∷ to_string b ∷ []
unfolding pair_text
pair_split a b =
    split_string-combine_strings (to_string a ∷ to_string b ∷ []) 58
      (to_string-Lacks a, (to_string-Lacks b, to_string_some b))

pub triple_split :
    (a b c : ℕ)
    → split_string (triple_text (a, b, c)) 58 ≡ to_string a ∷ to_string b ∷ to_string c ∷ []
unfolding triple_text
triple_split a b c =
    split_string-combine_strings (to_string a ∷ to_string b ∷ to_string c ∷ []) 58
      (to_string-Lacks a, (to_string-Lacks b, (to_string-Lacks c, to_string_some c)))
