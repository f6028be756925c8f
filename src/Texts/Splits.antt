-- ===== src/Texts/Splits.antt =====
-- SplitString undoes CombineStrings.
use game_server_client.Base.{
  ℕ, ◌≡◌, ◌≢◌, refl, List, [], ◌∷◌, ◌++◌, ap, ◌∙◌, append-nil, append_assoc, sym,
}
use game_server_client.Inventory.Quantity.{ne→==_false}
use game_server_client.Base.{==_iff}
use game_server_client.Texts.{combine_rest, combine_strings, split_from, split_string, last_token}

-- No byte of the text is the delimiter.
abbrev pub Lacks : ℕ → List ℕ → Type 0
Lacks d [] = Unit {0}
Lacks d (c ∷ cs) = (c ≢ d) × Lacks d cs

-- None of the texts has the delimiter, and the last one is not empty.
abbrev pub AreTokens : ℕ → List (List ℕ) → Type 0
AreTokens d [] = Unit {0}
AreTokens d (v ∷ []) = Lacks d v × (v ≢ [])
AreTokens d (v ∷ w ∷ vs) = Lacks d v × AreTokens d (w ∷ vs)

-- The loop reads over a text without the delimiter.
split_from-append :
    (token v rest : List ℕ) (d : ℕ)
    → Lacks d v
    → split_from token (v ++ rest) d ≡ split_from (token ++ v) rest d
unfolding split_from
split_from-append token [] rest d h = ap (λ t. split_from t rest d) (sym (append-nil token))
split_from-append token (c ∷ v) rest d h = rw (ne→==_false c d h.0) (
    split_from-append (token ++ c ∷ []) v rest d h.1
    ∙ ap (λ t. split_from t rest d) (append_assoc token (c ∷ []) v))

last_token_lem : (v : List ℕ) → v ≢ [] → last_token v ≡ v ∷ []
unfolding last_token
last_token_lem [] h = absurd (h refl)
last_token_lem (c ∷ v) h = refl

split-combine_rest :
    (v : List ℕ) (vs : List (List ℕ)) (d : ℕ)
    → AreTokens d (v ∷ vs)
    → split_from [] (v ++ combine_rest vs d) d ≡ v ∷ vs
unfolding combine_rest split_from
split-combine_rest v [] d h = split_from-append [] v [] d h.0 ∙ last_token_lem v h.1
split-combine_rest v (w ∷ vs) d h =
    split_from-append [] v (d ∷ w ++ combine_rest vs d) d h.0
    ∙ rw ((==_iff d d).1 refl) (ap (◌∷◌ v) (split-combine_rest w vs d h.1))

-- SplitString of what CombineStrings makes of some texts is those texts: for texts that do not
-- have the delimiter and of which the last is not empty.
pub split_string-combine_strings :
    (vs : List (List ℕ)) (d : ℕ) → AreTokens d vs → split_string (combine_strings vs d) d ≡ vs
unfolding split_string combine_strings split_from last_token
split_string-combine_strings [] d h = refl
split_string-combine_strings (v ∷ vs) d h = split-combine_rest v vs d h
