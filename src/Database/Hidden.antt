-- ===== src/Database/Hidden.antt =====
-- What a room learns of a transaction (게임서버/컨텐츠/클래스/DB.cpp).
use game_server_client.Base.{true, ℕ, ◌≡◌, ◌≢◌, refl, List, [], ◌∷◌, arith}
use game_server_client.Lobby.{reply, create_character}
use game_server_client.Lobby.Requests.{create_answered}
use game_server_client.Database.{Mysql, run_query, run_all, start_transaction, rollback}

module _ (m : Mysql) (db : m.Connection) (first second : List ℕ) (others : List (List ℕ)) where
  -- A transaction of two queries or more, of which the first one fails after the start: it is rolled
  -- back, and yet the lobby tells the player that the character has been created.
  pub failed_creation_succeeds :
      (session_id : ℕ)
      → (m.query db start_transaction).1 ≡ 0
      → (m.query (m.query db start_transaction).0 first).1 ≢ 0
      → ((run_query m db (first ∷ second ∷ others)).0
          ≡ (m.query (m.query (m.query db start_transaction).0 first).0 rollback).0)
        × (create_answered session_id (run_query m db (first ∷ second ∷ others)).2
            ≡ reply session_id (create_character true) ∷ [])
  unfolding run_query run_all create_answered
  failed_creation_succeeds session_id started failed = (ground arith, refl)
