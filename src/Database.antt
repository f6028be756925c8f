-- ===== src/Database.antt =====
-- The database of a room (게임서버/컨텐츠/클래스/DB.cpp, which the login server has too): rooms queue
-- requests, threads put them to MySQL, and the callbacks run when the room responds.
-- MySQL is a record of operations. A text is a list of bytes and a callback is known by a number.
pub mod Order
pub mod Overtaking
pub mod Hidden
mod Tests
use game_server_client.Base.{
  ℕ, List, [], ◌∷◌, ◌++◌, Option, none, some, if◌then◌else◌, ◌==◌, length, ◌<◌, ◌≡◌,
}

-- What DBThread calls of MySQL: `mysql_query`, with the number of `mysql_errno`, which is 0 where the
-- query has succeeded, and `mysql_store_result`, of which `none` is a null pointer.
pub record Mysql : Type 1 where
  pub Connection : Type 0
  pub Result : Type 0
  pub query : Connection → List ℕ → Connection × ℕ
  pub store_result : Connection → Option Result

pub record RequestQuery : Type 0 where
  pub query_list : List (List ℕ)
  pub function : Option ℕ

pub record RespondQuery (m : Mysql) : Type 0 where
  pub sql_res : Option m.Result
  pub errorno : ℕ
  pub function : ℕ

-- RequestQuery, RequestTransactionQuery and RequestLastQuery.
unfoldable pub single : (query : List ℕ) → (function : ℕ) → RequestQuery
single query function = record { query_list = query ∷ []; function = some function }

unfoldable pub transaction : (queries : List (List ℕ)) → (function : ℕ) → RequestQuery
transaction queries function = record { query_list = queries; function = some function }

unfoldable pub last : (function : ℕ) → RequestQuery
last function = record { query_list = []; function = some function }

-- "START TRANSACTION", "COMMIT" and "ROLLBACK"
abbrev pub start_transaction : List ℕ
start_transaction =
    83 ∷ 84 ∷ 65 ∷ 82 ∷ 84 ∷ 32 ∷ 84 ∷ 82 ∷ 65 ∷ 78 ∷ 83 ∷ 65 ∷ 67 ∷ 84 ∷ 73 ∷ 79 ∷ 78 ∷ []

abbrev pub commit : List ℕ
commit = 67 ∷ 79 ∷ 77 ∷ 77 ∷ 73 ∷ 84 ∷ []

abbrev pub rollback : List ℕ
rollback = 82 ∷ 79 ∷ 76 ∷ 76 ∷ 66 ∷ 65 ∷ 67 ∷ 75 ∷ []

module _ (m : Mysql) where
  -- The queries of a transaction up to the first that fails, and COMMIT; a failure is rolled back.
  unfoldable pub run_all : m.Connection → List (List ℕ) → m.Connection
  run_all db [] =
      let (db', errorno) = m.query db commit in
      if errorno == 0 then db' else (m.query db' rollback).0
  run_all db (query ∷ queries) =
      let next = run_all (m.query db query).0 queries in
      let failed = (m.query (m.query db query).0 rollback).0 in
      if (m.query db query).1 == 0 then next else failed

  -- A round of DBThread with a request, up to the response: the result and the error number.
  unfoldable pub run_query : m.Connection → List (List ℕ) → m.Connection × Option m.Result × ℕ
  run_query db [] = (db, none, 0)
  run_query db (query ∷ []) =
      let (db', errorno) = m.query db query in
      if errorno == 0 then (db', m.store_result db', 0) else (db', none, errorno)
  run_query db (query ∷ next ∷ queries) =
      let (db', errorno) = m.query db start_transaction in
      (if errorno == 0 then run_all db' (query ∷ next ∷ queries) else db', none, 0)

  -- The response, where there is a function to call.
  unfoldable pub response : Option m.Result × ℕ → (function : Option ℕ) → List (RespondQuery m)
  response answer none = []
  response (result, errorno) (some f) =
      record { sql_res = result; errorno = errorno; function = f } ∷ []

  -- DB, with all that was asked of it and all that was responded: the requests that a thread has
  -- taken stand in `working`.
  pub record Db : Type 0 where
    pub connection : m.Connection
    pub request_queue : List RequestQuery
    pub working : List RequestQuery
    pub respond_queue : List (RespondQuery m)
    pub asked : List RequestQuery
    pub responded : List (RespondQuery m)

  -- The room and the threads, of which there are `threads`, each under the lock of a queue.
  pub data Step (threads : ℕ) : Db → Db → Type 0 where
    request :
        {d : Db}
        → (q : RequestQuery)
        → Step threads d
            (record d { request_queue = d.request_queue ++ q ∷ []; asked = d.asked ++ q ∷ [] })
    dequeue :
        {d : Db}
        → (q : RequestQuery) (rest : List RequestQuery) → d.request_queue ≡ q ∷ rest
        → length d.working < threads
        → Step threads d (record d { request_queue = rest; working = d.working ++ q ∷ [] })
    finish :
        {d : Db}
        → (before : List RequestQuery) (q : RequestQuery) (after : List RequestQuery)
        → d.working ≡ before ++ q ∷ after
        → Step threads d (record d {
          connection = (run_query d.connection q.query_list).0;
          working = before ++ after;
          respond_queue =
              d.respond_queue
              ++ response
                  ((run_query d.connection q.query_list).1, (run_query d.connection q.query_list).2)
                  q.function;
        })
    respond :
        {d : Db}
        → (a : RespondQuery m) (rest : List (RespondQuery m)) → d.respond_queue ≡ a ∷ rest
        → Step threads d (record d { respond_queue = rest; responded = d.responded ++ a ∷ [] })

  unfoldable pub start : m.Connection → Db
  start connection = record {
    connection = connection;
    request_queue = [];
    working = [];
    respond_queue = [];
    asked = [];
    responded = [];
  }

  pub data Reach (threads : ℕ) (d : Db) : Db → Type 0 where
    here : Reach threads d d
    next : {d' d'' : Db} → Reach threads d d' → Step threads d' d'' → Reach threads d d''
