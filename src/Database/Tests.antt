-- ===== src/Database/Tests.antt =====
-- A database of which a connection is the number of queries so far, and every second query fails.
use game_server_client.Base.{ℕ, suc, ◌+◌, ◌%◌, ◌≡◌, refl, [], ◌∷◌, ◌++◌, some, arith, true}
use game_server_client.Lobby.{reply, create_character}
use game_server_client.Lobby.Requests.{create_answered}
use game_server_client.Database.{
  Mysql, RequestQuery, run_query, Db, request, dequeue, start, Reach, here, next,
}
use game_server_client.Database.Order.{called, functions, pending, callbacks_in_order}
use game_server_client.Database.Overtaking.{count, callbacks_kept, request_overtaken}
use game_server_client.Database.Hidden.{failed_creation_succeeds}

abbrev counting : Mysql
counting = record {
  Connection = ℕ;
  Result = ℕ;
  query = λ db text. (db + 1, db % 2);
  store_result = λ db. some db;
}

abbrev insert : RequestQuery
insert = record { query_list = (1 ∷ []) ∷ []; function = some 5 }

abbrev leaving : RequestQuery
leaving = record { query_list = []; function = some 6 }

-- Both are asked for, and the first one is with the thread.
abbrev busy : Db counting
busy = record {
  connection = 0;
  request_queue = leaving ∷ [];
  working = insert ∷ [];
  respond_queue = [];
  asked = insert ∷ leaving ∷ [];
  responded = [];
}

busy_run : (threads : ℕ) → Reach counting (suc threads) (start counting 0) busy
unfolding start
busy_run threads =
    next (next (next here (request insert)) (request leaving))
      (dequeue insert (leaving ∷ []) refl (omega arith))

callbacks_in_order_example :
    called busy.asked ≡ functions counting busy.responded ++ pending counting busy
callbacks_in_order_example = callbacks_in_order counting 0 (busy_run 0)

callbacks_kept_example :
    count 6 (called busy.asked)
    ≡ count 6 (functions counting busy.responded)
      + (count 6 (functions counting busy.respond_queue)
          + (count 6 (called busy.working) + count 6 (called busy.request_queue)))
callbacks_kept_example = callbacks_kept counting 3 6 0 (busy_run 2)

request_overtaken_example :
    (d : Db counting) × Reach counting 3 (start counting 0) d
    × (called d.asked ≡ 5 ∷ 6 ∷ [])
    × (functions counting d.responded ≡ 6 ∷ [])
    × (d.working ≡ insert ∷ [])
request_overtaken_example =
    request_overtaken counting 3 (omega arith) 0 insert leaving 5 6 refl refl

failed_creation_succeeds_example :
    ((run_query counting 0 ((1 ∷ []) ∷ (2 ∷ []) ∷ [])).0 ≡ 3)
    × (create_answered 4 (run_query counting 0 ((1 ∷ []) ∷ (2 ∷ []) ∷ [])).2
        ≡ reply 4 (create_character true) ∷ [])
failed_creation_succeeds_example =
    failed_creation_succeeds counting 0 (1 ∷ []) (2 ∷ []) [] 4 refl (λ e. omega arith)
