-- ===== src/Database/Order.antt =====
-- The order of the callbacks (게임서버/컨텐츠/클래스/DB.cpp).
use game_server_client.Base.{
  ℕ, ◌≤◌, ◌<◌, ◌≡◌, refl, List, [], ◌∷◌, ◌++◌, Option, none, some, length, arith, ap, ◌∙◌, sym,
  append-nil, append_assoc, length-append,
}
use game_server_client.Database.{
  start, Reach, here, next, Mysql, RequestQuery, RespondQuery, response, Db, Step, request, dequeue,
  finish, respond,
}

-- The functions of requests, and of responses, in order.
abbrev pub one : Option ℕ → List ℕ
one none = []
one (some f) = f ∷ []

abbrev pub called : List RequestQuery → List ℕ
called [] = []
called (q ∷ qs) = one q.function ++ called qs

pub called-append : (qs rs : List RequestQuery) → called (qs ++ rs) ≡ called qs ++ called rs
called-append [] rs = refl
called-append (q ∷ qs) rs =
    ap (λ t. one q.function ++ t) (called-append qs rs)
    ∙ sym (append_assoc (one q.function) (called qs) (called rs))

empty : (qs : List RequestQuery) → length qs < 1 → qs ≡ []
empty [] h = refl
empty (q ∷ qs) h = absurd (omega arith)

alone :
    (before after : List RequestQuery) (q : RequestQuery)
    → length (before ++ q ∷ after) ≤ 1
    → (before ≡ []) × (after ≡ [])
alone [] [] q h = (refl, refl)
alone [] (r ∷ after) q h = absurd (omega arith)
alone (r ∷ before) after q h = absurd (omega (arith, length-append before (q ∷ after)))

module _ (m : Mysql) where
  abbrev pub functions : List (RespondQuery m) → List ℕ
  functions [] = []
  functions (a ∷ ds) = a.function ∷ functions ds

  pub functions-append :
      (ds es : List (RespondQuery m)) → functions (ds ++ es) ≡ functions ds ++ functions es
  functions-append [] es = refl
  functions-append (a ∷ ds) es = ap (◌∷◌ a.function) (functions-append ds es)

  pub functions-response :
      (answer : Option m.Result × ℕ) (f : Option ℕ) → functions (response m answer f) ≡ one f
  unfolding response
  functions-response answer none = refl
  functions-response (result, errorno) (some f) = refl

  -- All functions of the requests, in the order of their ways through the queues.
  abbrev pub pending : Db m → List ℕ
  pending d = functions d.respond_queue ++ (called d.working ++ called d.request_queue)

  record InOrder (d : Db m) : Type 0 where
    one_works : length d.working ≤ 1
    kept : called d.asked ≡ functions d.responded ++ pending d

  ruleset moved = (called-append, functions-append, functions-response, append-nil, append_assoc)

  Step-InOrder : {d d' : Db m} → Step m 1 d d' → InOrder d → InOrder d'
  Step-InOrder {d} (request q) i = record { one_works = i.one_works; kept = simp (i.kept, moved) }
  Step-InOrder {d} (dequeue q rest e l) i =
      let nobody : d.working ≡ [] = empty d.working l in
      record { one_works = rw nobody (omega arith); kept = i.kept ∙ rw (e, nobody) (simp moved) }
  Step-InOrder {d} (finish before q after e) i =
      let (no_before, no_after) = alone before after q (rw (← e) i.one_works) in
      record {
        one_works = rw (no_before, no_after) (omega arith);
        kept = i.kept ∙ rw (e, no_before, no_after) (simp moved);
      }
  Step-InOrder {d} (respond a rest e) i = record {
    one_works = i.one_works;
    kept = i.kept ∙ rw e (simp moved);
  }

  start-InOrder : (c : m.Connection) → InOrder (start m c)
  unfolding start
  start-InOrder c = record { one_works = omega arith; kept = refl }

  Reach-InOrder : {d d' : Db m} → Reach m 1 d d' → InOrder d → InOrder d'
  Reach-InOrder here i = i
  Reach-InOrder (next before step) i = Step-InOrder step (Reach-InOrder before i)

  -- With one thread the callbacks run in the order in which their requests were asked for, whatever
  -- the interleaving of the room and the thread: those that have run come first, then those of the
  -- responses, of the request that the thread has, and of the requests that wait.
  pub callbacks_in_order :
      (c : m.Connection) {d : Db m}
      → Reach m 1 (start m c) d
      → called d.asked ≡ functions d.responded ++ pending d
  callbacks_in_order c run = (Reach-InOrder run (start-InOrder c)).kept
