-- ===== src/Database/Overtaking.antt =====
-- Several threads at the queue of requests (게임서버/컨텐츠/클래스/DB.cpp).
use game_server_client.Base.{
  ℕ, ◌+◌, ◌≤◌, ◌≡◌, refl, List, [], ◌∷◌, ◌++◌, Option, some, arith, ◌∙◌, append-nil, ◌==◌,
  if◌then◌else◌,
}
use game_server_client.Database.{
  Mysql, RequestQuery, RespondQuery, run_query, response, Db, Step, request, dequeue, finish,
  respond, start, Reach, here, next,
}
use game_server_client.Database.Order.{
  one, called, called-append, functions, functions-append, functions-response,
}

-- How often a function stands in a list.
abbrev pub count : ℕ → List ℕ → ℕ
count f [] = 0
count f (g ∷ gs) = (if f == g then 1 else 0) + count f gs

count-append : (f : ℕ) (gs hs : List ℕ) → count f (gs ++ hs) ≡ count f gs + count f hs
count-append f [] hs = omega arith
count-append f (g ∷ gs) hs = omega (arith, count-append f gs hs)

module _ (m : Mysql) (threads : ℕ) (f : ℕ) where
  abbrev Balanced : Db m → Type 0
  Balanced d =
      count f (called d.asked)
      ≡ count f (functions m d.responded)
        + (count f (functions m d.respond_queue)
            + (count f (called d.working) + count f (called d.request_queue)))

  ruleset counted = (called-append, functions-append, functions-response, count-append, append-nil)

  Step-Balanced : {d d' : Db m} → Step m threads d d' → Balanced d → Balanced d'
  Step-Balanced {d} (request q) b = simp counted (omega (arith, b))
  Step-Balanced {d} (dequeue q rest e l) b =
      let b' : count f (called d.asked)
          ≡ count f (functions m d.responded)
            + (count f (functions m d.respond_queue)
                + (count f (called d.working)
                    + (count f (one q.function) + count f (called rest)))) =
        b ∙ rw e (simp counted) in
      simp counted (omega (arith, b'))
  Step-Balanced {d} (finish before q after e) b =
      let b' : count f (called d.asked)
          ≡ count f (functions m d.responded)
            + (count f (functions m d.respond_queue)
                + ((count f (called before) + (count f (one q.function) + count f (called after)))
                    + count f (called d.request_queue))) =
        b ∙ rw e (simp counted) in
      simp counted (omega (arith, b'))
  Step-Balanced {d} (respond a rest e) b =
      let b' : count f (called d.asked)
          ≡ count f (functions m d.responded)
            + (count f (functions m (a ∷ rest))
                + (count f (called d.working) + count f (called d.request_queue))) =
        b ∙ rw e refl in
      simp counted (omega (arith, b'))

  Reach-Balanced : {d d' : Db m} → Reach m threads d d' → Balanced d → Balanced d'
  Reach-Balanced here b = b
  Reach-Balanced (next before step) b = Step-Balanced step (Reach-Balanced before b)

  -- Whatever the number of threads and their interleaving with the room, a callback has run or will
  -- run as often as it was asked for: no request is lost, and none is answered twice.
  pub callbacks_kept :
      (c : m.Connection) {d : Db m}
      → Reach m threads (start m c) d
      → count f (called d.asked)
        ≡ count f (functions m d.responded)
          + (count f (functions m d.respond_queue)
              + (count f (called d.working) + count f (called d.request_queue)))
  unfolding start
  callbacks_kept c run = Reach-Balanced run refl

module _ (m : Mysql) (threads : ℕ) (two : 2 ≤ threads) (c : m.Connection) (p q : RequestQuery)
    (f g : ℕ) (p_calls : p.function ≡ some f) (q_calls : q.function ≡ some g) where
  -- Two threads: the callback of a request can run while the request that was asked for before it is
  -- still with a thread.
  pub request_overtaken :
      (d : Db m) × Reach m threads (start m c) d
      × (called d.asked ≡ f ∷ g ∷ [])
      × (functions m d.responded ≡ g ∷ [])
      × (d.working ≡ p ∷ [])
  unfolding start response
  request_overtaken =
      let answer : Option m.Result × ℕ =
        ((run_query m c q.query_list).1, (run_query m c q.query_list).2) in
      let a : RespondQuery m = record { sql_res = answer.0; errorno = answer.1; function = g } in
      let run =
        next
          (next
            (next (next (next here (request p)) (request q))
              (dequeue p (q ∷ []) refl (omega arith)))
            (dequeue q [] refl (omega arith)))
          (finish (p ∷ []) q [] refl) in
      (_, next run (respond a [] (rw q_calls refl)), rw (p_calls, q_calls) refl, refl, refl)
