-- ===== src/Lobby/Keys.antt =====
-- The players of the lobby stand under their own session ids, whatever happens
-- (게임서버/컨텐츠/클래스/필드/Lobby.cpp).
use game_server_client.Base.{
  ℕ, ◌≡◌, List, [], ◌∷◌, ◌++◌, Option, none, some, ◌==◌, arith, ◌∙◌, Bool-cases, Option-cases, inl,
  inr,
}
use game_server_client.Map.{Map, find, assign, insert, erase, find-assign, find-insert, find-erase}
use game_server_client.Redis.{Redis}
use game_server_client.Item.{Item}
use game_server_client.Protocol.{CharacterSeq}
use game_server_client.Tasks.{to_string}
use game_server_client.Field.{same}
use game_server_client.Lobby.Character.{Player, Row, load_character}
use game_server_client.Lobby.{
  set_login_uid, status, reply, character_list, Lobby, Action, log_in, character_answered,
  read_characters, Checked, checked, thrown, unfinished, check_waiting,
}
use game_server_client.Lobby.Requests.{add_characters, characters_answered, list_answered}
use game_server_client.Lobby.Stay.{session_release, update}

abbrev pub AreKeyed : Map Player → Type 0
AreKeyed users =
    (session_id : ℕ) (u : Player) → find session_id users ≡ some u → u.session_id ≡ session_id

-- Of a handler that comes to an end.
abbrev pub Keeps : {S : Type 0} → Option (S × Lobby × List Action) → Type 0
Keeps none = Unit {0}
Keeps (some (s, lobby, actions)) = AreKeyed lobby.user_map

abbrev pub KeepsLobby : Option (Lobby × List Action) → Type 0
KeepsLobby none = Unit {0}
KeepsLobby (some (lobby, actions)) = AreKeyed lobby.user_map

abbrev pub KeepsPair : {S : Type 0} → Option (S × Lobby) → Type 0
KeepsPair none = Unit {0}
KeepsPair (some (s, lobby)) = AreKeyed lobby.user_map

pub AreKeyed-assign :
    (users : Map Player) (session_id : ℕ) (u : Player)
    → u.session_id ≡ session_id
    → AreKeyed users
    → AreKeyed (assign session_id u users)
AreKeyed-assign users session_id u own keyed j v h =
    ground (arith, find-assign session_id j u users, keyed j v)

pub AreKeyed-insert :
    (users : Map Player) (session_id : ℕ) (u : Player)
    → u.session_id ≡ session_id
    → AreKeyed users
    → AreKeyed (insert session_id u users)
AreKeyed-insert users session_id u own keyed j v h =
    ground (arith, find-insert session_id j u users, keyed j v)

pub AreKeyed-erase :
    (users : Map Player) (session_id : ℕ) → AreKeyed users → AreKeyed (erase session_id users)
AreKeyed-erase users session_id keyed j v h =
    ground (arith, find-erase session_id j users, keyed j v)

load_character-session_id :
    (items : Map Item) (row : Row) (u u' : Player)
    → load_character items row u ≡ some u'
    → u'.session_id ≡ u.session_id
unfolding load_character
load_character-session_id items row u u' h = ground arith

module _ (lobby : Lobby) (keyed : AreKeyed lobby.user_map) (session_id : ℕ) where
  add_characters-Keeps :
      (before : List CharacterSeq) (u : Player) (rows : List (List ℕ × List ℕ))
      (answer : List CharacterSeq → List Action)
      → u.session_id ≡ session_id
      → KeepsLobby (add_characters lobby session_id before u rows answer)
  unfolding add_characters
  add_characters-Keeps before u rows answer own = elim (Option-cases (read_characters rows)) [
    | inl broken ↦ rw broken tt
    | inr (cs, read) ↦ rw read (
        AreKeyed-assign lobby.user_map session_id (record u { characters = before ++ cs }) own
          keyed)
  ]

  pub characters_answered-Keeps :
      (errorno : ℕ) (rows : List (List ℕ × List ℕ)) (answer : List CharacterSeq → List Action)
      → KeepsLobby (characters_answered lobby session_id errorno rows answer)
  unfolding characters_answered
  characters_answered-Keeps errorno rows answer = elim (Bool-cases (errorno == 0)) [
    | inr failed ↦ rw failed keyed
    | inl fine ↦ elim (Option-cases (find session_id lobby.user_map)) [
      | inl away ↦ rw (fine, away) keyed
      | inr (u, here) ↦
          rw (fine, here)
            (add_characters-Keeps u.characters u rows answer (keyed session_id u here))
    ]
  ]

  pub list_answered-Keeps :
      (errorno : ℕ) (rows : List (List ℕ × List ℕ))
      → KeepsLobby (list_answered lobby session_id errorno rows)
  unfolding list_answered
  list_answered-Keeps errorno rows = elim (Bool-cases (errorno == 0)) [
    | inr failed ↦ rw failed keyed
    | inl fine ↦ elim (Option-cases (find session_id lobby.user_map)) [
      | inl away ↦ rw (fine, away) keyed
      | inr (u, here) ↦
          rw (fine, here)
            (add_characters-Keeps [] u rows (λ cs. reply session_id (character_list cs) ∷ [])
              (keyed session_id u here))
    ]
  ]

module _ (r : Redis) (ip : List ℕ) (port : ℕ) (s : r.Store) (lobby : Lobby)
    (keyed : AreKeyed lobby.user_map) (session_id : ℕ) where
  pub log_in-Keeps :
      (uid : ℕ) (token : List ℕ) (left now : ℕ) (queries : List Action)
      → Keeps (log_in r ip port s lobby session_id uid token left now queries)
  unfolding log_in
  log_in-Keeps uid token left now queries = elim (Bool-cases (left == 0)) [
    | inr more ↦ rw more keyed
    | inl whole ↦ elim (Option-cases (r.get s (to_string uid))) [
      | inl unknown ↦ rw (whole, unknown) keyed
      | inr (held, granted) ↦ elim (Bool-cases (same held token)) [
        | inr wrong ↦ rw (whole, granted, wrong) keyed
        | inl right ↦ elim (Option-cases (find session_id lobby.user_map)) [
          | inl away ↦ rw (whole, granted, right, away) tt
          | inr (u, here) ↦
              let after : AreKeyed (assign session_id (record u { uid = uid }) lobby.user_map) =
                AreKeyed-assign lobby.user_map session_id (record u { uid = uid })
                  (keyed session_id u here) keyed in
              elim (Bool-cases (set_login_uid r (status r ip port u.session_id) s uid).1) [
                | inl free ↦ rw (whole, granted, right, here, free) after
                | inr held' ↦ rw (whole, granted, right, here, held') after
              ]
        ]
      ]
    ]
  ]

  pub character_answered-Keeps :
      (items : Map Item) (answer : Player → List Action) (errorno : ℕ) (row : Option Row)
      → Keeps (character_answered r ip port items s lobby session_id answer errorno row)
  unfolding character_answered
  character_answered-Keeps items answer errorno row = elim (Bool-cases (errorno == 0)) [
    | inr failed ↦ rw failed keyed
    | inl fine ↦ elim (Option-cases (find session_id lobby.user_map)) [
      | inl away ↦ rw (fine, away) keyed
      | inr (u, here) ↦ elim (Option-cases row) [
        | inl no_row ↦ rw (fine, here, no_row) tt
        | inr (columns, there) ↦ elim (Option-cases (load_character items columns u)) [
          | inl broken ↦ rw (fine, here, there, broken) tt
          | inr (u', loaded) ↦
              rw (fine, here, there, loaded)
                (AreKeyed-assign lobby.user_map session_id u'
                  (load_character-session_id items columns u u' loaded ∙ keyed session_id u here)
                  keyed)
        ]
      ]
    ]
  ]

  pub session_release-Keeps : KeepsPair (session_release r s lobby session_id)
  unfolding session_release
  session_release-Keeps = elim (Option-cases (find session_id lobby.user_map)) [
    | inl away ↦ rw away tt
    | inr (u, here) ↦ rw here (AreKeyed-erase lobby.user_map session_id keyed)
  ]

  pub update-Keeps :
      (clock : ℕ → ℕ) (meanwhile : ℕ → r.Store → r.Store) (rounds : ℕ)
      → Keeps (update r ip port clock meanwhile rounds s lobby)
  unfolding update
  update-Keeps clock meanwhile rounds =
      update-ends
        (check_waiting r ip port clock meanwhile 0 rounds lobby.user_map s lobby.duplication_user)
    where
      update-ends :
          (c : Checked r.Store)
          → Keeps {S = r.Store} (elim c [
            | checked s' waiting actions ↦
                some (s', record lobby { duplication_user = waiting }, actions)
            | thrown ↦ none
            | unfinished ↦ none
          ])
      update-ends (checked s' waiting actions) = keyed
      update-ends thrown = tt
      update-ends unfinished = tt
