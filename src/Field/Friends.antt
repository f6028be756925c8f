-- ===== src/Field/Friends.antt =====
-- What a request and its acceptance do to a field (CBaseField.cpp).
use game_server_client.Base.{
  if◌then◌else◌, ◌==◌, ◌≢◌, ℕ, ◌≡◌, refl, List, [], ◌∷◌, ◌++◌, true, false, some, arith, ◌∙◌,
}
use game_server_client.Map.{find, assign, find-assign}
use game_server_client.Field.{
  set_accept_add_friend, disconnect, reply, accept_add_friend, req_friend, accept_friend, Action,
  Friend, Member, Field, request, make_friends, friends_inserted, same, listed, without,
  on_add_friend, on_accept_add_friend, packet_accept_add_friend, friends_answered,
}

pub same_refl : (n : List ℕ) → same n n ≡ true
unfolding same
same_refl [] = refl
same_refl (a ∷ n) = ground (arith, same_refl n)

listed-append : (n : List ℕ) (ms : List (List ℕ)) → listed n (ms ++ n ∷ []) ≡ true
unfolding listed
listed-append n [] = rw (same_refl n) refl
listed-append n (m ∷ ms) = ground (arith, listed-append n ms)

listed-without : (n : List ℕ) (ms : List (List ℕ)) → listed n (without n ms) ≡ false
unfolding listed without
listed-without n [] = refl
listed-without n (m ∷ ms) = ground (arith, listed-without n ms)

abbrev offline : List ℕ → Friend
offline n = record { nickname = n; is_online = false }

module _ (f : Field) (asks answers : ℕ) (a b : Member) (apart : asks ≢ answers)
    (here : find asks f ≡ some a) (there : find answers f ≡ some b) where
  pub waiting : Member
  waiting = record b { add_friends = b.add_friends ++ a.nickname ∷ [] }

  pub asked :
      on_add_friend f answers a.nickname
      ≡ (assign answers waiting f, reply answers (req_friend a.nickname) ∷ [])
  unfolding on_add_friend waiting
  asked = rw (there, on_add_friend) refl

  -- The user who is asked is told, and has the request on the list, so that accepting it goes on with
  -- the transaction alone.
  pub accept-on_add_friend :
      packet_accept_add_friend (on_add_friend f answers a.nickname).0 answers a.nickname 0
      ≡ some (
        (on_add_friend f answers a.nickname).0,
        request (make_friends b.nickname a.nickname) (friends_inserted answers a.nickname) ∷ [],
      )
  unfolding packet_accept_add_friend waiting
  accept-on_add_friend =
      let found : find answers (assign answers waiting f) ≡ some waiting =
        find-assign answers answers waiting f ∙ ground arith in
      rw (asked, found, listed-append a.nickname b.add_friends) refl

  pub saved : Field
  saved =
      assign answers
        (record b {
          add_friends = without a.nickname (b.add_friends ++ a.nickname ∷ []);
          friends = b.friends ++ offline a.nickname ∷ [];
        })
        (assign answers waiting f)

  pub answered :
      friends_answered (on_add_friend f answers a.nickname).0 answers a.nickname 0
      ≡ some (
        saved,
        set_accept_add_friend b.nickname a.nickname
            ∷ reply answers (accept_add_friend true a.nickname)
            ∷ [],
      )
  unfolding friends_answered saved waiting
  answered =
      let found : find answers (assign answers waiting f) ≡ some waiting =
        find-assign answers answers waiting f ∙ ground arith in
      rw (asked, found) refl

  pub after : Field
  after = assign asks (record a { friends = a.friends ++ offline b.nickname ∷ [] }) saved

  pub told :
      on_accept_add_friend saved asks b.nickname
      ≡ (after, reply asks (accept_friend b.nickname) ∷ [])
  unfolding on_accept_add_friend after saved
  told =
      let found : find asks saved ≡ some a =
        find-assign answers asks _ (assign answers waiting f)
        ∙ ground (arith, find-assign answers asks waiting f) in
      rw (found, on_accept_add_friend) refl

  -- Each has the other as a friend, and the others are as they were.
  pub befriended :
      let a' = record a {
        friends = a.friends ++ record { nickname = b.nickname; is_online = false } ∷ [];
      } in
      let b' = record b {
        friends = b.friends ++ record { nickname = a.nickname; is_online = false } ∷ [];
        add_friends = without a.nickname (b.add_friends ++ a.nickname ∷ []);
      } in
      ((j : ℕ)
        → find j after
          ≡ (if j == asks then some a' else if j == answers then some b' else find j f))
      × (listed a.nickname b'.add_friends ≡ false)
  unfolding after saved
  befriended = (
    λ j. ground (
      arith,
      find-assign asks j (record a { friends = a.friends ++ offline b.nickname ∷ [] }) saved,
      find-assign answers j
          (record b {
            add_friends = without a.nickname (b.add_friends ++ a.nickname ∷ []);
            friends = b.friends ++ offline a.nickname ∷ [];
          })
          (assign answers waiting f),
      find-assign answers j waiting f,
    ),
    listed-without a.nickname (b.add_friends ++ a.nickname ∷ []),
  )

-- A nickname that has sent no request and is accepted all the same becomes a friend: the handler
-- disconnects, and goes on with the transaction, of which the answer adds the friend.
pub accept_unasked :
    (f : Field) (session_id : ℕ) (u : Member) (nickname : List ℕ)
    → find session_id f ≡ some u
    → listed nickname u.add_friends ≡ false
    → (packet_accept_add_friend f session_id nickname 0
        ≡ some (
          f,
          disconnect session_id
              ∷ request (make_friends u.nickname nickname) (friends_inserted session_id nickname)
              ∷ [],
        ))
      × ((f' : Field) × (actions : List Action) × (friends_answered f session_id nickname 0
            ≡ some (f', actions))
          × (find session_id f'
              ≡ some (record u {
                friends = u.friends ++ record { nickname = nickname; is_online = false } ∷ [];
                add_friends = without nickname u.add_friends;
              })))
unfolding packet_accept_add_friend friends_answered
accept_unasked f session_id u nickname here unlisted =
    let u' : Member = record u {
      friends = u.friends ++ offline nickname ∷ [];
      add_friends = without nickname u.add_friends;
    } in
    (
      rw (here, unlisted) refl,
      (
        assign session_id u' f,
        set_accept_add_friend u.nickname nickname
            ∷ reply session_id (accept_add_friend true nickname)
            ∷ [],
        rw here refl,
        find-assign session_id session_id u' f ∙ ground arith,
      ),
    )
