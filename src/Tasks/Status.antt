-- ===== src/Tasks/Status.antt =====
-- The status of the lobby servers in Redis (Redis_UpdateServerStatus and Redis_GetServerStatus of
-- 게임서버/컨텐츠/클래스/LobbyServer.cpp). HSET of "ServerStatus" is called with a field and a value, and
-- HGETALL gives a list of those.
use game_server_client.Base.{
  ℕ, ◌%◌, ◌^◌, ◌<◌, ◌≡◌, ◌≢◌, refl, List, [], ◌∷◌, Option, none, some, if◌then◌else◌, leb, ◌>>=◌,
  arith,
}
use game_server_client.Texts.{combine_strings, split_string}
use game_server_client.Texts.Splits.{Lacks, split_string-combine_strings}
use game_server_client.Protocol.{ServerStatus}
use game_server_client.Tasks.{to_string, stoi}
use game_server_client.Tasks.Numbers.{to_string-Lacks, read_below-to_string}

-- A server as its settings and its count of accepted sessions have it.
pub record LobbyServer : Type 0 where
  pub ip : List ℕ
  pub port : ℕ
  pub server_name : List ℕ
  pub accept_total_count : ℕ

-- GREEN, ORANGE and RED of en_SERVER_STATUS_TYPE.
unfoldable pub status_of_count : ℕ → ℕ
status_of_count count = if leb 100 count then 3 else if leb 50 count then 2 else 1

-- Redis_UpdateServerStatus: the field and the value of HSET.
unfoldable pub update_server_status : LobbyServer → List ℕ × List ℕ
update_server_status s = (
  combine_strings (s.ip ∷ to_string s.port ∷ s.server_name ∷ []) 58,
  to_string (status_of_count s.accept_total_count),
)

-- One round of Redis_GetServerStatus; a part that is not there is `none`.
unfoldable pub server_status_of : List (List ℕ) → (value : List ℕ) → Option ServerStatus
server_status_of (ip ∷ port ∷ server_name ∷ rest) value = do
  p ← stoi port
  t ← stoi value
  some (record { server_name = server_name; ip = ip; port = p % 2 ^ 16; status_type = t % 2 ^ 8 })
server_status_of _ value = none

unfoldable pub read_server_status : List (List ℕ × List ℕ) → Option (List ServerStatus)
read_server_status [] = some []
read_server_status ((field, value) ∷ list) = do
  s ← server_status_of (split_string field 58) value
  rest ← read_server_status list
  some (s ∷ rest)

-- Redis_GetServerStatus, of the answer of HGETALL.
unfoldable pub get_server_status : Option (List (List ℕ × List ℕ)) → Option (List ServerStatus)
get_server_status none = some []
get_server_status (some list) = read_server_status list

-- A server whose address and name have no colon and whose name is not empty.
pub record IsNamed (s : LobbyServer) : Type 0 where
  pub address : Lacks 58 s.ip
  pub named : Lacks 58 s.server_name
  pub some_name : s.server_name ≢ []
  pub word : s.port < 2 ^ 16

unfoldable pub AllNamed : List LobbyServer → Type 0
AllNamed [] = Unit {0}
AllNamed (s ∷ ss) = IsNamed s × AllNamed ss

unfoldable pub fields : List LobbyServer → List (List ℕ × List ℕ)
fields [] = []
fields (s ∷ ss) = update_server_status s ∷ fields ss

-- What a server shows of itself.
unfoldable pub shown : List LobbyServer → List ServerStatus
shown [] = []
shown (s ∷ ss) =
    record {
      server_name = s.server_name;
      ip = s.ip;
      port = s.port;
      status_type = status_of_count s.accept_total_count;
    }
    ∷ shown ss

status_bound : (count : ℕ) → status_of_count count < 4
unfolding status_of_count
status_bound count = ground arith

server_status_lem :
    (s : LobbyServer)
    → IsNamed s
    → server_status_of
        (split_string (combine_strings (s.ip ∷ to_string s.port ∷ s.server_name ∷ []) 58) 58)
        (to_string (status_of_count s.accept_total_count))
      ≡ some (record {
        server_name = s.server_name;
        ip = s.ip;
        port = s.port;
        status_type = status_of_count s.accept_total_count;
      })
unfolding server_status_of
server_status_lem s i =
    let t : ℕ = status_of_count s.accept_total_count in
    let low : t < 4 = status_bound s.accept_total_count in
    let parts : List (List ℕ) = s.ip ∷ to_string s.port ∷ s.server_name ∷ [] in
    let split : split_string (combine_strings parts 58) 58 ≡ parts =
      split_string-combine_strings parts 58
        (i.address, (to_string-Lacks s.port, (i.named, i.some_name))) in
    let port : stoi (to_string s.port) ≡ some s.port =
      read_below-to_string (2 ^ 31) s.port (omega (arith, i.word)) (omega (arith, i.word)) in
    let value : stoi (to_string t) ≡ some t =
      read_below-to_string (2 ^ 31) t (omega (arith, low)) (omega (arith, low)) in
    let cut : s.port % 2 ^ 16 ≡ s.port = omega (arith, i.word) in
    let short : t % 2 ^ 8 ≡ t = omega (arith, low) in rw (split, port, value, cut, short) refl

read_server_status-fields :
    (servers : List LobbyServer)
    → AllNamed servers
    → read_server_status (fields servers) ≡ some (shown servers)
unfolding read_server_status fields shown update_server_status AllNamed
read_server_status-fields [] all = refl
read_server_status-fields (s ∷ servers) all =
    rw (server_status_lem s all.0, read_server_status-fields servers all.1) refl

-- Redis_GetServerStatus, where the hash has what Redis_UpdateServerStatus of some servers puts there,
-- gives the status of each, in the order of the hash, as it was put; the addresses and names have no
-- colon and the names are not empty.
pub get_server_status-fields :
    (servers : List LobbyServer)
    → AllNamed servers
    → get_server_status (some (fields servers)) ≡ some (shown servers)
unfolding get_server_status
get_server_status-fields servers all = read_server_status-fields servers all
