-- ===== src/Redis.antt =====
-- What the lobby servers rely on of Redis, which they reach through CRedis
-- (게임서버/컨텐츠/클래스/CRedis.h): texts under keys, and what GET, SET, SETNX,
-- SETEX, TTL and DEL are documented to do to them while the connection holds. `pass` is the passing of
-- some seconds, and `ttl` is `none` for a key that is not there or does not expire.
pub mod Shelves
use game_server_client.Base.{
  ℕ, List, Bool, true, false, Option, none, some, ◌≡◌, ◌≢◌, ◌<◌, ◌≤◌, ◌-◌,
}

pub record Redis : Type 1 where
  pub Store : Type 0
  pub get : Store → List ℕ → Option (List ℕ)
  pub set : Store → (key value : List ℕ) → Store
  pub setnx : Store → (key value : List ℕ) → Store × Bool
  pub setex : Store → (key : List ℕ) → (seconds : ℕ) → (value : List ℕ) → Store
  pub del : Store → (key : List ℕ) → Store
  pub ttl : Store → (key : List ℕ) → Option ℕ
  pub pass : (seconds : ℕ) → Store → Store
  pub get-set_self : (s : Store) (key value : List ℕ) → get (set s key value) key ≡ some value
  pub get-set_other :
      (s : Store) (key value other : List ℕ)
      → other ≢ key
      → get (set s key value) other ≡ get s other
  pub setnx_free :
      (s : Store) (key value : List ℕ)
      → get s key ≡ none
      → setnx s key value ≡ (set s key value, true)
  pub setnx_held :
      (s : Store) (key value held : List ℕ) → get s key ≡ some held → setnx s key value ≡ (s, false)
  pub get-del_self : (s : Store) (key : List ℕ) → get (del s key) key ≡ none
  pub get-del_other :
      (s : Store) (key other : List ℕ) → other ≢ key → get (del s key) other ≡ get s other
  pub get-setex_self :
      (s : Store) (key : List ℕ) (seconds : ℕ) (value : List ℕ)
      → get (setex s key seconds value) key ≡ some value
  pub ttl-setex :
      (s : Store) (key : List ℕ) (seconds : ℕ) (value : List ℕ)
      → ttl (setex s key seconds value) key ≡ some seconds
  pub get-setex_other :
      (s : Store) (key : List ℕ) (seconds : ℕ) (value other : List ℕ)
      → other ≢ key
      → get (setex s key seconds value) other ≡ get s other
  pub ttl-del_other :
      (s : Store) (key other : List ℕ) → other ≢ key → ttl (del s key) other ≡ ttl s other
  pub get-pass_left :
      (s : Store) (key : List ℕ) (left seconds : ℕ)
      → ttl s key ≡ some left
      → seconds < left
      → get (pass seconds s) key ≡ get s key
  pub ttl-pass_left :
      (s : Store) (key : List ℕ) (left seconds : ℕ)
      → ttl s key ≡ some left
      → seconds < left
      → ttl (pass seconds s) key ≡ some (left - seconds)
  pub get-pass_expired :
      (s : Store) (key : List ℕ) (left seconds : ℕ)
      → ttl s key ≡ some left
      → left ≤ seconds
      → get (pass seconds s) key ≡ none
  pub get-pass_none :
      (s : Store) (key : List ℕ) (seconds : ℕ) → get s key ≡ none → get (pass seconds s) key ≡ none
