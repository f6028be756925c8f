-- ===== src/Redis/Shelves.antt =====
-- A function from keys to values and the seconds that they are left, as a Redis, on which the laws of
-- Redis hold.
use game_server_client.Base.{
  ℕ, ◌-◌, ◌<◌, ◌≤◌, ◌≡◌, ◌≢◌, refl, List, [], ◌∷◌, Bool, true, false, Option, none, some,
  if◌then◌else◌, arith, ltb, ap,
}
use game_server_client.Redis.{Redis}
use game_server_client.Field.{same}
use game_server_client.Field.Friends.{same_refl}

abbrev pub Entry : Type 0
Entry = Option (List ℕ × Option ℕ)

abbrev pub Shelf : Type 0
Shelf = List ℕ → Entry

abbrev pub value_of : Entry → Option (List ℕ)
value_of none = none
value_of (some (value, left)) = some value

abbrev pub left_of : Entry → Option ℕ
left_of none = none
left_of (some (value, left)) = left

abbrev pub look : Shelf → List ℕ → Option (List ℕ)
look shelf key = value_of (shelf key)

abbrev pub put_entry : Shelf → (key : List ℕ) → Entry → Shelf
put_entry shelf key entry other = if same key other then entry else shelf other

-- An entry some seconds later.
abbrev pub age : (seconds : ℕ) → Entry → Entry
age seconds none = none
age seconds (some (value, none)) = some (value, none)
age seconds (some (value, some left)) =
    if ltb seconds left then some (value, some (left - seconds)) else none

pub same-eq : (a b : List ℕ) → same a b ≡ true → a ≡ b
unfolding same
same-eq [] [] h = refl
same-eq [] (c ∷ b) h = cc
same-eq (c ∷ a) [] h = cc
same-eq (c ∷ a) (d ∷ b) h = ground (arith, same-eq a b)

pub put_self :
    (shelf : Shelf) (key : List ℕ) (entry : Entry) → put_entry shelf key entry key ≡ entry
put_self shelf key entry = rw (same_refl key) refl

pub put_other :
    (shelf : Shelf) (key : List ℕ) (entry : Entry) (other : List ℕ)
    → other ≢ key
    → put_entry shelf key entry other ≡ shelf other
put_other shelf key entry other apart = ground (arith, same-eq key other)

abbrev pub set_free : Option (List ℕ) → Shelf → (key value : List ℕ) → Shelf × Bool
set_free none shelf key value = (put_entry shelf key (some (value, none)), true)
set_free (some held) shelf key value = (shelf, false)

pub free_lem :
    (shelf : Shelf) (key value : List ℕ)
    → look shelf key ≡ none
    → set_free (look shelf key) shelf key value ≡ (put_entry shelf key (some (value, none)), true)
free_lem shelf key value h = rw h refl

pub held_lem :
    (shelf : Shelf) (key value held : List ℕ)
    → look shelf key ≡ some held
    → set_free (look shelf key) shelf key value ≡ (shelf, false)
held_lem shelf key value held h = rw h refl

pub age_left :
    (entry : Entry) (left seconds : ℕ)
    → left_of entry ≡ some left
    → seconds < left
    → (value_of (age seconds entry) ≡ value_of entry)
      × (left_of (age seconds entry) ≡ some (left - seconds))
age_left none left seconds h k = cc
age_left (some (value, none)) left seconds h k = cc
age_left (some (value, some own)) left seconds h k = (ground (arith, h), ground (arith, h))

pub age_expired :
    (entry : Entry) (left seconds : ℕ)
    → left_of entry ≡ some left
    → left ≤ seconds
    → value_of (age seconds entry) ≡ none
age_expired none left seconds h k = cc
age_expired (some (value, none)) left seconds h k = cc
age_expired (some (value, some own)) left seconds h k = ground (arith, h)

pub age-none :
    (entry : Entry) (seconds : ℕ) → value_of entry ≡ none → value_of (age seconds entry) ≡ none
age-none none seconds h = refl
age-none (some (value, left)) seconds h = cc

abbrev pub shelves : Redis
shelves = record {
  Store = Shelf;
  get = look;
  set = λ shelf key value. put_entry shelf key (some (value, none));
  setnx = λ shelf key value. set_free (look shelf key) shelf key value;
  setex = λ shelf key seconds value. put_entry shelf key (some (value, some seconds));
  del = λ shelf key. put_entry shelf key none;
  ttl = λ shelf key. left_of (shelf key);
  pass = λ seconds shelf key. age seconds (shelf key);
  get-set_self = λ shelf key value. ap value_of (put_self shelf key (some (value, none)));
  get-set_other = λ shelf key value other apart.
      ap value_of (put_other shelf key (some (value, none)) other apart);
  setnx_free = free_lem;
  setnx_held = held_lem;
  get-del_self = λ shelf key. ap value_of (put_self shelf key none);
  get-del_other = λ shelf key other apart. ap value_of (put_other shelf key none other apart);
  get-setex_self =
      λ shelf key seconds value. ap value_of (put_self shelf key (some (value, some seconds)));
  ttl-setex =
      λ shelf key seconds value. ap left_of (put_self shelf key (some (value, some seconds)));
  get-setex_other = λ shelf key seconds value other apart.
      ap value_of (put_other shelf key (some (value, some seconds)) other apart);
  ttl-del_other = λ shelf key other apart. ap left_of (put_other shelf key none other apart);
  get-pass_left = λ shelf key left seconds h k. (age_left (shelf key) left seconds h k).0;
  ttl-pass_left = λ shelf key left seconds h k. (age_left (shelf key) left seconds h k).1;
  get-pass_expired = λ shelf key left seconds h k. age_expired (shelf key) left seconds h k;
  get-pass_none = λ shelf key seconds h. age-none (shelf key) seconds h;
}

-- Nothing is there.
abbrev pub no_keys : Shelf
no_keys key = none
