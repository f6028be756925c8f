-- ===== src/Tasks/Numbers.antt =====
-- `to_string` and `stoull` undo one another (the texts of LobbyServer.cpp).
use game_server_client.Base.{
  none, if◌then◌else◌, false, ℕ, zero, suc, ◌+◌, ◌-◌, ◌*◌, ◌/◌, ◌%◌, ◌^◌, ◌<◌, ◌≡◌, ◌≢◌, refl, List,
  [], ◌∷◌, true, some, arith, ap, ◌∙◌, ltb, Bool-cases, inl, inr, lt→ltb,
}
use game_server_client.Texts.Splits.{Lacks}
use game_server_client.Tasks.{digits, to_string, is_digit, read_digits, read_below}

-- 10 ^ n
power : ℕ → ℕ
power zero = 1
power (suc n) = 10 * power n

read_one :
    (n c : ℕ) (cs : List ℕ)
    → is_digit c ≡ true
    → read_digits n (c ∷ cs) ≡ read_digits (n * 10 + (c - 48)) cs
unfolding read_digits
read_one n c cs h = rw h refl

digit_is : (d : ℕ) → d < 10 → is_digit (48 + d) ≡ true
digit_is d h = ground arith

read_small :
    (n : ℕ) (after : List ℕ) → n < 10 → read_digits 0 ((48 + n) ∷ after) ≡ read_digits n after
read_small n after h =
    let e : 0 * 10 + (48 + n - 48) ≡ n = omega arith in
    read_one 0 (48 + n) after (digit_is n h) ∙ ap (λ k. read_digits k after) e

read_digits-digits :
    (fuel n : ℕ) (after : List ℕ)
    → n < power (suc fuel)
    → read_digits 0 (digits (suc fuel) n after) ≡ read_digits n after
unfolding digits power
read_digits-digits zero n after h =
    let small : n < 10 = omega arith in rw (lt→ltb n 10 small) (read_small n after small)
read_digits-digits (suc fuel) n after h = elim (Bool-cases (ltb n 10)) [
  | inl small ↦ rw small (read_small n after (ground arith))
  | inr large ↦
      let e : n / 10 * 10 + (48 + n % 10 - 48) ≡ n = omega arith in
      rw large (
        read_digits-digits fuel (n / 10) ((48 + n % 10) ∷ after) (omega arith)
        ∙ read_one (n / 10) (48 + n % 10) after (digit_is (n % 10) (omega arith))
        ∙ ap (λ k. read_digits k after) e)
]

-- A text of digits, not empty.
abbrev pub AreDigits : List ℕ → Type 0
AreDigits [] = Unit {0}
AreDigits (c ∷ cs) = (is_digit c ≡ true) × AreDigits cs

digits-AreDigits : (fuel n : ℕ) (after : List ℕ) → AreDigits after → AreDigits (digits fuel n after)
unfolding digits
digits-AreDigits zero n after h = h
digits-AreDigits (suc fuel) n after h = elim (Bool-cases (ltb n 10)) [
  | inl small ↦ rw small (digit_is n (ground arith), h)
  | inr large ↦
      rw large (
        digits-AreDigits fuel (n / 10) ((48 + n % 10) ∷ after) (digit_is (n % 10) (omega arith), h))
]

-- A text that ends in something is not empty.
digits_some : (fuel n : ℕ) (c : ℕ) (after : List ℕ) → digits fuel n (c ∷ after) ≢ []
unfolding digits
digits_some zero n c after = λ e. cc
digits_some (suc fuel) n c after = elim (Bool-cases (ltb n 10)) [
  | inl small ↦ rw small (λ e. cc)
  | inr large ↦ rw large (digits_some fuel (n / 10) (48 + n % 10) (c ∷ after))
]

pub to_string_some : (n : ℕ) → to_string n ≢ []
unfolding to_string digits
to_string_some n = elim (Bool-cases (ltb n 10)) [
  | inl small ↦ rw small (λ e. cc)
  | inr large ↦ rw large (digits_some 19 (n / 10) (48 + n % 10) [])
]

pub to_string-AreDigits : (n : ℕ) → AreDigits (to_string n)
unfolding to_string
to_string-AreDigits n = digits-AreDigits 20 n [] tt

pub read_digits-to_string : (n : ℕ) → n < 2 ^ 64 → read_digits 0 (to_string n) ≡ n
unfolding to_string read_digits power
read_digits-to_string n small = read_digits-digits 19 n [] (omega arith)

Lacks-digits : (d : ℕ) (text : List ℕ) → is_digit d ≡ false → AreDigits text → Lacks d text
Lacks-digits d [] apart h = tt
Lacks-digits d (c ∷ cs) apart h = (ground arith, Lacks-digits d cs apart h.1)

-- A number has nothing in it that is not a digit.
pub to_string-Lacks_of : (d n : ℕ) → is_digit d ≡ false → Lacks d (to_string n)
unfolding to_string
to_string-Lacks_of d n apart = Lacks-digits d (digits 20 n []) apart (digits-AreDigits 20 n [] tt)

pub to_string-Lacks : (n : ℕ) → Lacks 58 (to_string n)
to_string-Lacks n = to_string-Lacks_of 58 n refl

read_some :
    (limit n : ℕ) (text : List ℕ)
    → text ≢ []
    → AreDigits text
    → read_digits 0 text ≡ n
    → read_below limit text ≡ (if ltb n limit then some n else none)
unfolding read_below
read_some limit n [] some_text h e = absurd (some_text refl)
read_some limit n (c ∷ cs) some_text h e = rw (h.0, e) refl

-- What `to_string` writes of a number below 2 ^ 64 is read back where it is below the limit, and is an
-- exception else.
pub read_below_lem :
    (limit n : ℕ)
    → n < 2 ^ 64
    → read_below limit (to_string n) ≡ (if ltb n limit then some n else none)
unfolding to_string read_digits power
read_below_lem limit n small =
    read_some limit n (to_string n) (to_string_some n) (digits-AreDigits 20 n [] tt)
      (read_digits-digits 19 n [] (omega arith))

pub read_below-to_string :
    (limit n : ℕ) → n < limit → n < 2 ^ 64 → read_below limit (to_string n) ≡ some n
read_below-to_string limit n less small = rw (read_below_lem limit n small) (ground arith)
