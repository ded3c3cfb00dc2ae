-- ===== src/Config/Store/Access.antt =====
-- Typed access to the settings.
use change_of_system.Base.{
  ℕ, zero, suc, ◌+◌, ◌-◌, ◌*◌, ◌/◌, ◌%◌, ◌^◌, ◌<◌, ◌≡◌, refl, sym, ap, ◌∙◌, inl, inr, Bool, true,
  false, Option, none, some, List, [], ◌∷◌, Text, text_key, nat_key, text_beq, codes, is_empty,
  nat_beq, ltb, leb, lookup-insert, lookup-insert_self, value_or, contains, to_lower, lower_byte,
  All, arith, digits_onto, decimal, Bool-cases, if◌then◌else◌,
}
use change_of_system.Base.Int.{ℤ, pos, negsuc, to_string}
use change_of_system.Config.Codec.{trim_start, is_space, join_list}
use change_of_system.Config.Codec.RoundTrip.{Trimmed, Without, split_list-join_list}
use change_of_system.Config.Store.{
  ConfigStore, get, set, has, is_digit, digits_from, stoi, get_int, get_bool, get_list, set_int,
  set_bool, set_list,
}

get-set_self : (k v d : Text) (s : ConfigStore) → get k d (set k v s) ≡ v
unfolding get set
get-set_self k v d s = ap (value_or d) (lookup-insert_self k v s.values)

-- A setting has the value it was set to, every other one the value it had.
pub get-set :
    (j k v d : Text) (s : ConfigStore)
    → (get j d (set k v s) ≡ (if text_beq k j then v else get j d s))
      × (has j (set k v s) ≡ (if text_beq k j then true else has j s))
unfolding get set has
get-set j k v d s = ground (arith, lookup-insert j k v s.values)

digit-is_digit : (d : ℕ) → d < 10 → is_digit (48 + d) ≡ true
digit-is_digit d h = ground (arith, h)

digits_from-digit :
    (acc : Option ℕ) (d : ℕ) (s : Text)
    → d < 10
    → digits_from acc ((48 + d) ∷ s) ≡ digits_from (some (value_or 0 acc * 10 + d)) s
unfolding digits_from
digits_from-digit acc d s h =
    let same : (48 + d) - 48 ≡ d = omega arith in rw (digit-is_digit d h) (rw same refl)

digits_from-digits_onto :
    (fuel n : ℕ) (s : Text)
    → n < fuel
    → digits_from none (digits_onto fuel n s) ≡ digits_from (some n) s
unfolding digits_onto
digits_from-digits_onto zero n s h = absurd (omega arith)
digits_from-digits_onto (suc fuel) n s h = elim (Bool-cases (ltb n 10)) [
  | inl small ↦
      let alone : 0 + n ≡ n = omega arith in
      rw small (
        digits_from-digit none n s (ground (arith, small)) ∙ ap (λ v. digits_from (some v) s) alone)
  | inr big ↦
      let whole : n / 10 * 10 + n % 10 ≡ n = omega arith in
      let smaller : n / 10 < fuel = ground (arith, h, big) in
      rw big (
        digits_from-digits_onto fuel (n / 10) ((48 + n % 10) ∷ s) smaller
        ∙ digits_from-digit (some (n / 10)) (n % 10) s (omega arith)
        ∙ ap (λ v. digits_from (some v) s) whole)
]

-- A decimal number starts with a digit.
digits_onto-first :
    (fuel n : ℕ) (s : Text)
    → n < fuel
    → (d : ℕ) × (rest : Text) × (d < 10) × (digits_onto fuel n s ≡ (48 + d) ∷ rest)
unfolding digits_onto
digits_onto-first zero n s h = absurd (omega arith)
digits_onto-first (suc fuel) n s h = elim (Bool-cases (ltb n 10)) [
  | inl small ↦ (n, s, ground (arith, small), rw small refl)
  | inr big ↦
      let smaller : n / 10 < fuel = ground (arith, h, big) in
      let (d, rest, digit, e) = digits_onto-first fuel (n / 10) ((48 + n % 10) ∷ s) smaller in
      (d, rest, digit, rw big e)
]

-- The range of a 32-bit `int`.
abbrev pub IsInt : ℤ → Type 0
IsInt (pos n) = n < 2 ^ 31
IsInt (negsuc n) = n < 2 ^ 31

pub digits_from-decimal : (n : ℕ) → digits_from none (decimal n) ≡ some n
unfolding decimal digits_from
digits_from-decimal n = digits_from-digits_onto (suc n) n [] (omega arith)

pub decimal-first : (n : ℕ) → (d : ℕ) × (rest : Text) × (d < 10) × (decimal n ≡ (48 + d) ∷ rest)
unfolding decimal
decimal-first n = digits_onto-first (suc n) n [] (omega arith)

stoi-decimal : (n : ℕ) → n < 2 ^ 31 → stoi (decimal n) ≡ some (pos n)
unfolding stoi trim_start
stoi-decimal n h =
    let (d, rest, digit, e) = decimal-first n in
    let visible : is_space (48 + d) ≡ false = ground (arith, digit) in
    let no_minus : nat_beq (48 + d) b'-' ≡ false = ground (arith, digit) in
    let no_plus : nat_beq (48 + d) b'+' ≡ false = ground (arith, digit) in
    let value : digits_from none ((48 + d) ∷ rest) ≡ some n =
      ap (digits_from none) (sym e) ∙ digits_from-decimal n in
    let small : leb n 2147483647 ≡ true = ground (arith, h) in
    ap stoi e ∙ rw visible (rw no_minus (rw no_plus (rw value (rw small refl))))

stoi-to_string :
    (n : ℤ) → IsInt n → (is_empty (to_string n) ≡ false) × (stoi (to_string n) ≡ some n)
unfolding to_string stoi trim_start
stoi-to_string (pos n) h =
    let (d, rest, digit, e) = decimal-first n in (ap is_empty e, stoi-decimal n h)
stoi-to_string (negsuc n) h =
    let small : leb (suc n) 2147483648 ≡ true = ground (arith, h) in
    (refl, rw (digits_from-decimal (suc n)) (rw small refl))

get_bool-set_bool : (k : Text) (b b' : Bool) (s : ConfigStore) → get_bool k b' (set_bool k b s) ≡ b
unfolding get_bool set_bool contains text_beq to_lower lower_byte
get_bool-set_bool k true b' s = rw (get-set_self k (codes "true") [] s) refl
get_bool-set_bool k false b' s = rw (get-set_self k (codes "false") [] s) refl

-- An integer in the range of `int`, a truth value, and a list whose elements have no comma in them and no
-- white space in front or behind and whose joined text is not empty are read back as they were set.
pub typed_get-set :
    (k : Text) (s : ConfigStore) (n n' : ℤ) (b b' : Bool) (xs xs' : List Text)
    → IsInt n
    → All (λ y. Trimmed y × Without b',' y) xs
    → is_empty (join_list xs) ≡ false
    → (get_int k n' (set_int k n s) ≡ n)
      × (get_bool k b' (set_bool k b s) ≡ b)
      × (get_list k xs' (set_list k xs s) ≡ xs)
unfolding get_int get_list set_int set_list
typed_get-set k s n n' b b' xs xs' range ok full = (
  rw (get-set_self k (to_string n) [] s)
      (rw (stoi-to_string n range).0 (rw (stoi-to_string n range).1 refl)),
  get_bool-set_bool k b b' s,
  rw (get-set_self k (join_list xs) [] s) (rw full (split_list-join_list xs ok full)),
)
