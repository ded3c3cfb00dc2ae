-- ===== src/Validate/Values/Forms.antt =====
-- The forms of values, and that the checks accept no other.
use change_of_system.Base.{
  ◌≡◌, ◌≢◌, ◌⊎◌, ◌≤◌, ℕ, refl, sym, inl, inr, Bool, Bool-cases, true, false, not, ◌&&◌, ◌||◌,
  Option, none, some, none_ne_some, List, [], ◌∷◌, ◌++◌, Text, text_beq, text_beq_iff, codes,
  is_empty, nat_beq, to_lower, All, arith, if◌then◌else◌,
}
use change_of_system.Base.Int.{ℤ, pos, negsuc}
use change_of_system.Config.Codec.{trim}
use change_of_system.Config.Store.{stoi}
use change_of_system.Validate.Values.{
  Doubles, Fault, reads, is_valid_bool, all_digits, is_valid_int, comma_tokens, is_port, are_ports,
  is_valid_port_list, is_valid_double, validate_value,
}

-- One of the eight words, in any case of the letters.
abbrev pub IsBool : Text → Type 0
IsBool v =
    (to_lower v ≡ codes "true")
    ⊎ (to_lower v ≡ codes "false")
    ⊎ (to_lower v ≡ codes "1")
    ⊎ (to_lower v ≡ codes "0")
    ⊎ (to_lower v ≡ codes "yes")
    ⊎ (to_lower v ≡ codes "no")
    ⊎ (to_lower v ≡ codes "on")
    ⊎ (to_lower v ≡ codes "off")

abbrev pub IsDigit : ℕ → Type 0
IsDigit c = (b'0' ≤ c) × (c ≤ b'9')

-- Digits, at least one, of any number, and a sign in front or none.
pub record IsInt (v : Text) : Type 0 where
  pub sign : Text
  pub digits : Text
  pub whole : v ≡ sign ++ digits
  pub signs : (sign ≡ []) ⊎ (sign ≡ codes "+") ⊎ (sign ≡ codes "-")
  pub present : digits ≢ []
  pub each : All IsDigit digits

-- Blank, or a text that `std::stoi` reads as a number from 0 to 65535.
abbrev pub IsPort : Text → Type 0
IsPort token = (trim token ≡ []) ⊎ ((n : ℕ) × (stoi (trim token) ≡ some (pos n)) × (n ≤ 65535))

is_valid_bool-IsBool : (v : Text) → is_valid_bool v ≡ true → IsBool v
unfolding is_valid_bool
is_valid_bool-IsBool v h = ground (
  arith,
  h,
  text_beq_iff (to_lower v) (codes "true"),
  text_beq_iff (to_lower v) (codes "false"),
  text_beq_iff (to_lower v) (codes "1"),
  text_beq_iff (to_lower v) (codes "0"),
  text_beq_iff (to_lower v) (codes "yes"),
  text_beq_iff (to_lower v) (codes "no"),
  text_beq_iff (to_lower v) (codes "on"),
  text_beq_iff (to_lower v) (codes "off"),
)

all_digits-IsDigit : (v : Text) → all_digits v ≡ true → All IsDigit v
all_digits-IsDigit [] h = tt
all_digits-IsDigit (c ∷ v) h = ground (arith, h, all_digits-IsDigit v)

cons_ne_nil : (c : ℕ) (s : Text) → (c ∷ s) ≢ []
cons_ne_nil c s e = ground (arith, e)

is_empty-nil : (s : Text) → not (is_empty s) ≡ true → s ≢ []
is_empty-nil [] h = absurd (ground (arith, h))
is_empty-nil (c ∷ s) h = cons_ne_nil c s

is_valid_int-IsInt : (v : Text) → is_valid_int v ≡ true → IsInt v
unfolding is_valid_int
is_valid_int-IsInt [] h = absurd (ground (arith, h))
is_valid_int-IsInt (c ∷ s) h = elim (Bool-cases (nat_beq c b'+' || nat_beq c b'-')) [
  | inl signed ↦
      let rest : (not (is_empty s) && all_digits s) ≡ true = ground (arith, h, signed) in
      record {
        sign = c ∷ [];
        digits = s;
        whole = refl;
        signs = inr (sign_of signed);
        present = is_empty-nil s (ground (arith, rest));
        each = all_digits-IsDigit s (ground (arith, rest));
      }
  | inr unsigned ↦ record {
    sign = [];
    digits = c ∷ s;
    whole = refl;
    signs = inl refl;
    present = cons_ne_nil c s;
    each = all_digits-IsDigit (c ∷ s) (ground (arith, h, unsigned));
  }
]
  where
    sign_of :
        (nat_beq c b'+' || nat_beq c b'-') ≡ true → (c ∷ [] ≡ codes "+") ⊎ (c ∷ [] ≡ codes "-")
    sign_of signed = ground (arith, signed)

is_port-range : (o : Option ℤ) → is_port o ≡ true → (n : ℕ) × (o ≡ some (pos n)) × (n ≤ 65535)
is_port-range none h = absurd (ground (arith, h))
is_port-range (some (pos n)) h = (n, refl, ground (arith, h))
is_port-range (some (negsuc n)) h = absurd (ground (arith, h))

nil_of : (s : Text) → is_empty s ≡ true → s ≡ []
nil_of [] h = refl
nil_of (c ∷ s) h = absurd (ground (arith, h))

are_ports-IsPort : (tokens : List Text) → are_ports tokens ≡ true → All IsPort tokens
are_ports-IsPort [] h = tt
are_ports-IsPort (token ∷ rest) h = elim (Bool-cases (is_empty (trim token))) [
  | inl blank ↦ (inl (nil_of (trim token) blank), are_ports-IsPort rest (ground (arith, h, blank)))
  | inr held ↦ (
    inr (is_port-range (stoi (trim token)) (ground (arith, h, held))),
    are_ports-IsPort rest (ground (arith, h, held)),
  )
]

is_valid_port_list-IsPort : (v : Text) → is_valid_port_list v ≡ true → All IsPort (comma_tokens v)
unfolding is_valid_port_list comma_tokens
is_valid_port_list-IsPort [] h = tt
is_valid_port_list-IsPort (c ∷ v) h = are_ports-IsPort (comma_tokens (c ∷ v)) h

module _ (doubles : Doubles) where
  -- Not empty, and a text that `std::stod` reads.
  abbrev pub IsDouble : Text → Type 0
  IsDouble v = (v ≢ []) × (doubles.stod v ≢ none)

  reads-some : (o : Option doubles.Double) → reads doubles o ≡ true → o ≢ none
  reads-some none h = absurd (ground (arith, h))
  reads-some (some d) h = λ e. none_ne_some (sym e)

  is_valid_double-IsDouble : (v : Text) → is_valid_double doubles v ≡ true → IsDouble v
  unfolding is_valid_double
  is_valid_double-IsDouble [] h = absurd (ground (arith, h))
  is_valid_double-IsDouble (c ∷ v) h = (cons_ne_nil c v, reads-some (doubles.stod (c ∷ v)) h)

  -- The value has the form of its type. A list has none, but that of the watched ports.
  pub data HasForm (key type value : Text) : Type 0 where
    bool_form : type ≡ codes "bool" → IsBool value → HasForm key type value
    int_form : type ≡ codes "int" → IsInt value → HasForm key type value
    double_form : type ≡ codes "double" → IsDouble value → HasForm key type value
    ports_form :
        type ≡ codes "list"
        → key ≡ codes "port.watch_ports"
        → All IsPort (comma_tokens value)
        → HasForm key type value
    list_form : type ≡ codes "list" → key ≢ codes "port.watch_ports" → HasForm key type value
    no_form :
        type ≢ codes "bool"
        → type ≢ codes "int"
        → type ≢ codes "double"
        → type ≢ codes "list"
        → HasForm key type value

  passes : (b : Bool) (f : Fault) → (if b then none else some f) ≡ none → b ≡ true
  passes b f h = ground (arith, h)

  different : (s t : Text) → text_beq s t ≡ false → s ≢ t
  different s t h = λ e. ground (arith, h, (text_beq_iff s t).1 e)

  pub validate_value-HasForm :
      (key type value : Text)
      → validate_value doubles key type value ≡ none
      → HasForm key type value
  unfolding validate_value
  validate_value-HasForm key type value h = elim (Bool-cases (text_beq type (codes "bool"))) [
    | inl b ↦
        bool_form ((text_beq_iff type (codes "bool")).0 b)
          (is_valid_bool-IsBool value (passes _ Fault.not_bool (rw b at h)))
    | inr b ↦ elim (Bool-cases (text_beq type (codes "int"))) [
      | inl i ↦
          int_form ((text_beq_iff type (codes "int")).0 i)
            (is_valid_int-IsInt value (passes _ Fault.not_int (rw (b, i) at h)))
      | inr i ↦ elim (Bool-cases (text_beq type (codes "double"))) [
        | inl d ↦
            double_form ((text_beq_iff type (codes "double")).0 d)
              (is_valid_double-IsDouble value (passes _ Fault.not_double (rw (b, i, d) at h)))
        | inr d ↦ elim (Bool-cases (text_beq type (codes "list"))) [
          | inr l ↦ no_form (different _ _ b) (different _ _ i) (different _ _ d) (different _ _ l)
          | inl l ↦ elim (Bool-cases (text_beq key (codes "port.watch_ports"))) [
            | inr k ↦ list_form ((text_beq_iff type (codes "list")).0 l) (different _ _ k)
            | inl k ↦
                ports_form ((text_beq_iff type (codes "list")).0 l)
                  ((text_beq_iff key (codes "port.watch_ports")).0 k)
                  (is_valid_port_list-IsPort value (ground (arith, rw (b, i, d, l, k) at h)))
          ]
        ]
      ]
    ]
  ]
