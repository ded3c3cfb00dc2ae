-- ===== src/Validate/Values.antt =====
-- The checks of single values.
pub mod Accepted
pub mod Forms
use change_of_system.Base.{
  ℕ, Bool, true, false, not, ◌&&◌, ◌||◌, Option, none, some, List, [], ◌∷◌, ◌++◌, Text, text_beq,
  codes, is_empty, nat_beq, to_lower, if◌then◌else◌,
}
use change_of_system.Base.Int.{ℤ, pos, ltb_ℤ}
use change_of_system.Config.Codec.{trim}
use change_of_system.Config.Store.{stoi, is_digit}

-- `double` as the validator uses it: `std::stod`, with `none` for an exception, the comparisons with
-- each other and with whole numbers, and `std::to_string`.
pub record Doubles : Type 1 where
  pub Double : Type 0
  pub stod : Text → Option Double
  pub whole : ℕ → Double
  pub at_least : Double → Double → Bool
  pub above : Double → Double → Bool
  pub to_text : Double → Text

unfoldable pub is_valid_bool : Text → Bool
is_valid_bool v =
    let s = to_lower v in
    text_beq s (codes "true")
    || text_beq s (codes "false")
    || text_beq s (codes "1")
    || text_beq s (codes "0")
    || text_beq s (codes "yes")
    || text_beq s (codes "no")
    || text_beq s (codes "on")
    || text_beq s (codes "off")

abbrev pub all_digits : Text → Bool
all_digits [] = true
all_digits (c ∷ s) = is_digit c && all_digits s

unfoldable pub is_valid_int : Text → Bool
is_valid_int [] = false
is_valid_int (c ∷ s) =
    if nat_beq c b'+' || nat_beq c b'-'
    then not (is_empty s) && all_digits s
    else all_digits (c ∷ s)

-- The tokens that `std::getline` reads with a comma as its delimiter.
abbrev put_first : ℕ → List Text → List Text
put_first c [] = (c ∷ []) ∷ []
put_first c (token ∷ rest) = (c ∷ token) ∷ rest

unfoldable pub comma_tokens : Text → List Text
comma_tokens [] = []
comma_tokens (c ∷ s) =
    let rest = comma_tokens s in if nat_beq c b',' then [] ∷ rest else put_first c rest

abbrev pub is_port : Option ℤ → Bool
is_port none = false
is_port (some p) = not (ltb_ℤ p (pos 0)) && not (ltb_ℤ (pos 65535) p)

abbrev pub are_ports : List Text → Bool
are_ports [] = true
are_ports (token ∷ rest) =
    let later = are_ports rest in
    if is_empty (trim token) then later else is_port (stoi (trim token)) && later

unfoldable pub is_valid_port_list : Text → Bool
unfolding comma_tokens
is_valid_port_list v = if is_empty v then true else are_ports (comma_tokens v)

-- What `validate_value` finds wrong with a value.
pub data Fault : Type 0 where
  not_bool not_int not_double not_ports : Fault

module _ (doubles : Doubles) where
  abbrev pub reads : Option doubles.Double → Bool
  reads none = false
  reads (some d) = true

  unfoldable pub is_valid_double : Text → Bool
  is_valid_double v = let read = reads (doubles.stod v) in if is_empty v then false else read

  unfoldable pub validate_value : Text → Text → Text → Option Fault
  unfolding is_valid_bool is_valid_int is_valid_double is_valid_port_list
  validate_value key type value =
      if text_beq type (codes "bool")
      then (if is_valid_bool value then none else some Fault.not_bool)
      else if text_beq type (codes "int")
      then (if is_valid_int value then none else some Fault.not_int)
      else if text_beq type (codes "double")
      then (if is_valid_double value then none else some Fault.not_double)
      else if text_beq type (codes "list")
      then (if text_beq key (codes "port.watch_ports") && not (is_valid_port_list value)
          then some Fault.not_ports
          else none)
      else none
