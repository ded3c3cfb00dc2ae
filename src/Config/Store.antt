-- ===== src/Config/Store.antt =====
-- `ConfigStore`: the settings by key, typed access to them, and their file. The mutex is not
-- modelled: an operation is one step. `get_double` reads a floating-point number and is left out.
pub mod Access
pub mod RoundTrip
use change_of_system.Base.{
  ℕ, zero, suc, ◌+◌, ◌-◌, ◌*◌, ◌^◌, ◌≡◌, Bool, true, false, not, ◌&&◌, ◌||◌, Option, none, some,
  List, [], ◌∷◌, ◌++◌, Text, text_key, codes, is_empty, nat_beq, ltb, leb, Dict, lookup, insert,
  value_or, contains, to_lower, get_or, if◌then◌else◌,
}
use change_of_system.Base.Int.{ℤ, pos, negsuc, to_string}
use change_of_system.Config.Codec.{
  trim, trim_start, escape, unescape, split_list, join_list, lines, split_at_equals,
}

pub record ConfigStore : Type 0 where
  pub values : Dict Text Text
  pub file_path : Text

abbrev default_settings : List (Text × Text)
default_settings =
    (codes "filesystem.enabled", codes "true")
    ∷ (codes "filesystem.poll_interval_ms", codes "2000")
    ∷ (codes "filesystem.use_native", codes "true")
    ∷ (codes "filesystem.watch_paths", codes "/etc,/tmp")
    ∷ (codes "process.enabled", codes "true")
    ∷ (codes "process.poll_interval_ms", codes "3000")
    ∷ (codes "process.track_cpu", codes "true")
    ∷ (codes "process.track_memory", codes "true")
    ∷ (codes "network.enabled", codes "true")
    ∷ (codes "network.poll_interval_ms", codes "5000")
    ∷ (codes "system_config.enabled", codes "true")
    ∷ (codes "system_config.poll_interval_ms", codes "10000")
    ∷ (codes "storage.database_path", codes "change-of-system.db")
    ∷ (codes "storage.max_events", codes "100000")
    ∷ (codes "reporting.enabled", codes "false")
    ∷ (codes "reporting.endpoint", codes "https://example.com/api/events")
    ∷ (codes "reporting.api_key", codes "")
    ∷ (codes "reporting.batch_size", codes "100")
    ∷ (codes "reporting.interval_ms", codes "10000")
    ∷ []

-- `values[key] = value` for each pair in turn.
unfoldable pub insert_all : List (Text × Text) → Dict Text Text → Dict Text Text
insert_all [] m = m
insert_all ((key, value) ∷ rest) m = insert_all rest (insert key value m)

-- The constructor `ConfigStore::ConfigStore`.
unfoldable pub new_store : ConfigStore
new_store = record { values = insert_all default_settings []; file_path = [] }

abbrev is_comment : Text → Bool
is_comment trimmed = nat_beq (get_or trimmed 0 0) b'#' || nat_beq (get_or trimmed 0 0) b';'

abbrev load_setting : Option (Text × Text) → Dict Text Text → Dict Text Text
load_setting none m = m
load_setting (some (key, value)) m =
    if is_empty (trim key) then m else insert (trim key) (unescape (trim value)) m

-- The body of the loop of `load`.
unfoldable pub load_line : Text → Dict Text Text → Dict Text Text
load_line line m =
    let trimmed = trim line in
    if is_empty trimmed || is_comment trimmed then m else load_setting (split_at_equals trimmed) m

unfoldable pub load_lines : List Text → Dict Text Text → Dict Text Text
load_lines [] m = m
load_lines (line ∷ rest) m = load_lines rest (load_line line m)

-- `file` is what the file of that path holds, `none` if it cannot be opened.
unfoldable pub load : Text → Option Text → ConfigStore → ConfigStore
load path none s = record s { file_path = path }
load path (some file) s = record s { file_path = path; values = load_lines (lines file) s.values }

unfoldable pub save_values : Dict Text Text → Text
save_values [] = []
save_values ((key, value) ∷ rest) = key ++ codes " = " ++ escape value ++ b'\n' ∷ save_values rest

abbrev header : Text
header =
    codes "# change-of-system configuration"
    ++ b'\n' ∷ codes "# Auto-generated by ConfigStore"
    ++ b'\n' ∷ b'\n' ∷ []

-- The path of the file that is written and what is written to it.
unfoldable pub save : Text → ConfigStore → Text × Text
save path s = ((if is_empty path then s.file_path else path), header ++ save_values s.values)

unfoldable pub get : Text → Text → ConfigStore → Text
get key default_value s = value_or default_value (lookup key s.values)

abbrev pub is_digit : ℕ → Bool
is_digit c = leb b'0' c && leb c b'9'

-- The value of the digits that come next, behind those that `acc` is the value of.
unfoldable pub digits_from : Option ℕ → Text → Option ℕ
digits_from acc [] = acc
digits_from acc (c ∷ s) =
    let rest = digits_from (some (value_or 0 acc * 10 + (c - 48))) s in
    if is_digit c then rest else acc

abbrev negated : ℕ → ℤ
negated zero = pos 0
negated (suc n) = negsuc n

abbrev in_range : Option ℕ → ℕ → (ℕ → ℤ) → Option ℤ
in_range none limit f = none
in_range (some n) limit f = if leb n limit then some (f n) else none

abbrev signed : Text → Option ℤ
signed [] = none
signed (c ∷ s) =
    if nat_beq c b'-'
    then in_range (digits_from none s) (2 ^ 31) negated
    else if nat_beq c b'+'
    then in_range (digits_from none s) (2 ^ 31 - 1) pos
    else in_range (digits_from none (c ∷ s)) (2 ^ 31 - 1) pos

-- `std::stoi`, with `none` for an exception.
unfoldable pub stoi : Text → Option ℤ
stoi s = signed (trim_start s)

unfoldable pub get_int : Text → ℤ → ConfigStore → ℤ
get_int key default_value s =
    let v = get key [] s in if is_empty v then default_value else value_or default_value (stoi v)

unfoldable pub get_bool : Text → Bool → ConfigStore → Bool
get_bool key default_value s =
    let v = get key [] s in
    let w = to_lower v in
    if is_empty v
    then default_value
    else if contains (codes "true" ∷ codes "1" ∷ codes "yes" ∷ codes "on" ∷ []) w
    then true
    else if contains (codes "false" ∷ codes "0" ∷ codes "no" ∷ codes "off" ∷ []) w
    then false
    else default_value

unfoldable pub get_list : Text → List Text → ConfigStore → List Text
get_list key default_value s =
    let v = get key [] s in if is_empty v then default_value else split_list v

unfoldable pub set : Text → Text → ConfigStore → ConfigStore
set key value s = record s { values = insert key value s.values }

unfoldable pub set_int : Text → ℤ → ConfigStore → ConfigStore
set_int key value s = set key (to_string value) s

unfoldable pub set_bool : Text → Bool → ConfigStore → ConfigStore
set_bool key value s = set key (if value then codes "true" else codes "false") s

unfoldable pub set_list : Text → List Text → ConfigStore → ConfigStore
set_list key value s = set key (join_list value) s

abbrev is_some : {A : Type 0} → Option A → Bool
is_some none = false
is_some (some a) = true

unfoldable pub has : Text → ConfigStore → Bool
has key s = is_some (lookup key s.values)
