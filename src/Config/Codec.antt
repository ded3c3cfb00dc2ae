-- ===== src/Config/Codec.antt =====
-- The helpers of config_store.cpp on texts: white space, escapes, lists and lines.
pub mod RoundTrip
use change_of_system.Base.{
  ℕ, ◌≡◌, Bool, true, false, not, ◌&&◌, ◌||◌, Option, none, some, List, [], ◌∷◌, ◌++◌, Text,
  is_empty, nat_beq, leb, if◌then◌else◌,
}

-- `std::isspace` in the C locale.
abbrev pub is_space : ℕ → Bool
is_space c = nat_beq c b' ' || (leb 9 c && leb c 13)

unfoldable pub trim_start : Text → Text
trim_start [] = []
trim_start (c ∷ s) = let rest = trim_start s in if is_space c then rest else c ∷ s

unfoldable pub trim_end : Text → Text
trim_end [] = []
trim_end (c ∷ s) = let rest = trim_end s in if is_empty rest && is_space c then [] else c ∷ rest

unfoldable pub trim : Text → Text
unfolding trim_start trim_end
trim s = trim_end (trim_start s)

abbrev pub escape_byte : ℕ → Text
escape_byte c =
    if nat_beq c b'\n'
    then b'\\' ∷ b'n' ∷ []
    else if nat_beq c b'\r'
    then b'\\' ∷ b'r' ∷ []
    else if nat_beq c b'\t'
    then b'\\' ∷ b't' ∷ []
    else if nat_beq c b'\\'
    then b'\\' ∷ b'\\' ∷ []
    else c ∷ []

unfoldable pub escape : Text → Text
escape [] = []
escape (c ∷ s) = escape_byte c ++ escape s

abbrev pub unescape_byte : ℕ → ℕ
unescape_byte c =
    if nat_beq c b'n'
    then b'\n'
    else if nat_beq c b'r'
    then b'\r'
    else if nat_beq c b't'
    then b'\t'
    else c

-- The rest of the loop of `unescape`; `after` says whether the byte behind a backslash comes next.
unfoldable pub unescape_from : Bool → Text → Text
unescape_from after [] = []
unescape_from true (c ∷ s) = unescape_byte c ∷ unescape_from false s
unescape_from false (c ∷ s) =
    let escapes = nat_beq c b'\\' && not (is_empty s) in
    let rest = unescape_from escapes s in if escapes then rest else c ∷ rest

unfoldable pub unescape : Text → Text
unfolding unescape_from
unescape s = unescape_from false s

-- The rest of the loop of `split_list`, with the token that has been read.
unfoldable pub split_from : Text → Text → List Text
unfolding trim
split_from token [] = if is_empty token then [] else trim token ∷ []
split_from token (c ∷ s) =
    let comma = nat_beq c b',' in
    let rest = split_from (if comma then [] else token ++ c ∷ []) s in
    if comma then trim token ∷ rest else rest

unfoldable pub split_list : Text → List Text
unfolding split_from
split_list value = split_from [] value

-- The elements behind the first one, as the loop of `set_list` writes them.
unfoldable pub join_rest : List Text → Text
join_rest [] = []
join_rest (x ∷ xs) = b',' ∷ b' ' ∷ x ++ join_rest xs

unfoldable pub join_list : List Text → Text
unfolding join_rest
join_list [] = []
join_list (x ∷ xs) = x ++ join_rest xs

abbrev put_first : ℕ → List Text → List Text
put_first c [] = (c ∷ []) ∷ []
put_first c (line ∷ rest) = (c ∷ line) ∷ rest

-- The lines that `std::getline` reads from a text, one after the other.
unfoldable pub lines : Text → List Text
lines [] = []
lines (c ∷ s) = let rest = lines s in if nat_beq c b'\n' then [] ∷ rest else put_first c rest

-- What is in front of the first equals sign and what is behind it.
unfoldable pub split_at_equals : Text → Option (Text × Text)
split_at_equals [] = none
split_at_equals (c ∷ s) =
    let rest = split_at_equals s in
    if nat_beq c b'='
    then some ([], s)
    else elim rest [ none ↦ none | some (key, value) ↦ some (c ∷ key, value) ]
