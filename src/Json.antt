-- ===== src/Json.antt =====
-- The escapes of JSON strings that reporter.cpp (`json_escape_str`) and webhook_notifier.cpp
-- (`escape_json`) write.
pub mod Reader
pub mod Strings
use change_of_system.Base.{
  ℕ, ◌+◌, ◌/◌, ◌%◌, Bool, List, [], ◌∷◌, ◌++◌, Text, codes, nat_beq, ltb, if◌then◌else◌,
}

-- A hexadecimal digit in lower case.
abbrev pub hex_digit : ℕ → ℕ
hex_digit d = if ltb d 10 then 48 + d else 87 + d

-- `%04x` of a byte below 256.
abbrev pub unicode_escape : ℕ → Text
unicode_escape c = codes "\\u00" ++ hex_digit (c / 16) ∷ hex_digit (c % 16) ∷ []

-- One byte of the loop of `json_escape_str`.
abbrev pub json_escape_byte : ℕ → Text
json_escape_byte c =
    if nat_beq c b'"'
    then codes "\\\""
    else if nat_beq c b'\\'
    then codes "\\\\"
    else if nat_beq c b'\n'
    then codes "\\n"
    else if nat_beq c b'\r'
    then codes "\\r"
    else if nat_beq c b'\t'
    then codes "\\t"
    else if ltb c 32
    then unicode_escape c
    else c ∷ []

unfoldable pub json_escape_str : Text → Text
json_escape_str [] = []
json_escape_str (c ∷ s) = json_escape_byte c ++ json_escape_str s

-- One byte of the loop of `escape_json`.
abbrev pub escape_json_byte : ℕ → Text
escape_json_byte c =
    if nat_beq c b'"'
    then codes "\\\""
    else if nat_beq c b'\\'
    then codes "\\\\"
    else if nat_beq c 8
    then codes "\\b"
    else if nat_beq c 12
    then codes "\\f"
    else if nat_beq c b'\n'
    then codes "\\n"
    else if nat_beq c b'\r'
    then codes "\\r"
    else if nat_beq c b'\t'
    then codes "\\t"
    else if ltb c 32
    then unicode_escape c
    else c ∷ []

unfoldable pub escape_json : Text → Text
escape_json [] = []
escape_json (c ∷ s) = escape_json_byte c ++ escape_json s
