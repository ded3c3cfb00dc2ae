-- ===== src/Json/Reader.antt =====
-- A reader of JSON strings, which the source has not: what its escapes are compared with.
use change_of_system.Base.{
  ℕ, zero, suc, ◌+◌, ◌-◌, ◌*◌, ◌&&◌, Option, none, some, [], ◌∷◌, Text, nat_beq, ltb, leb,
  if◌then◌else◌,
}

-- Inside of a string: between two bytes, behind a backslash, or with so many digits of `\u` to come
-- behind those that give the value.
pub data Reading : Type 0 where
  plain : Reading
  escaped : Reading
  unicode : ℕ → ℕ → Reading

abbrev pub with_byte : ℕ → Option (Text × Text) → Option (Text × Text)
with_byte c none = none
with_byte c (some (s, rest)) = some (c ∷ s, rest)

abbrev pub hex_value : ℕ → Option ℕ
hex_value c =
    if leb 48 c && leb c 57
    then some (c - 48)
    else if leb 97 c && leb c 102
    then some (c - 87)
    else if leb 65 c && leb c 70
    then some (c - 55)
    else none

abbrev pub escape_value : ℕ → Option ℕ
escape_value c =
    if nat_beq c b'"'
    then some b'"'
    else if nat_beq c b'\\'
    then some b'\\'
    else if nat_beq c b'/'
    then some b'/'
    else if nat_beq c b'b'
    then some 8
    else if nat_beq c b'f'
    then some 12
    else if nat_beq c b'n'
    then some b'\n'
    else if nat_beq c b'r'
    then some b'\r'
    else if nat_beq c b't'
    then some b'\t'
    else none

-- What one byte does: it ends the string, is refused, or gives bytes and the next reading.
pub data Next : Type 0 where
  ends : Next
  refused : Next
  gives : Text → Reading → Next

abbrev pub next_plain : ℕ → Next
next_plain c =
    if nat_beq c b'"'
    then Next.ends
    else if nat_beq c b'\\'
    then Next.gives [] Reading.escaped
    else if ltb c 32
    then Next.refused
    else Next.gives (c ∷ []) Reading.plain

abbrev pub next_escaped : ℕ → Next
next_escaped c =
    if nat_beq c b'u'
    then Next.gives [] (Reading.unicode 3 0)
    else elim (escape_value c) [ none ↦ Next.refused | some d ↦ Next.gives (d ∷ []) Reading.plain ]

-- A code of one byte only: the program writes no other.
abbrev pub next_unicode : ℕ → ℕ → Option ℕ → Next
next_unicode left value none = Next.refused
next_unicode zero value (some d) =
    let code = value * 16 + d in
    if ltb code 128 then Next.gives (code ∷ []) Reading.plain else Next.refused
next_unicode (suc left) value (some d) = Next.gives [] (Reading.unicode left (value * 16 + d))

abbrev pub next : Reading → ℕ → Next
next Reading.plain c = next_plain c
next Reading.escaped c = next_escaped c
next (Reading.unicode left value) c = next_unicode left value (hex_value c)

abbrev pub with_bytes : Text → Option (Text × Text) → Option (Text × Text)
with_bytes [] o = o
with_bytes (c ∷ cs) o = with_byte c (with_bytes cs o)

abbrev pub follow : Next → Text → (Reading → Option (Text × Text)) → Option (Text × Text)
follow Next.ends s k = some ([], s)
follow Next.refused s k = none
follow (Next.gives cs reading) s k = with_bytes cs (k reading)

-- What stands before the closing quote, read, and what is behind it.
unfoldable pub read_string : Reading → Text → Option (Text × Text)
read_string reading [] = none
read_string reading (c ∷ s) = follow (next reading c) s (λ r. read_string r s)
