-- ===== src/Json/Strings.antt =====
-- A JSON reader gets back what the program escapes.
use change_of_system.Base.{
  ℕ, ◌+◌, ◌*◌, ◌/◌, ◌%◌, ◌<◌, ◌≡◌, refl, sym, ap, ◌∙◌, Bool, true, false, some, [], ◌∷◌, ◌++◌, Text,
  nat_beq, nat_beq_iff, codes, ltb, arith, if◌then◌else◌,
}
use mathlib.Core.Path.{subst}
use mathlib.Core.List.{append_assoc}
use change_of_system.Json.{
  json_escape_byte, json_escape_str, escape_json_byte, escape_json, hex_digit, unicode_escape,
}
use change_of_system.Json.Reader.{
  Reading, Next, with_byte, hex_value, next_escaped, next_unicode, next, follow, read_string,
}

-- The text `t` is read as the byte `c`.
abbrev ReadAs : ℕ → Text → Type 0
ReadAs c t =
    (s : Text) → read_string Reading.plain (t ++ s) ≡ with_byte c (read_string Reading.plain s)

ReadAs-if :
    (b : Bool) (c : ℕ) (x y : Text)
    → (b ≡ true → ReadAs c x)
    → (b ≡ false → ReadAs c y)
    → ReadAs c (if b then x else y)
ReadAs-if true c x y h k = h refl
ReadAs-if false c x y h k = k refl

ReadAs-same : (c d : ℕ) (t : Text) → nat_beq c d ≡ true → ReadAs d t → ReadAs c t
ReadAs-same c d t e h = subst (λ n. ReadAs n t) (sym ((nat_beq_iff c d).0 e)) h

ReadAs-escape :
    (c d : ℕ) → next_escaped d ≡ Next.gives (c ∷ []) Reading.plain → ReadAs c (b'\\' ∷ d ∷ [])
unfolding read_string
ReadAs-escape c d h s = ap (λ n. follow n s (λ r. read_string r s)) h

ReadAs-itself :
    (c : ℕ)
    → nat_beq c b'"' ≡ false
    → nat_beq c b'\\' ≡ false
    → ltb c 32 ≡ false
    → ReadAs c (c ∷ [])
unfolding read_string
ReadAs-itself c quote slash control s = rw quote (rw slash (rw control refl))

hex_value-digit : (d : ℕ) → d < 16 → hex_value (hex_digit d) ≡ some d
hex_value-digit d h = ground (arith, h)

ReadAs-unicode : (c : ℕ) → ltb c 32 ≡ true → ReadAs c (unicode_escape c)
unfolding read_string
ReadAs-unicode c h s =
    let small : c < 32 = ground (arith, h) in
    let high : c / 16 < 16 = omega (arith, small) in
    let low : c % 16 < 16 = omega arith in
    let whole : (c / 16) * 16 + c % 16 ≡ c = omega arith in
    let code : (0 * 16 + c / 16) * 16 + c % 16 ≡ c = omega (arith, whole) in
    let single : ltb c 128 ≡ true = ground (arith, small) in
    ap
      (λ o.
        follow (next_unicode 1 0 o) (hex_digit (c % 16) ∷ s)
          (λ r. follow (next r (hex_digit (c % 16))) s (λ r'. read_string r' s)))
      (hex_value-digit (c / 16) high)
    ∙ ap (λ o. follow (next_unicode 0 (0 * 16 + c / 16) o) s (λ r. read_string r s))
        (hex_value-digit (c % 16) low)
    ∙ ap
        (λ n.
          follow (if ltb n 128 then Next.gives (n ∷ []) Reading.plain else Next.refused) s
            (λ r. read_string r s))
        code
    ∙ rw single refl

module _ (c : ℕ) (quote : nat_beq c b'"' ≡ false) (slash : nat_beq c b'\\' ≡ false) where
  ReadAs-rest : ReadAs c (if ltb c 32 then unicode_escape c else c ∷ [])
  ReadAs-rest =
      ReadAs-if (ltb c 32) c (unicode_escape c) (c ∷ []) (ReadAs-unicode c)
        (ReadAs-itself c quote slash)

  ReadAs-blank : ReadAs c (
      if nat_beq c b'\n'
      then codes "\\n"
      else if nat_beq c b'\r'
      then codes "\\r"
      else if nat_beq c b'\t'
      then codes "\\t"
      else if ltb c 32
      then unicode_escape c
      else c ∷ [])
  ReadAs-blank =
      ReadAs-if (nat_beq c b'\n') c _ _
        (λ e. ReadAs-same c b'\n' (codes "\\n") e (ReadAs-escape b'\n' b'n' refl))
        (λ _.
          ReadAs-if (nat_beq c b'\r') c _ _
            (λ e. ReadAs-same c b'\r' (codes "\\r") e (ReadAs-escape b'\r' b'r' refl))
            (λ _.
              ReadAs-if (nat_beq c b'\t') c _ _
                (λ e. ReadAs-same c b'\t' (codes "\\t") e (ReadAs-escape b'\t' b't' refl))
                (λ _. ReadAs-rest)))

json_escape_byte-read : (c : ℕ) → ReadAs c (json_escape_byte c)
json_escape_byte-read c =
    ReadAs-if (nat_beq c b'"') c _ _
      (λ e. ReadAs-same c b'"' (codes "\\\"") e (ReadAs-escape b'"' b'"' refl))
      (λ quote.
        ReadAs-if (nat_beq c b'\\') c _ _
          (λ e. ReadAs-same c b'\\' (codes "\\\\") e (ReadAs-escape b'\\' b'\\' refl))
          (λ slash. ReadAs-blank c quote slash))

escape_json_byte-read : (c : ℕ) → ReadAs c (escape_json_byte c)
escape_json_byte-read c =
    ReadAs-if (nat_beq c b'"') c _ _
      (λ e. ReadAs-same c b'"' (codes "\\\"") e (ReadAs-escape b'"' b'"' refl))
      (λ quote.
        ReadAs-if (nat_beq c b'\\') c _ _
          (λ e. ReadAs-same c b'\\' (codes "\\\\") e (ReadAs-escape b'\\' b'\\' refl))
          (λ slash.
            ReadAs-if (nat_beq c 8) c _ _
              (λ e. ReadAs-same c 8 (codes "\\b") e (ReadAs-escape 8 b'b' refl))
              (λ _.
                ReadAs-if (nat_beq c 12) c _ _
                  (λ e. ReadAs-same c 12 (codes "\\f") e (ReadAs-escape 12 b'f' refl))
                  (λ _. ReadAs-blank c quote slash))))

closed : (rest : Text) → read_string Reading.plain (b'"' ∷ rest) ≡ some ([], rest)
unfolding read_string
closed rest = refl

read_bytes :
    (escape : ℕ → Text) (h : (c : ℕ) → ReadAs c (escape c)) (c : ℕ) (t s rest : Text)
    → read_string Reading.plain (t ++ b'"' ∷ rest) ≡ some (s, rest)
    → read_string Reading.plain ((escape c ++ t) ++ b'"' ∷ rest) ≡ some (c ∷ s, rest)
read_bytes escape h c t s rest e =
    ap (read_string Reading.plain) (append_assoc (escape c) t (b'"' ∷ rest))
    ∙ h c (t ++ b'"' ∷ rest)
    ∙ ap (with_byte c) e

json_escape_str-read :
    (s rest : Text) → read_string Reading.plain (json_escape_str s ++ b'"' ∷ rest) ≡ some (s, rest)
unfolding json_escape_str
json_escape_str-read [] rest = closed rest
json_escape_str-read (c ∷ s) rest =
    read_bytes json_escape_byte json_escape_byte-read c (json_escape_str s) s rest
      (json_escape_str-read s rest)

escape_json-read :
    (s rest : Text) → read_string Reading.plain (escape_json s ++ b'"' ∷ rest) ≡ some (s, rest)
unfolding escape_json
escape_json-read [] rest = closed rest
escape_json-read (c ∷ s) rest =
    read_bytes escape_json_byte escape_json_byte-read c (escape_json s) s rest
      (escape_json-read s rest)

-- A JSON reader that stands behind the opening quote of a text that the reporter or the notifier of
-- webhooks has escaped finds that text, and stops at its closing quote.
pub read_string-escaped :
    (s rest : Text)
    → (read_string Reading.plain (json_escape_str s ++ b'"' ∷ rest) ≡ some (s, rest))
      × (read_string Reading.plain (escape_json s ++ b'"' ∷ rest) ≡ some (s, rest))
read_string-escaped s rest = (json_escape_str-read s rest, escape_json-read s rest)
