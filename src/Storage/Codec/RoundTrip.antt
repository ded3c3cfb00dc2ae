-- ===== src/Storage/Codec/RoundTrip.antt =====
-- An event is read back from its line.
use change_of_system.Base.{
  ℕ, ◌*◌, ◌^◌, ◌<◌, ◌≡◌, refl, sym, ap, ◌∙◌, true, false, Option, none, some, List, [], ◌∷◌, ◌++◌,
  Text, text_key, nat_key, ltb, Dict, contains, All, decimal, digits_onto, zero, suc, ◌+◌, ◌/◌, ◌%◌,
  arith,
}
use change_of_system.Event.{
  Event, EventCategory, EventType, Timestamp, to_unix_ms, category_name, type_name,
  category_from_name, type_from_name,
}
use change_of_system.Event.Names.{names-round_trip}
use change_of_system.Config.Codec.{trim_start, is_space}
use change_of_system.Config.Codec.RoundTrip.{Without}
use change_of_system.Config.Store.{insert_all, digits_from}
use change_of_system.Config.Store.Access.{digits_from-decimal, decimal-first}
use change_of_system.Storage.Codec.{
  one_line, attrs_onto, serialize_event, tokens, attributes_from, read_ms, parse_event, event_of,
  ms_time, in_ms_range, signed_ms,
}
use change_of_system.Storage.Codec.Attributes.{Plain, attributes_read_back}

tokens-append : (s rest : Text) → Without b'\t' s → tokens (s ++ b'\t' ∷ rest) ≡ s ∷ tokens rest
unfolding tokens contains
tokens-append [] rest h = refl
tokens-append (c ∷ s) rest h = ground (arith, tokens-append s rest (ground (arith, h)), h)

tokens-last : (s : Text) → Without b'\t' s → tokens s ≡ s ∷ []
unfolding tokens contains
tokens-last [] h = refl
tokens-last (c ∷ s) h = ground (arith, tokens-last s (ground (arith, h)), h)

one_line-same : (s : Text) → Without b'\n' s → one_line s ≡ s
unfolding contains
one_line-same [] h = refl
one_line-same (c ∷ s) h = ground (arith, one_line-same s (ground (arith, h)), h)

digits_onto-tab : (fuel n : ℕ) (s : Text) → Without b'\t' s → Without b'\t' (digits_onto fuel n s)
unfolding digits_onto contains
digits_onto-tab zero n s h = h
digits_onto-tab (suc fuel) n s h =
    ground (arith, h, digits_onto-tab fuel (n / 10) ((48 + n % 10) ∷ s) (ground (arith, h)))

decimal-tab : (n : ℕ) → Without b'\t' (decimal n)
unfolding decimal contains
decimal-tab n = digits_onto-tab (suc n) n [] refl

category_name-tab : (c : EventCategory) → Without b'\t' (category_name c)
unfolding category_name contains
category_name-tab EventCategory.unknown = refl
category_name-tab _ = refl

type_name-tab : (t : EventType) → Without b'\t' (type_name t)
unfolding type_name contains
type_name-tab EventType.unknown = refl
type_name-tab _ = refl

read_ms-decimal : (n : ℕ) → n < 2 ^ 63 → read_ms (decimal n) ≡ some n
unfolding read_ms trim_start
read_ms-decimal n h =
    let (d, rest, digit, e) = decimal-first n in
    let visible : is_space (48 + d) ≡ false = ground (arith, digit) in
    let kept : trim_start ((48 + d) ∷ rest) ≡ (48 + d) ∷ rest = rw visible refl in
    let trimmed : trim_start (decimal n) ≡ decimal n = ap trim_start e ∙ kept ∙ sym e in
    let small : ltb n 9223372036854775808 ≡ true = ground (arith, h) in
    let unsigned : signed_ms ((48 + d) ∷ rest) ≡ in_ms_range (digits_from none ((48 + d) ∷ rest)) =
      ground arith in
    ap signed_ms (trimmed ∙ e)
    ∙ unsigned
    ∙ ap (λ s. in_ms_range (digits_from none s)) (sym e)
    ∙ ap in_ms_range (digits_from-decimal n)
    ∙ rw small refl

-- An event that a line can hold: no text of it has a tab in it, neither its attributes nor its
-- summary has an end of line, its attributes are plain and in the order of their keys, and its time
-- in milliseconds fits into 64 bits.
pub record Storable (e : Event) : Type 0 where
  pub in_time : to_unix_ms e.timestamp < 2 ^ 63
  pub source : Without b'\t' e.source
  pub target : Without b'\t' e.target
  pub host : Without b'\t' e.host
  pub platform : Without b'\t' e.platform
  pub summary : Without b'\t' e.summary
  pub summary_line : Without b'\n' e.summary
  pub attributes : Without b'\t' (attrs_onto [] e.attributes)
  pub attributes_line : Without b'\n' (attrs_onto [] e.attributes)
  pub plain : All Plain e.attributes
  pub ordered : insert_all e.attributes [] ≡ e.attributes

abbrev columns : Event → List Text
columns e =
    category_name e.category
    ∷ type_name e.type
    ∷ e.source
    ∷ e.target
    ∷ e.host
    ∷ e.platform
    ∷ attrs_onto [] e.attributes
    ∷ e.summary
    ∷ []

abbrev join_columns : Text → List Text → Text
join_columns x [] = x
join_columns x (y ∷ ys) = x ++ b'\t' ∷ join_columns y ys

tokens-join_columns :
    (x : Text) (ys : List Text)
    → Without b'\t' x
    → All (Without b'\t') ys
    → tokens (join_columns x ys) ≡ x ∷ ys
tokens-join_columns x [] h hs = tokens-last x h
tokens-join_columns x (y ∷ ys) h (k, hs) =
    tokens-append x (join_columns y ys) h ∙ ap (λ r. x ∷ r) (tokens-join_columns y ys k hs)

tokens-serialize_event :
    (e : Event)
    → Storable e
    → tokens (serialize_event e) ≡ decimal (to_unix_ms e.timestamp) ∷ columns e
unfolding serialize_event
tokens-serialize_event e v = rw (one_line-same (attrs_onto [] e.attributes) v.attributes_line) (
    rw (one_line-same e.summary v.summary_line) (
      tokens-join_columns (decimal (to_unix_ms e.timestamp)) (columns e)
        (decimal-tab (to_unix_ms e.timestamp))
        (
          category_name-tab e.category,
          (
            type_name-tab e.type,
            (v.source, (v.target, (v.host, (v.platform, (v.attributes, (v.summary, tt)))))),
          ),
        )))

-- An event that a line can hold is read back from its line, without its id and with its time rounded
-- down to milliseconds, whatever the clock reads.
pub parse_event-serialize_event :
    (now : Timestamp) (e : Event)
    → Storable e
    → parse_event now (serialize_event e)
      ≡ record e { id = 0; timestamp = to_unix_ms e.timestamp * 1000000 }
unfolding parse_event event_of
parse_event-serialize_event now e v =
    ap (event_of now) (tokens-serialize_event e v)
    ∙ ap
        (λ ms.
          read ms (category_from_name (category_name e.category))
            (type_from_name (type_name e.type))
            (attributes_from false [] [] (attrs_onto [] e.attributes) []))
        (read_ms-decimal (to_unix_ms e.timestamp) v.in_time)
    ∙ ap
        (λ c.
          read (some (to_unix_ms e.timestamp)) c (type_from_name (type_name e.type))
            (attributes_from false [] [] (attrs_onto [] e.attributes) []))
        (names-round_trip e.category e.type).0
    ∙ ap
        (λ t.
          read (some (to_unix_ms e.timestamp)) e.category t
            (attributes_from false [] [] (attrs_onto [] e.attributes) []))
        (names-round_trip e.category e.type).1
    ∙ ap (λ a. read (some (to_unix_ms e.timestamp)) e.category e.type a)
        (attributes_read_back e.attributes [] v.plain ∙ v.ordered)
  where
    read : Option ℕ → EventCategory → EventType → Dict Text Text → Event
    read ms c t a = record e {
      id = 0;
      timestamp = ms_time now ms;
      category = c;
      type = t;
      attributes = a;
    }
