-- ===== src/Storage/Codec.antt =====
-- `serialize_event` and `parse_event`: an event as a line of nine columns.
pub mod Attributes
pub mod Lines
pub mod RoundTrip
use change_of_system.Base.{
  ℕ, ◌*◌, ◌+◌, ◌-◌, ◌^◌, Bool, true, false, not, ◌&&◌, Option, none, some, List, [], ◌∷◌, ◌++◌, map,
  Text, text_key, codes, Dict, insert, is_empty, length, get_or, nat_beq, ltb, leb, starts_with,
  decimal, if◌then◌else◌,
}
use change_of_system.Event.{
  Event, EventCategory, EventType, Timestamp, to_unix_ms, category_name, type_name,
  category_from_name, type_from_name,
}
use change_of_system.Config.Codec.{trim_start}
use change_of_system.Config.Store.{digits_from}

-- An end of line becomes a space.
abbrev pub one_line : Text → Text
one_line s = map (λ c. if nat_beq c b'\n' then b' ' else c) s

-- The attributes behind those in `line`.
unfoldable pub attrs_onto : Text → Dict Text Text → Text
attrs_onto line [] = line
attrs_onto line ((key, value) ∷ rest) =
    attrs_onto ((if is_empty line then line else line ++ codes "||") ++ key ++ codes "=" ++ value)
      rest

unfoldable pub serialize_event : Event → Text
unfolding attrs_onto
serialize_event event =
    decimal (to_unix_ms event.timestamp)
    ++ b'\t'
      ∷ (category_name event.category
          ++ b'\t'
            ∷ (type_name event.type
                ++ b'\t'
                  ∷ (event.source
                      ++ b'\t'
                        ∷ (event.target
                            ++ b'\t'
                              ∷ (event.host
                                  ++ b'\t'
                                    ∷ (event.platform
                                        ++ b'\t'
                                          ∷ (one_line (attrs_onto [] event.attributes)
                                              ++ b'\t' ∷ one_line event.summary)))))))

abbrev put_first : ℕ → List Text → List Text
put_first c [] = (c ∷ []) ∷ []
put_first c (token ∷ rest) = (c ∷ token) ∷ rest

-- The tokens between the tabs.
unfoldable pub tokens : Text → List Text
tokens [] = [] ∷ []
tokens (c ∷ s) = let rest = tokens s in if nat_beq c b'\t' then [] ∷ rest else put_first c rest

-- The rest of the loop over the attributes. `skip` is the `++i` that passes over the second bar.
unfoldable pub attributes_from : Bool → Text → Text → Text → Dict Text Text → Dict Text Text
attributes_from skip key cur [] m = if is_empty key then m else insert key cur m
attributes_from true key cur (c ∷ s) m = attributes_from false key cur s m
attributes_from false key cur (c ∷ s) m =
    let bars = nat_beq c b'|' && starts_with s (codes "|") in
    let keyed = not (is_empty key) in
    let names = not keyed && nat_beq c b'=' in
    attributes_from bars (if bars then [] else if names then cur else key)
      (if bars then (if keyed then [] else cur) else if names then [] else cur ++ c ∷ []) s
      (if bars && keyed then insert key cur m else m)

abbrev in_ms_range : Option ℕ → Option ℕ
in_ms_range none = none
in_ms_range (some n) = if ltb n (2 ^ 63) then some n else none

-- A number below 0 stands for a time before the epoch, which is read as the epoch.
abbrev negative_ms : Option ℕ → Option ℕ
negative_ms none = none
negative_ms (some n) = if leb n (2 ^ 63) then some 0 else none

abbrev signed_ms : Text → Option ℕ
signed_ms [] = none
signed_ms (c ∷ s) =
    if nat_beq c b'-'
    then negative_ms (digits_from none s)
    else if nat_beq c b'+'
    then in_ms_range (digits_from none s)
    else in_ms_range (digits_from none (c ∷ s))

-- `std::stoll`, with `none` for an exception.
unfoldable pub read_ms : Text → Option ℕ
read_ms s = signed_ms (trim_start s)

abbrev ms_time : Timestamp → Option ℕ → Timestamp
ms_time now none = now
ms_time now (some ms) = ms * 1000000

-- The field initialisers of `struct Event`, with the reading of the clock.
abbrev pub blank_event : Timestamp → Event
blank_event now = record {
  id = 0;
  timestamp = now;
  category = EventCategory.unknown;
  type = EventType.unknown;
  source = [];
  target = [];
  attributes = [];
  summary = [];
  host = [];
  platform = [];
}

-- The event of the tokens of a line.
unfoldable pub event_of : Timestamp → List Text → Event
unfolding attributes_from read_ms
event_of now ts = if ltb (length ts) 9 then blank_event now else record {
  id = 0;
  timestamp = ms_time now (read_ms (get_or ts 0 []));
  category = category_from_name (get_or ts 1 []);
  type = type_from_name (get_or ts 2 []);
  source = get_or ts 3 [];
  target = get_or ts 4 [];
  attributes = attributes_from false [] [] (get_or ts 7 []) [];
  summary = get_or ts 8 [];
  host = get_or ts 5 [];
  platform = get_or ts 6 [];
}

unfoldable pub parse_event : Timestamp → Text → Event
unfolding tokens event_of
parse_event now line = event_of now (tokens line)
