-- ===== src/Query.antt =====
-- src/query/event_query.h and event_query.cpp: `EventQuery`. `format_ts` is a parameter, since local
-- time is the system's; what is printed is a text that is returned.
pub mod Pages
use change_of_system.Base.{
  ℕ, ◌+◌, ◌-◌, Bool, true, false, not, ◌&&◌, ◌||◌, Option, none, some, List, [], ◌∷◌, ◌++◌, Text,
  codes, text_beq, is_empty, length, select, take, drop, ltb, leb, decimal, has_text, to_lower,
  ◌==◌, Dict, if◌then◌else◌,
}
use Prim.Native.Nat.{min}
use change_of_system.Base.Int.{ℤ, pos, pos_part, ltb_ℤ, int_of}
use change_of_system.Event.{
  Event, EventCategory, Timestamp, filesystem, process, network, system_config, hardware, system,
  unknown, to_unix_ms, category_name, type_name, category_key,
}
use change_of_system.Json.{json_escape_str}
use change_of_system.Storage.File.{FileStorage, is_open, iterate}

pub record QueryOptions : Type 0 where
  pub keyword : Text
  pub category : Text
  pub source : Text
  pub from_unix_ms : ℤ
  pub to_unix_ms : ℤ
  pub limit : ℤ
  pub offset : ℤ
  pub json_output : Bool

unfoldable pub contains_ci : Text → Text → Bool
contains_ci haystack needle =
    if is_empty needle then true else has_text (to_lower haystack) (to_lower needle)

unfoldable pub parse_category : Text → EventCategory
parse_category name =
    let n = to_lower name in
    if text_beq n (codes "filesystem")
    then filesystem
    else if text_beq n (codes "process")
    then process
    else if text_beq n (codes "network")
    then network
    else if text_beq n (codes "system_config") || text_beq n (codes "systemconfig")
    then system_config
    else if text_beq n (codes "hardware")
    then hardware
    else if text_beq n (codes "system")
    then system
    else unknown

-- The `return` lines of the function that `run` passes to `iterate`.
unfoldable pub matches : QueryOptions → Event → Bool
unfolding contains_ci parse_category
matches opts e =
    let ms = pos (to_unix_ms e.timestamp) in
    let cat_filter = parse_category opts.category in
    not (ltb_ℤ (pos 0) opts.from_unix_ms && ltb_ℤ ms opts.from_unix_ms)
    && not (ltb_ℤ (pos 0) opts.to_unix_ms && ltb_ℤ opts.to_unix_ms ms)
    && not (not (cat_filter == unknown) && not (e.category == cat_filter))
    && not (not (is_empty opts.source) && not (contains_ci e.source opts.source))
    && not (
        not (is_empty opts.keyword)
        && not (contains_ci e.summary opts.keyword)
        && not (contains_ci e.target opts.keyword)
        && not (contains_ci e.source opts.keyword))

-- `std::sort`, the most recent first.
unfoldable pub insert_recent : Event → List Event → List Event
insert_recent e [] = e ∷ []
insert_recent e (x ∷ xs) =
    let rest = insert_recent e xs in if ltb x.timestamp e.timestamp then e ∷ x ∷ xs else x ∷ rest

unfoldable pub sort_recent : List Event → List Event
unfolding insert_recent
sort_recent [] = []
sort_recent (e ∷ es) = insert_recent e (sort_recent es)

unfoldable pub found : QueryOptions → List Event → List Event
unfolding sort_recent matches
found opts events = sort_recent (select (matches opts) events)

-- The locals `offset`, `limit` and `end` of `run` for so many matches. The source adds offset and
-- limit as `int`. A sum that does not fit is undefined; here it wraps around, and a negative `end`
-- is 0, since the loops print nothing then.
abbrev pub limit_of : QueryOptions → ℕ → ℕ
limit_of opts size = if ltb_ℤ (pos 0) opts.limit then pos_part opts.limit else size

abbrev pub end_of : QueryOptions → ℕ → ℕ
end_of opts size = min (pos_part (int_of (pos_part opts.offset + limit_of opts size))) size

-- The events of the loops over `matches`.
unfoldable pub page : QueryOptions → List Event → List Event
unfolding found
page opts events =
    let all = found opts events in
    take (end_of opts (length all) - pos_part opts.offset) (drop (pos_part opts.offset) all)

abbrev quoted : Text → Text
quoted s = codes "\"" ++ s ++ codes "\""

abbrev attributes_text : Bool → Dict Text Text → Text
attributes_text first [] = []
attributes_text first ((k, v) ∷ rest) =
    (if first then [] else codes ", ")
    ++ quoted (json_escape_str k)
    ++ codes ": "
    ++ quoted (json_escape_str v)
    ++ attributes_text false rest

module _ (format_ts : Timestamp → Text) where
  abbrev json_event : Event → Text
  json_event e =
      codes "  {\n    \"timestamp\": "
      ++ quoted (format_ts e.timestamp)
      ++ codes ",\n    \"timestamp_unix_ms\": "
      ++ decimal (to_unix_ms e.timestamp)
      ++ codes ",\n    \"category\": "
      ++ quoted (category_name e.category)
      ++ codes ",\n    \"type\": "
      ++ quoted (type_name e.type)
      ++ codes ",\n    \"source\": "
      ++ quoted (json_escape_str e.source)
      ++ codes ",\n    \"target\": "
      ++ quoted (json_escape_str e.target)
      ++ codes ",\n    \"host\": "
      ++ quoted (json_escape_str e.host)
      ++ codes ",\n    \"platform\": "
      ++ quoted (json_escape_str e.platform)
      ++ codes ",\n    \"summary\": "
      ++ quoted (json_escape_str e.summary)
      ++ codes ",\n    \"attributes\": {"
      ++ attributes_text true e.attributes
      ++ codes "}\n"

  unfoldable pub json_events : List Event → Text
  json_events [] = []
  json_events (e ∷ es) =
      json_event e
      ++ codes "  }"
      ++ (if is_empty es then [] else codes ",")
      ++ codes "\n"
      ++ json_events es

  unfoldable pub text_events : List Event → Text
  text_events [] = []
  text_events (e ∷ es) =
      codes "["
      ++ format_ts e.timestamp
      ++ codes "] "
      ++ category_name e.category
      ++ codes "/"
      ++ type_name e.type
      ++ codes " src="
      ++ e.source
      ++ codes " target="
      ++ e.target
      ++ codes "\n"
      ++ (if is_empty e.summary then [] else codes "    " ++ e.summary ++ codes "\n")
      ++ text_events es

  -- What is printed and returned where matches are left behind the offset.
  abbrev printed_page : QueryOptions → List Event → ℕ → Text × ℕ
  printed_page opts events size =
      if opts.json_output then (codes "[\n" ++ json_events events ++ codes "]\n", 0) else (
        codes "=== Event query results (showing "
            ++ decimal (end_of opts size - pos_part opts.offset)
            ++ codes " of "
            ++ decimal size
            ++ codes " matches) ===\n"
            ++ text_events events,
        length events,
      )

  abbrev none_left : QueryOptions → ℕ → Text × ℕ
  none_left opts size = (
    if opts.json_output
        then []
        else codes "Query returned 0 events (offset="
          ++ decimal (pos_part opts.offset)
          ++ codes ", total_matches="
          ++ decimal size
          ++ codes ")\n",
    0,
  )

  -- `run` on the events that `iterate` passes on.
  unfoldable pub run_events : QueryOptions → List Event → Text × ℕ
  unfolding page json_events text_events
  run_events opts events =
      let size = length (found opts events) in
      if leb size (pos_part opts.offset)
      then none_left opts size
      else printed_page opts (page opts events) size

  -- `run`; without a storage, or with a closed one, it prints to the error output and returns 0.
  unfoldable pub run : (ℕ → Timestamp) → QueryOptions → Option FileStorage → Text × ℕ
  unfolding run_events
  run clock opts none = ([], 0)
  run clock opts (some s) =
      let result = run_events opts (iterate clock s) in if is_open s then result else ([], 0)
