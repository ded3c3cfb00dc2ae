-- ===== src/Stats.antt =====
-- src/stats/statistics.h and src/stats/statistics.cpp: the statistics of the events. The fields and
-- results that are floating-point numbers (the rates) and the time series are left out.
pub mod Counts
pub mod Buckets
pub mod Top
use change_of_system.Base.{
  ℕ, zero, suc, ◌+◌, ◌-◌, ◌*◌, ◌/◌, ◌%◌, ◌^◌, Bool, true, false, not, Option, none, some, List, [],
  ◌∷◌, ◌++◌, Text, text_key, nat_key, codes, Dict, lookup, update_at, value_or, select, length,
  take, ltb, leb, ◌&&◌, decimal, if◌then◌else◌,
}
use change_of_system.Event.{
  Event, EventCategory, EventType, Timestamp, to_unix_ms, category_key, type_key, filesystem,
  process, network, system_config,
}

-- `mutex_` is a plain `std::mutex`: `locked` says that the caller holds it.
pub record StatisticsCollector : Type 0 where
  pub total_events : ℕ
  pub category_counts : Dict EventCategory ℕ
  pub type_counts : Dict EventType ℕ
  pub source_counts : Dict Text ℕ
  pub target_counts : Dict Text ℕ
  pub minute_buckets : Dict ℕ ℕ
  pub hour_buckets : Dict ℕ ℕ
  pub start_time : Timestamp
  pub last_update : Timestamp
  pub locked : Bool

-- `++` on a `std::uint64_t`.
abbrev pub next64 : ℕ → ℕ
next64 n = (n + 1) % 2 ^ 64

abbrev initial_counts : Dict EventCategory ℕ
initial_counts =
    (filesystem, 0)
    ∷ (process, 0)
    ∷ (network, 0)
    ∷ (system_config, 0)
    ∷ (EventCategory.unknown, 0)
    ∷ []

-- The constructor `StatisticsCollector::StatisticsCollector`.
unfoldable pub new_collector : Timestamp → StatisticsCollector
new_collector now = record {
  total_events = 0;
  category_counts = initial_counts;
  type_counts = [];
  source_counts = [];
  target_counts = [];
  minute_buckets = [];
  hour_buckets = [];
  start_time = now;
  last_update = now;
  locked = false;
}

-- The buckets from `cutoff` on. Times are after the epoch, so a cutoff before it keeps them all, as
-- the cutoff 0 does.
unfoldable pub prune_buckets : ℕ → Dict ℕ ℕ → Dict ℕ ℕ
prune_buckets cutoff buckets = select (λ b. not (ltb b.0 cutoff)) buckets

unfoldable pub prune_time_buckets : Timestamp → StatisticsCollector → StatisticsCollector
unfolding prune_buckets
prune_time_buckets now s = record s {
  minute_buckets = prune_buckets ((to_unix_ms now - 7200000) / 60000) s.minute_buckets;
  hour_buckets = prune_buckets ((to_unix_ms now - 2592000000) / 3600000) s.hour_buckets;
}

-- `now` is read for `last_update_`, `at_prune` in `prune_time_buckets`.
unfoldable pub record_event :
    Timestamp → Timestamp → Event → StatisticsCollector → StatisticsCollector
record_event now at_prune event s =
    let s' = record s {
      total_events = next64 s.total_events;
      category_counts = update_at event.category 0 next64 s.category_counts;
      type_counts = update_at event.type 0 next64 s.type_counts;
      source_counts = update_at event.source 0 next64 s.source_counts;
      target_counts = update_at event.target 0 next64 s.target_counts;
      minute_buckets = update_at (to_unix_ms event.timestamp / 60000) 0 next64 s.minute_buckets;
      hour_buckets = update_at (to_unix_ms event.timestamp / 3600000) 0 next64 s.hour_buckets;
      last_update = now;
    } in
    if ltb 120 (length s'.minute_buckets) then prune_time_buckets at_prune s' else s'

-- Every value of the map set to zero.
unfoldable pub zero_counts : Dict EventCategory ℕ → Dict EventCategory ℕ
zero_counts [] = []
zero_counts ((c, n) ∷ rest) = (c, 0) ∷ zero_counts rest

unfoldable pub reset : Timestamp → Timestamp → StatisticsCollector → StatisticsCollector
reset start now s = record s {
  total_events = 0;
  category_counts = zero_counts s.category_counts;
  type_counts = [];
  source_counts = [];
  target_counts = [];
  minute_buckets = [];
  hour_buckets = [];
  start_time = start;
  last_update = now;
}

-- `category_counts_.at(category)`: `none` is the exception for a missing key.
unfoldable pub count_by_category : EventCategory → StatisticsCollector → Option ℕ
count_by_category category s = lookup category s.category_counts

unfoldable pub count_by_type : EventType → StatisticsCollector → ℕ
count_by_type type s = value_or 0 (lookup type s.type_counts)

unfoldable pub sum_range : ℕ → ℕ → Dict ℕ ℕ → ℕ
sum_range low high [] = 0
sum_range low high ((minute, c) ∷ rest) =
    let sum = sum_range low high rest in
    if leb low minute && leb minute high then (c + sum) % 2 ^ 64 else sum

unfoldable pub count_in_range : Timestamp → Timestamp → StatisticsCollector → ℕ
unfolding sum_range
count_in_range from to s =
    sum_range (to_unix_ms from / 60000) (to_unix_ms to / 60000) s.minute_buckets

-- `std::sort` by falling count, with the order of equal counts, which it leaves open, kept.
unfoldable pub insert_count : Text × ℕ → List (Text × ℕ) → List (Text × ℕ)
insert_count p [] = p ∷ []
insert_count p (q ∷ qs) =
    let rest = insert_count p qs in if ltb p.1 q.1 then q ∷ rest else p ∷ q ∷ qs

unfoldable pub sort_counts : Dict Text ℕ → List (Text × ℕ)
unfolding insert_count
sort_counts [] = []
sort_counts (p ∷ ps) = insert_count p (sort_counts ps)

-- The `n` largest counts.
unfoldable pub top : ℕ → Dict Text ℕ → List (Text × ℕ)
unfolding sort_counts
top n counts = take n (sort_counts counts)

-- What a call comes to: it returns, throws, or waits for a mutex that its own thread holds.
pub data Outcome (A : Type 0) : Type 0 where
  returns : A → Outcome A
  throws : Outcome A
  blocks : Outcome A

unfoldable pub top_sources : ℕ → StatisticsCollector → Outcome (List (Text × ℕ))
top_sources n s = if s.locked then blocks else returns (top n s.source_counts)

unfoldable pub top_targets : ℕ → StatisticsCollector → Outcome (List (Text × ℕ))
top_targets n s = if s.locked then blocks else returns (top n s.target_counts)

pub record EventStats : Type 0 where
  pub total_events : ℕ
  pub events_per_category : List ℕ
  pub events_last_minute : ℕ
  pub events_last_hour : ℕ
  pub events_last_day : ℕ
  pub top_sources : List (Text × ℕ)
  pub top_targets : List (Text × ℕ)
  pub start_time : Timestamp
  pub last_update : Timestamp

-- The sum of the buckets from `low` on, where a cutoff before the epoch is 0 as above.
unfoldable pub sum_from : ℕ → Dict ℕ ℕ → ℕ
sum_from low [] = 0
sum_from low ((bucket, c) ∷ rest) =
    let sum = sum_from low rest in if leb low bucket then (c + sum) % 2 ^ 64 else sum

infixl 10 ◌>>=◌
abbrev ◌>>=◌ : {A B : Type 0} → Outcome A → (A → Outcome B) → Outcome B
returns a >>= f = f a
throws >>= f = throws
blocks >>= f = blocks

abbrev or_throw : Option ℕ → Outcome ℕ
or_throw none = throws
or_throw (some n) = returns n

abbrev lock : StatisticsCollector → Outcome StatisticsCollector
lock s = if s.locked then blocks else returns (record s { locked = true })

unfoldable pub get_stats : Timestamp → StatisticsCollector → Outcome EventStats
unfolding count_by_category sum_from
get_stats now s = do
  filesystem_count ← or_throw (count_by_category filesystem s)
  process_count ← or_throw (count_by_category process s)
  network_count ← or_throw (count_by_category network s)
  config_count ← or_throw (count_by_category system_config s)
  unknown_count ← or_throw (count_by_category EventCategory.unknown s)
  s' ← lock s
  sources ← top_sources 10 s'
  targets ← top_targets 10 s'
  returns (record {
    total_events = s.total_events;
    events_per_category =
        filesystem_count ∷ process_count ∷ network_count ∷ config_count ∷ unknown_count ∷ [];
    events_last_minute = sum_from ((to_unix_ms now - 60000) / 60000) s.minute_buckets;
    events_last_hour = sum_from ((to_unix_ms now - 3600000) / 3600000) s.hour_buckets;
    events_last_day = sum_from ((to_unix_ms now - 86400000) / 3600000) s.hour_buckets;
    top_sources = sources;
    top_targets = targets;
    start_time = s.start_time;
    last_update = s.last_update;
  })

unfoldable pub format_count : ℕ → Text
format_count count =
    if leb 1000000000 count
    then decimal (count / 1000000000) ++ codes "B"
    else if leb 1000000 count
    then decimal (count / 1000000) ++ codes "M"
    else if leb 1000 count
    then decimal (count / 1000) ++ codes "K"
    else decimal count

unfoldable pub format_duration : ℕ → Text
format_duration secs =
    if ltb secs 60
    then decimal secs ++ codes "s"
    else if ltb secs 3600
    then decimal (secs / 60) ++ codes "m " ++ decimal (secs % 60) ++ codes "s"
    else if ltb secs 86400
    then decimal (secs / 3600) ++ codes "h " ++ decimal (secs % 3600 / 60) ++ codes "m"
    else decimal (secs / 86400) ++ codes "d " ++ decimal (secs % 86400 / 3600) ++ codes "h"
