-- ===== src/Tests/StatsTests.antt =====
-- The statistics of concrete events.
use change_of_system.Base.{◌≡◌, refl, [], ◌∷◌, List, Text, codes, nat_key, decimal, digits_onto}
use Prim.Native.Nat.{ℕ}
use change_of_system.Stats.{
  new_collector, get_stats, blocks, sort_counts, insert_count, top, format_count, format_duration,
}
use change_of_system.Stats.Counts.{Counted, record_all, record_all-Counted, get_stats-blocks}
use change_of_system.Tests.Data.{shadow_event}

abbrev start : ℕ
start = 1700000000000000000

formatted_count : format_count 1234567 ≡ codes "1M"
unfolding format_count decimal digits_onto
formatted_count = refl

formatted_duration : format_duration 90061 ≡ codes "1d 1h"
unfolding format_duration decimal digits_onto
formatted_duration = refl

record_all-Counted_example :
    Counted
      (((start, start), shadow_event) ∷ [])
      (record_all (((start, start), shadow_event) ∷ []) (new_collector start))
record_all-Counted_example = record_all-Counted start (((start, start), shadow_event) ∷ [])

get_stats-blocks_example :
    get_stats start (record_all (((start, start), shadow_event) ∷ []) (new_collector start))
    ≡ blocks
get_stats-blocks_example = get_stats-blocks start start (((start, start), shadow_event) ∷ [])

abbrev sources : List (Text × ℕ)
sources = (codes "cron", 2) ∷ (codes "vim", 5) ∷ []

busiest : top 1 sources ≡ (codes "vim", 5) ∷ []
unfolding top sort_counts insert_count
busiest = refl
