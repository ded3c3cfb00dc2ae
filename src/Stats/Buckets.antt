-- ===== src/Stats/Buckets.antt =====
-- The buckets of the minutes.
use change_of_system.Base.{
  ℕ, ◌-◌, ◌/◌, ◌≡◌, none, some, [], ◌∷◌, nat_key, ◌&&◌, Dict, lookup, update_at, lookup-update_at,
  value_or, length, ltb, nat_beq, nat_beq_iff, arith, if◌then◌else◌,
}
use change_of_system.Event.{Event, Timestamp, to_unix_ms}
use change_of_system.Stats.{
  StatisticsCollector, next64, prune_buckets, prune_time_buckets, record_event,
}

lookup-prune_buckets :
    (k cutoff : ℕ) (m : Dict ℕ ℕ)
    → lookup k (prune_buckets cutoff m) ≡ (if ltb k cutoff then none else lookup k m)
unfolding lookup prune_buckets
lookup-prune_buckets k cutoff [] = ground arith
lookup-prune_buckets k cutoff ((j, n) ∷ m) =
    ground (arith, lookup-prune_buckets k cutoff m, nat_beq_iff j k)

-- An event counts in the bucket of its minute; once there are more than 120 buckets, those older
-- than two hours before the clock reading are gone, and all others are as they were.
pub lookup-record_event :
    (now at_prune : Timestamp) (e : Event) (s : StatisticsCollector) (k : ℕ)
    → let counted = update_at (to_unix_ms e.timestamp / 60000) 0 next64 s.minute_buckets in
      lookup k (record_event now at_prune e s).minute_buckets ≡ (
        if ltb 120 (length counted) && ltb k ((to_unix_ms at_prune - 7200000) / 60000)
        then none
        else if nat_beq (to_unix_ms e.timestamp / 60000) k
        then some (next64 (value_or 0 (lookup k s.minute_buckets)))
        else lookup k s.minute_buckets)
unfolding record_event prune_time_buckets
lookup-record_event now at_prune e s k =
    let counted = update_at (to_unix_ms e.timestamp / 60000) 0 next64 s.minute_buckets in
    ground (
      arith,
      lookup-prune_buckets k ((to_unix_ms at_prune - 7200000) / 60000) counted,
      lookup-update_at k (to_unix_ms e.timestamp / 60000) 0 next64 s.minute_buckets,
    )
