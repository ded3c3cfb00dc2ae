-- ===== src/Stats/Counts.antt =====
-- What the statistics hold after a sequence of events.
use change_of_system.Base.{
  ℕ, ◌+◌, ◌%◌, ◌^◌, ◌<◌, ◌≡◌, refl, ap, ◌∙◌, inl, inr, Bool-cases, false, some, List, [], ◌∷◌, Text,
  text_key, nat_key, Key, Dict, lookup, update_at, lookup-update_at, value_or, length, count_if,
  arith,
}
use change_of_system.Event.{
  Event, EventCategory, EventType, Timestamp, category_key, type_key, filesystem, process, network,
  system_config, EventCategory-discrete,
}
use change_of_system.Stats.{
  StatisticsCollector, next64, new_collector, prune_time_buckets, record_event, count_by_category,
  count_by_type, get_stats, blocks, top_sources,
}

-- The events with the clock readings that `record` takes for each.
abbrev pub Feed : Type 0
Feed = List ((Timestamp × Timestamp) × Event)

unfoldable pub record_all : Feed → StatisticsCollector → StatisticsCollector
unfolding record_event
record_all [] s = s
record_all (((now, at_prune), e) ∷ rest) s = record_all rest (record_event now at_prune e s)

module _ {K : Type 0} ⦃o : Key K⦄ (f : Event → K) where
  -- The counts by `f` of a sequence of events.
  abbrev pub tally : Feed → Dict K ℕ → Dict K ℕ
  tally [] m = m
  tally (e ∷ es) m = tally es (update_at (f e.1) 0 next64 m)

  abbrev pub occurrences : K → Feed → ℕ
  occurrences k es = count_if (λ e. o.equals (f e.1) k) es

  tally-occurrences :
      (es : Feed) (k : K) (m : Dict K ℕ)
      → value_or 0 (lookup k m) < 2 ^ 64
      → value_or 0 (lookup k (tally es m)) ≡ (value_or 0 (lookup k m) + occurrences k es) % 2 ^ 64
  tally-occurrences [] k m small = omega arith
  tally-occurrences (e ∷ es) k m small =
      let step = lookup-update_at k (f e.1) 0 next64 m in
      elim (Bool-cases (o.equals (f e.1) k)) [
        | inl hit ↦
            let counted : lookup k (update_at (f e.1) 0 next64 m)
                ≡ some (next64 (value_or 0 (lookup k m))) =
              ground (arith, step, hit) in
            let later =
              tally-occurrences es k (update_at (f e.1) 0 next64 m) (rw counted (omega arith)) in
            rw hit (later ∙ rw counted (omega arith))
        | inr miss ↦
            let same : lookup k (update_at (f e.1) 0 next64 m) ≡ lookup k m =
              ground (arith, step, miss) in
            rw miss
              (tally-occurrences es k (update_at (f e.1) 0 next64 m) (rw same small) ∙ rw same refl)
      ]

  tally-fresh :
      (es : Feed) (k : K) (m : Dict K ℕ)
      → value_or 0 (lookup k m) ≡ 0
      → value_or 0 (lookup k (tally es m)) ≡ occurrences k es % 2 ^ 64
  tally-fresh es k m none_yet =
      tally-occurrences es k m (rw none_yet (omega arith)) ∙ rw none_yet (omega arith)

  -- A key that is there stays there.
  tally-present :
      (es : Feed) (k : K) (m : Dict K ℕ) (n : ℕ)
      → lookup k m ≡ some n
      → (n' : ℕ) × (lookup k (tally es m) ≡ some n')
  tally-present [] k m n h = (n, h)
  tally-present (e ∷ es) k m n h =
      let step = lookup-update_at k (f e.1) 0 next64 m in
      elim (Bool-cases (o.equals (f e.1) k)) [
        | inl hit ↦
            tally-present es k (update_at (f e.1) 0 next64 m) (next64 (value_or 0 (lookup k m)))
              (ground (arith, step, hit))
        | inr miss ↦
            tally-present es k (update_at (f e.1) 0 next64 m) n (ground (arith, step, miss, h))
      ]

-- The counters after one event, whether or not `record` prunes the buckets.
record Step (now : Timestamp) (e : Event) (s b : StatisticsCollector) : Type 0 where
  total : b.total_events ≡ next64 s.total_events
  categories : b.category_counts ≡ update_at e.category 0 next64 s.category_counts
  types : b.type_counts ≡ update_at e.type 0 next64 s.type_counts
  sources : b.source_counts ≡ update_at e.source 0 next64 s.source_counts
  targets : b.target_counts ≡ update_at e.target 0 next64 s.target_counts
  lock : b.locked ≡ s.locked

record_event-Step :
    (now at_prune : Timestamp) (e : Event) (s : StatisticsCollector)
    → Step now e s (record_event now at_prune e s)
unfolding record_event prune_time_buckets
record_event-Step now at_prune e s = ground arith

-- The counters after a sequence of events.
record Tallied (es : Feed) (s b : StatisticsCollector) : Type 0 where
  total : s.total_events < 2 ^ 64 → b.total_events ≡ (s.total_events + length es) % 2 ^ 64
  categories : b.category_counts ≡ tally (λ e. e.category) es s.category_counts
  types : b.type_counts ≡ tally (λ e. e.type) es s.type_counts
  sources : b.source_counts ≡ tally (λ e. e.source) es s.source_counts
  targets : b.target_counts ≡ tally (λ e. e.target) es s.target_counts
  lock : b.locked ≡ s.locked

record_all-Tallied : (es : Feed) (s : StatisticsCollector) → Tallied es s (record_all es s)
unfolding record_all
record_all-Tallied [] s = record {
  total = λ small. omega arith;
  categories = refl;
  types = refl;
  sources = refl;
  targets = refl;
  lock = refl;
}
record_all-Tallied (((now, at_prune), e) ∷ es) s =
    let step = record_event-Step now at_prune e s in
    let later = record_all-Tallied es (record_event now at_prune e s) in
    record {
      total = λ small. later.total (rw step.total (omega arith)) ∙ rw step.total (omega arith);
      categories = later.categories ∙ ap (tally (λ e. e.category) es) step.categories;
      types = later.types ∙ ap (tally (λ e. e.type) es) step.types;
      sources = later.sources ∙ ap (tally (λ e. e.source) es) step.sources;
      targets = later.targets ∙ ap (tally (λ e. e.target) es) step.targets;
      lock = later.lock ∙ step.lock;
    }

-- The counts of a collector that has recorded a sequence of events since its construction.
pub record Counted (es : Feed) (s : StatisticsCollector) : Type 0 where
  pub total : s.total_events ≡ length es % 2 ^ 64
  pub categories :
      (c : EventCategory)
      → value_or 0 (count_by_category c s) ≡ occurrences (λ e. e.category) c es % 2 ^ 64
  pub types : (t : EventType) → count_by_type t s ≡ occurrences (λ e. e.type) t es % 2 ^ 64
  pub sources :
      (x : Text) → value_or 0 (lookup x s.source_counts) ≡ occurrences (λ e. e.source) x es % 2 ^ 64
  pub targets :
      (x : Text) → value_or 0 (lookup x s.target_counts) ≡ occurrences (λ e. e.target) x es % 2 ^ 64

initially_zero :
    (start : Timestamp) (c : EventCategory)
    → value_or 0 (lookup c (new_collector start).category_counts) ≡ 0
unfolding new_collector lookup
initially_zero start c = ground arith

-- After a sequence of events from the construction on, the total and the counts by category, type,
-- source and target are the numbers of those events, as 64-bit numbers.
pub record_all-Counted :
    (start : Timestamp) (es : Feed) → Counted es (record_all es (new_collector start))
unfolding count_by_category count_by_type new_collector lookup
record_all-Counted start es =
    let t = record_all-Tallied es (new_collector start) in
    record {
      total = t.total (omega arith) ∙ omega arith;
      categories = λ c.
          ap (λ m. value_or 0 (lookup c m)) t.categories
          ∙ tally-fresh (λ e. e.category) es c _ (initially_zero start c);
      types =
          λ x. ap (λ m. value_or 0 (lookup x m)) t.types ∙ tally-fresh (λ e. e.type) es x [] refl;
      sources = λ x.
          ap (λ m. value_or 0 (lookup x m)) t.sources ∙ tally-fresh (λ e. e.source) es x [] refl;
      targets = λ x.
          ap (λ m. value_or 0 (lookup x m)) t.targets ∙ tally-fresh (λ e. e.target) es x [] refl;
    }

still_there :
    (start : Timestamp) (es : Feed) (c : EventCategory)
    → lookup c (new_collector start).category_counts ≡ some 0
    → (n : ℕ) × (count_by_category c (record_all es (new_collector start)) ≡ some n)
unfolding count_by_category
still_there start es c h =
    let t = record_all-Tallied es (new_collector start) in
    let (n, e) = tally-present (λ e. e.category) es c _ 0 h in (n, ap (lookup c) t.categories ∙ e)

-- Whatever events a collector has recorded since its construction, `get_stats` waits for the mutex
-- that it holds itself and never returns.
pub get_stats-blocks :
    (start now : Timestamp) (es : Feed)
    → get_stats now (record_all es (new_collector start)) ≡ blocks
unfolding get_stats top_sources new_collector lookup EventCategory-discrete
get_stats-blocks start now es =
    let s = record_all es (new_collector start) in
    let open_mutex : s.locked ≡ false = (record_all-Tallied es (new_collector start)).lock in
    rw (still_there start es filesystem refl).1 (
      rw (still_there start es process refl).1 (
        rw (still_there start es network refl).1 (
          rw (still_there start es system_config refl).1
            (rw (still_there start es EventCategory.unknown refl).1 (rw open_mutex refl)))))
