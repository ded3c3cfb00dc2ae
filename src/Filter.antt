-- ===== src/Filter.antt =====
-- src/filter/event_filter.h and src/filter/event_filter.cpp: the event filter, its rules and its
-- counters. The mutex is not modelled: each operation is one step.
pub mod Rules
pub mod Sorting
pub mod Presets
pub mod Verdict
use change_of_system.Base.{
  ℕ, ◌+◌, ◌%◌, ◌^◌, Bool, true, false, not, ◌&&◌, Option, none, some, List, [], ◌∷◌, Text, text_beq,
  text_key, codes, Dict, lookup, insert, contains, is_empty, put_named, remove_named, change_named,
  if◌then◌else◌,
}
use change_of_system.Base.Int.{ℤ, pos, ltb_ℤ}
use change_of_system.Event.{Event, EventCategory, EventType, category_key, type_key}
use change_of_system.Regex.{Regex}

pub data FilterAction : Type 0 where
  allow deny modify : FilterAction

pub record FilterRule : Type 0 where
  pub name : Text
  pub description : Text
  pub enabled : Bool
  pub action : FilterAction
  pub priority : ℤ
  pub categories : List EventCategory
  pub types : List EventType
  pub source_pattern : Text
  pub target_pattern : Text
  pub summary_pattern : Text
  pub attribute_patterns : Dict Text Text
  pub custom_match : Option (Event → Bool)
  pub attribute_modifications : Dict Text Text
  pub summary_replacement : Text

-- The counters are `std::size_t`.
pub record EventFilter : Type 0 where
  pub rules : List FilterRule
  pub total_processed : ℕ
  pub total_allowed : ℕ
  pub total_denied : ℕ
  pub total_modified : ℕ

abbrev pub empty_filter : EventFilter
empty_filter = record {
  rules = [];
  total_processed = 0;
  total_allowed = 0;
  total_denied = 0;
  total_modified = 0;
}

-- `++` on a 64-bit counter.
abbrev pub next64 : ℕ → ℕ
next64 n = (n + 1) % 2 ^ 64

-- The comparator of the sort: higher priority first.
abbrev pub before : FilterRule → FilterRule → Bool
before a b = ltb_ℤ b.priority a.priority

-- `std::sort`, with the order of equal priorities, which it leaves open, kept.
unfoldable pub insert_rule : FilterRule → List FilterRule → List FilterRule
insert_rule r [] = r ∷ []
insert_rule r (x ∷ xs) = let rest = insert_rule r xs in if before x r then x ∷ rest else r ∷ x ∷ xs

unfoldable pub sort_rules : List FilterRule → List FilterRule
sort_rules [] = []
sort_rules (x ∷ xs) = insert_rule x (sort_rules xs)

abbrev pub rule_name : FilterRule → Text
rule_name r = r.name

unfoldable pub add_rule : FilterRule → EventFilter → EventFilter
add_rule rule f = record f { rules = sort_rules (put_named rule_name rule f.rules) }

unfoldable pub remove_rule : Text → EventFilter → EventFilter
remove_rule name f = record f { rules = remove_named rule_name name f.rules }

abbrev pub set_enabled : Bool → FilterRule → FilterRule
set_enabled enabled r = record r { enabled = enabled }

unfoldable pub enable_rule : Text → Bool → EventFilter → EventFilter
enable_rule name enabled f = record f {
  rules = change_named rule_name name (set_enabled enabled) f.rules;
}

unfoldable pub clear_rules : EventFilter → EventFilter
clear_rules f = record f { rules = [] }

unfoldable pub reset_stats : EventFilter → EventFilter
reset_stats f = record f {
  total_processed = 0;
  total_allowed = 0;
  total_denied = 0;
  total_modified = 0;
}

-- The attributes and the summary that a Modify rule sets.
unfoldable pub set_attributes : Dict Text Text → Dict Text Text → Dict Text Text
set_attributes [] attributes = attributes
set_attributes ((key, value) ∷ rest) attributes = set_attributes rest (insert key value attributes)

unfoldable pub apply_modifications : FilterRule → Event → Event
unfolding set_attributes
apply_modifications rule event = record event {
  attributes = set_attributes rule.attribute_modifications event.attributes;
  summary = if is_empty rule.summary_replacement then event.summary else rule.summary_replacement;
}

abbrev pub custom_accepts : Option (Event → Bool) → Event → Bool
custom_accepts none event = true
custom_accepts (some f) event = f event

module _ (re : Regex) where
  -- An empty pattern and an invalid one are skipped.
  abbrev pub pattern_accepts : Text → Text → Bool
  pattern_accepts pattern text =
      if is_empty pattern
      then true
      else elim (re.compile pattern) [ none ↦ true | some p ↦ re.search text p ]

  unfoldable pub attribute_accepts : Text → Option Text → Bool
  attribute_accepts pattern none = false
  attribute_accepts pattern (some value) = elim (re.compile pattern) [
    | none ↦ true
    | some p ↦ re.search value p
  ]

  unfoldable pub attributes_accept : Dict Text Text → Event → Bool
  unfolding attribute_accepts
  attributes_accept [] event = true
  attributes_accept ((key, pattern) ∷ rest) event =
      attribute_accepts pattern (lookup key event.attributes) && attributes_accept rest event

  unfoldable pub matches_rule : FilterRule → Event → Bool
  unfolding attributes_accept
  matches_rule rule event =
      (if is_empty rule.categories then true else contains rule.categories event.category)
      && (if is_empty rule.types then true else contains rule.types event.type)
      && pattern_accepts rule.source_pattern event.source
      && pattern_accepts rule.target_pattern event.target
      && pattern_accepts rule.summary_pattern event.summary
      && attributes_accept rule.attribute_patterns event
      && custom_accepts rule.custom_match event

  -- The loop of `process` over the copied rules: the verdict, the event as the Modify rules left
  -- it, and the counters.
  unfoldable pub process_rules : List FilterRule → Event → EventFilter → Bool × Event × EventFilter
  process_rules [] event f = (true, event, record f { total_allowed = next64 f.total_allowed })
  process_rules (rule ∷ rest) event f = elim (rule.enabled && matches_rule rule event) [
    | false ↦ process_rules rest event f
    | true ↦ elim rule.action [
      | allow ↦ (true, event, record f { total_allowed = next64 f.total_allowed })
      | deny ↦ (false, event, record f { total_denied = next64 f.total_denied })
      | modify ↦
          process_rules rest (apply_modifications rule event)
            (record f { total_modified = next64 f.total_modified })
    ]
  ]

  unfoldable pub process : Event → EventFilter → Bool × Event × EventFilter
  unfolding process_rules
  process event f =
      process_rules f.rules event (record f { total_processed = next64 f.total_processed })

  abbrev is_deny : FilterAction → Bool
  is_deny deny = true
  is_deny _ = false

  unfoldable pub rules_allow : List FilterRule → Event → Bool
  rules_allow [] event = true
  rules_allow (rule ∷ rest) event =
      let later = rules_allow rest event in
      if rule.enabled && matches_rule rule event then not (is_deny rule.action) else later

  unfoldable pub would_allow : EventFilter → Event → Bool
  unfolding rules_allow
  would_allow f event = rules_allow f.rules event
