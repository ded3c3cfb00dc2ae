-- ===== src/Filter/Presets.antt =====
-- The predefined filter rules, and the filter that the engine starts with where `filter.enabled` is
-- set (initialize_subsystems_ of src/core/monitor_engine.cpp).
use change_of_system.Base.{
  ◌≡◌, ◌≢◌, refl, sym, ◌∙◌, Bool-cases, inl, inr, true, none, [], ◌∷◌, codes, text_beq, arith, All,
  All-In, contains, put_named,
}
use mathlib.Core.Path.{subst}
use change_of_system.Base.Int.{pos}
use change_of_system.Event.{
  Event, EventCategory, category_key, filesystem, network, file_deleted, file_permission_changed,
  config_value_changed, user_logged_in, user_logged_out,
}
use change_of_system.Regex.{Regex}
use change_of_system.Filter.{
  FilterRule, allow, deny, EventFilter, empty_filter, add_rule, sort_rules, insert_rule,
  matches_rule, process,
}
use change_of_system.Filter.Verdict.{process-DeniedBy}

-- The field initialisers of `struct FilterRule`.
abbrev pub blank_rule : FilterRule
blank_rule = record {
  name = [];
  description = [];
  enabled = true;
  action = allow;
  priority = pos 0;
  categories = [];
  types = [];
  source_pattern = [];
  target_pattern = [];
  summary_pattern = [];
  attribute_patterns = [];
  custom_match = none;
  attribute_modifications = [];
  summary_replacement = [];
}

unfoldable pub ignore_temp_files : FilterRule
ignore_temp_files = record blank_rule {
  name = codes "ignore_temp_files";
  description = codes "Ignore file events in /tmp directory";
  action = deny;
  priority = pos 10;
  categories = filesystem ∷ [];
  target_pattern = codes "^/tmp/.*";
}

unfoldable pub ignore_log_files : FilterRule
ignore_log_files = record blank_rule {
  name = codes "ignore_log_files";
  description = codes "Ignore file events for log files";
  action = deny;
  priority = pos 10;
  categories = filesystem ∷ [];
  target_pattern = codes "\\.(log|log\\.[0-9]+)$";
}

unfoldable pub ignore_system_processes : FilterRule
ignore_system_processes = record blank_rule {
  name = codes "ignore_system_processes";
  description = codes "Ignore events from common system processes";
  action = deny;
  priority = pos 5;
  categories = EventCategory.process ∷ [];
  source_pattern = codes "^(systemd|kworker|ksoftirqd|migration|rcu_|watchdog)";
}

unfoldable pub ignore_localhost_connections : FilterRule
ignore_localhost_connections = record blank_rule {
  name = codes "ignore_localhost_connections";
  description = codes "Ignore localhost network connections";
  action = deny;
  priority = pos 5;
  categories = network ∷ [];
  target_pattern = codes "^(127\\.|::1|localhost)";
}

unfoldable pub only_critical_events : FilterRule
only_critical_events = record blank_rule {
  name = codes "only_critical_events";
  description = codes "Only allow critical event types";
  action = allow;
  priority = pos 100;
  types =
      file_deleted ∷ file_permission_changed ∷ config_value_changed ∷ user_logged_in
      ∷ user_logged_out ∷ [];
}

unfoldable pub ignore_browser_cache : FilterRule
ignore_browser_cache = record blank_rule {
  name = codes "ignore_browser_cache";
  description = codes "Ignore browser cache directory changes";
  action = deny;
  priority = pos 10;
  categories = filesystem ∷ [];
  target_pattern = codes "(Cache|cache|\\.cache|\\.mozilla|\\.chrome|\\.config/google-chrome)";
}

unfoldable pub default_filter : EventFilter
default_filter =
    add_rule ignore_browser_cache
      (add_rule ignore_log_files (add_rule ignore_temp_files empty_filter))

-- A Deny rule for the category filesystem alone, or a rule that denies nothing.
abbrev IsFileRule : FilterRule → Type 0
IsFileRule r = r.categories ≡ filesystem ∷ []

default_rules : All IsFileRule default_filter.rules
unfolding default_filter ignore_browser_cache ignore_log_files ignore_temp_files add_rule text_beq
    sort_rules insert_rule put_named
default_rules = (refl, (refl, (refl, tt)))

one_category : (c : EventCategory) → contains (filesystem ∷ []) c ≡ true → c ≡ filesystem
unfolding contains
one_category c h = ground (arith, category_key.equals_iff filesystem c)

matches-category :
    (re : Regex) (r : FilterRule) (e : Event)
    → IsFileRule r
    → matches_rule re r e ≡ true
    → e.category ≡ filesystem
unfolding matches_rule
matches-category re r e c m =
    one_category e.category (subst (λ cs. contains cs e.category ≡ true) c (category_test c))
  where
    category_test : IsFileRule r → contains r.categories e.category ≡ true
    category_test k = ground arith

-- The filter with the engine's default rules denies no event outside the category filesystem,
-- whatever its counters are.
pub default_filter-process :
    (re : Regex) (e : Event) (f : EventFilter)
    → f.rules ≡ default_filter.rules
    → e.category ≢ filesystem
    → (process re e f).0 ≡ true
default_filter-process re e f same other = elim (Bool-cases (process re e f).0) [
  | inl passed ↦ passed
  | inr denied ↦
      let (denied_by, origin) = process-DeniedBy re e f in
      let by = denied_by denied in
      let file : IsFileRule by.0 = All-In IsFileRule by.0 f.rules (rw same default_rules) by.1 in
      absurd (other (sym origin.category ∙ matches-category re by.0 _ file by.4))
]
