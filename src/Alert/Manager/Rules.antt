-- ===== src/Alert/Manager/Rules.antt =====
-- Management of the alert rules.
use mathlib.Core.Option
use change_of_system.Base.{
  ◌≡◌, refl, Bool, Option, none, some, List, Text, text_beq, text_key, arith, find_named, find-put,
  find-remove, find-change, lookup, lookup-erase, Distinct, Distinct-put, Distinct-remove,
  Distinct-change, if◌then◌else◌,
}
use change_of_system.Event.{Timestamp}
use change_of_system.Regex.{Regex}
use change_of_system.Alert.Types.{AlertRule, AlertManager}
use change_of_system.Alert.Manager.{
  rule_name, set_enabled, compile_rule, add_rule, remove_rule, enable_rule, clear_rules,
}

-- What the manager holds under a name: the rule, the times of its events and its last alert.
abbrev pub rule_of : {P : Type 0} → Text → AlertManager P → Option (AlertRule P)
rule_of n m = find_named rule_name n m.rules

abbrev pub times_of : {P : Type 0} → Text → AlertManager P → Option (List Timestamp)
times_of n m = lookup n m.rule_events

abbrev pub last_of : {P : Type 0} → Text → AlertManager P → Option Timestamp
last_of n m = lookup n m.last_triggered

module _ (re : Regex) where
  open re use {Pattern}

  pub data Call : Type 0 where
    adds : AlertRule Pattern → Call
    removes : Text → Call
    enables : Text → Bool → Call
    clears : Call

  unfoldable pub manage : AlertManager Pattern → Call → AlertManager Pattern
  unfolding add_rule remove_rule enable_rule clear_rules
  manage m (adds rule) = add_rule re rule m
  manage m (removes name) = remove_rule name m
  manage m (enables name enabled) = enable_rule name enabled m
  manage m clears = clear_rules m

  -- What is held under a name after a call, from what was held before.
  abbrev pub Holding : Type 0
  Holding = Option (AlertRule Pattern) × Option (List Timestamp) × Option Timestamp

  abbrev pub holding : Text → AlertManager Pattern → Holding
  holding n m = (rule_of n m, times_of n m, last_of n m)

  abbrev pub expected : Call → Text → Holding → Holding
  expected (adds rule) n (r, t, l) =
      ((if text_beq rule.name n then some (compile_rule re rule) else r), t, l)
  expected (removes name) n h = if text_beq name n then (none, none, none) else h
  expected (enables name enabled) n (r, t, l) =
      ((if text_beq name n then Option.map (set_enabled enabled) r else r), t, l)
  expected clears n h = (none, none, none)

  -- Every management call changes the rule, the event times and the last alert that are held under
  -- its own name as the call says, and nothing that is held under another name.
  pub holding-manage :
      (m : AlertManager Pattern) (c : Call) (n : Text)
      → holding n (manage m c) ≡ expected c n (holding n m)
  unfolding manage compile_rule lookup
  holding-manage m (adds rule) n =
      ground (arith, find-put rule_name n (compile_rule re rule) m.rules)
  holding-manage m (removes name) n = ground (
    arith,
    find-remove rule_name n name m.rules,
    lookup-erase n name m.rule_events,
    lookup-erase n name m.last_triggered,
  )
  holding-manage m (enables name enabled) n =
      ground (arith, find-change rule_name name (set_enabled enabled) (λ r. refl) n m.rules)
  holding-manage m clears n = refl

  -- Every management call keeps the names of the rules distinct.
  pub manage-Distinct :
      (m : AlertManager Pattern) (c : Call)
      → Distinct rule_name m.rules
      → Distinct rule_name (manage m c).rules
  unfolding manage
  manage-Distinct m (adds rule) d = Distinct-put rule_name (compile_rule re rule) m.rules d
  manage-Distinct m (removes name) d = Distinct-remove rule_name name m.rules d
  manage-Distinct m (enables name enabled) d =
      Distinct-change rule_name name (set_enabled enabled) (λ r. refl) m.rules d
  manage-Distinct m clears d = tt
