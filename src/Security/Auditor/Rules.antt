-- ===== src/Security/Auditor/Rules.antt =====
-- The rules of the security auditor: their management, thresholds and cooldowns.
use mathlib.Core.Option
use change_of_system.Base.{
  ◌≡◌, refl, Bool, ◌&&◌, select, Option, none, some, List, [], ◌∷◌, ◌++◌, Text, text_beq,
  text_beq_iff, text_key, arith, find_named, find-remove, find-change, remove_named, lookup,
  value_or, count_if, Distinct, Distinct-remove, Distinct-change, Fresh, if◌then◌else◌,
}
use change_of_system.Base.Int.{pos, leb_ℤ, ltb_ℤ, ◌<ℤ◌}
use change_of_system.Event.{Timestamp}
use change_of_system.Alert.Manager.{elapsed_ms}
use change_of_system.Security.Types.{
  SecurityEvent, SecurityRule, SecurityAuditor, Readings, security_key,
}
use change_of_system.Security.Auditor.{
  rule_name, set_enabled, add_rule, remove_rule, enable_rule, clear_rules, is_in_cooldown,
  window_of, is_checked, check_rule,
}

pub data Call : Type 0 where
  adds : SecurityRule → Call
  removes : Text → Call
  enables : Text → Bool → Call
  clears : Call

unfoldable pub manage : SecurityAuditor → Call → SecurityAuditor
unfolding add_rule remove_rule enable_rule clear_rules
manage a (adds rule) = add_rule rule a
manage a (removes name) = remove_rule name a
manage a (enables name enabled) = enable_rule name enabled a
manage a clears = clear_rules a

abbrev pub rule_named : Text → SecurityAuditor → Option SecurityRule
rule_named n a = find_named rule_name n a.rules

-- The rule of a name after a call, from the one before it.
abbrev pub expected : Call → Text → Option SecurityRule → Option SecurityRule
expected (adds rule) n r = if text_beq rule.name n then some rule else r
expected (removes name) n r = if text_beq name n then none else r
expected (enables name enabled) n r =
    if text_beq name n then Option.map (set_enabled enabled) r else r
expected clears n r = none

find-append :
    (n : Text) (r : SecurityRule) (rs : List SecurityRule)
    → find_named rule_name n (remove_named rule_name r.name rs ++ r ∷ [])
      ≡ (if text_beq r.name n then some r else find_named rule_name n rs)
find-append n r [] = refl
find-append n r (x ∷ rs) = ground (
  arith,
  find-append n r rs,
  text_beq_iff x.name r.name,
  text_beq_iff x.name n,
  text_beq_iff r.name n,
)

Fresh-append :
    (n : Text) (r : SecurityRule) (rs : List SecurityRule)
    → ¬ (r.name ≡ n)
    → Fresh rule_name n rs
    → Fresh rule_name n (rs ++ r ∷ [])
Fresh-append n r [] h f = (h, tt)
Fresh-append n r (x ∷ rs) h f = (f.0, Fresh-append n r rs h f.1)

Fresh-remove :
    (n m : Text) (rs : List SecurityRule)
    → Fresh rule_name n rs
    → Fresh rule_name n (remove_named rule_name m rs)
Fresh-remove n m [] f = tt
Fresh-remove n m (x ∷ rs) f = ground (arith, Fresh-remove n m rs f.1)

Distinct-append :
    (r : SecurityRule) (rs : List SecurityRule)
    → Distinct rule_name rs
    → Distinct rule_name (remove_named rule_name r.name rs ++ r ∷ [])
Distinct-append r [] d = (tt, tt)
Distinct-append r (x ∷ rs) d = ground (
  arith,
  Distinct-append r rs d.1,
  text_beq_iff x.name r.name,
  Fresh-append x.name r (remove_named rule_name r.name rs),
  Fresh-remove x.name r.name rs d.0,
)

-- Every management call of the auditor changes the rule of its own name as the call says and no
-- other rule, and keeps the names of the rules distinct where they were.
pub rule_named-manage :
    (a : SecurityAuditor) (c : Call) (n : Text)
    → Distinct rule_name a.rules
    → (rule_named n (manage a c) ≡ expected c n (rule_named n a))
      × Distinct rule_name (manage a c).rules
unfolding manage
rule_named-manage a (adds rule) n d = (find-append n rule a.rules, Distinct-append rule a.rules d)
rule_named-manage a (removes name) n d =
    (find-remove rule_name n name a.rules, Distinct-remove rule_name name a.rules d)
rule_named-manage a (enables name enabled) n d = (
  find-change rule_name name (set_enabled enabled) (λ r. refl) n a.rules,
  Distinct-change rule_name name (set_enabled enabled) (λ r. refl) a.rules d,
)
rule_named-manage a clears n d = (refl, tt)

-- The times of a rule once one more is recorded: those at most the rule's window ago, in their order,
-- and the new one.
abbrev pub times_now : SecurityRule → Readings → SecurityAuditor → List Timestamp
times_now rule now a =
    select (λ t. leb_ℤ (elapsed_ms (now.at_record rule.name) t) (window_of rule.name a.rules))
      (value_or [] (lookup rule.name a.rule_events) ++ now.at_record rule.name ∷ [])

-- The times less than the window of the rule ago reach its threshold.
abbrev pub reached : SecurityRule → Readings → SecurityAuditor → Bool
reached rule now a = leb_ℤ rule.threshold_count (
    pos (
      count_if (λ t. ltb_ℤ (elapsed_ms now.at_check t) rule.threshold_window_ms)
        (times_now rule now a)))

-- What the check of a rule leaves for every name.
pub record Checked (rule : SecurityRule) (e : SecurityEvent) (now : Readings)
    (a b : SecurityAuditor) : Type 0 where
  pub times :
      (n : Text)
      → lookup n b.rule_events ≡ (
          if is_checked rule e now a && text_beq rule.name n
          then some (times_now rule now a)
          else lookup n a.rule_events)
  pub last :
      (n : Text)
      → lookup n b.last_triggered ≡ (
          if is_checked rule e now a && reached rule now a && text_beq rule.name n
          then some now.at_check
          else lookup n a.last_triggered)

-- A rule that is in the auditor and was triggered less than its cooldown ago is passed over: the
-- check leaves the auditor as it was.
pub check_rule-cooldown :
    (rule : SecurityRule) (e : SecurityEvent) (now : Readings) (a : SecurityAuditor)
    (last : Timestamp)
    → rule_named rule.name a ≡ some rule
    → lookup rule.name a.last_triggered ≡ some last
    → elapsed_ms (now.at_cooldown rule.name) last <ℤ rule.cooldown_ms
    → check_rule rule e now a ≡ a
unfolding check_rule is_checked is_in_cooldown
check_rule-cooldown rule e now a last found triggered soon = ground (arith, found, triggered, soon)
