-- ===== src/Tests/FilterTests.antt =====
-- The event filter at concrete rules and events.
use change_of_system.Base.{
  ◌≡◌, refl, inl, true, false, [], ◌∷◌, codes, text_beq, arith, has_text, contains, lookup, insert,
  text_less,
}
use change_of_system.Base.Int.{pos}
use change_of_system.Event.{
  Event, filesystem, EventCategory, EventCategory-discrete, EventType-discrete,
}
use change_of_system.Filter
use change_of_system.Filter.{
  FilterRule, allow, deny, modify, EventFilter, empty_filter, add_rule, sort_rules, insert_rule,
  matches_rule, attributes_accept, attribute_accepts, apply_modifications, set_attributes,
  would_allow,
}
use change_of_system.Filter.Rules.{IsValid}
use change_of_system.Filter.Verdict.{
  process-deny_wins, process-DeniedBy, process-would_allow, would_allow-modify_deny, DeniedBy,
  SameOrigin,
}
use change_of_system.Filter.Presets.{blank_rule}
use change_of_system.Tests.Data.{literal, shadow_event}

abbrev deny_etc : FilterRule
deny_etc = record blank_rule {
  name = codes "deny_etc";
  action = deny;
  priority = pos 7;
  target_pattern = codes "/etc";
}

abbrev allow_files : FilterRule
allow_files = record blank_rule { name = codes "allow_files"; categories = filesystem ∷ [] }

abbrev tag : FilterRule
tag = record blank_rule {
  name = codes "tag";
  action = modify;
  priority = pos 9;
  attribute_modifications = (codes "seen", codes "1") ∷ [];
}

abbrev deny_seen : FilterRule
deny_seen = record blank_rule {
  name = codes "deny_seen";
  action = deny;
  attribute_patterns = (codes "seen", codes "1") ∷ [];
}

abbrev etc_filter : EventFilter
etc_filter = record empty_filter { rules = deny_etc ∷ allow_files ∷ [] }

abbrev tag_filter : EventFilter
tag_filter = record empty_filter { rules = tag ∷ deny_seen ∷ [] }

etc_filter-IsValid : IsValid etc_filter
etc_filter-IsValid = record {
  distinct = ((λ e. cc e, tt), (tt, tt));
  sorted = omega arith;
  counted = refl;
}

process-deny_wins_example : (Filter.process literal shadow_event etc_filter).0 ≡ false
unfolding matches_rule has_text contains EventCategory-discrete EventType-discrete
process-deny_wins_example =
    process-deny_wins literal deny_etc shadow_event etc_filter etc_filter-IsValid (inl refl) refl
      refl ((λ h a. absurd (a refl)), ((λ h a. omega arith), tt))

process-DeniedBy_example :
    ((Filter.process literal shadow_event etc_filter).0 ≡ false
      → DeniedBy literal etc_filter.rules (Filter.process literal shadow_event etc_filter).1)
    × SameOrigin (Filter.process literal shadow_event etc_filter).1 shadow_event
process-DeniedBy_example = process-DeniedBy literal shadow_event etc_filter

process-would_allow_example :
    ((Filter.process literal shadow_event etc_filter).0
      ≡ would_allow literal etc_filter shadow_event)
    × ((Filter.process literal shadow_event etc_filter).1 ≡ shadow_event)
process-would_allow_example =
    process-would_allow literal shadow_event etc_filter ((λ h e. cc e), ((λ h e. cc e), tt))

would_allow-modify_deny_example :
    (would_allow literal tag_filter shadow_event ≡ true)
    × ((Filter.process literal shadow_event tag_filter).0 ≡ false)
unfolding matches_rule apply_modifications has_text lookup insert text_beq text_less
would_allow-modify_deny_example =
    would_allow-modify_deny literal tag deny_seen [] shadow_event tag_filter refl refl refl refl
      refl

abbrev process_event : Event
process_event = record shadow_event { category = EventCategory.process }
