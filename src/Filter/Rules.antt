-- ===== src/Filter/Rules.antt =====
-- Management of the filter's rules: add, remove, enable and clear.
use mathlib.Core.Option
use change_of_system.Base.{
  ◌+◌, ◌%◌, ◌^◌, ◌≡◌, refl, ◌∙◌, Bool, Option, none, some, List, Text, text_beq, arith, find_named,
  find-put, find-remove, find-change, Distinct, Distinct-put, Distinct-remove, Distinct-change, All,
  All-select, select, update_first, [], ◌∷◌, if◌then◌else◌,
}
use change_of_system.Base.Int.{◌≤ℤ◌}
use change_of_system.Filter.{
  FilterRule, EventFilter, rule_name, set_enabled, add_rule, remove_rule, enable_rule, clear_rules,
  reset_stats,
}
use change_of_system.Filter.Sorting.{IsSorted, sort-IsSorted, sort-Distinct, find-sort}

-- The rule that a filter holds under a name.
abbrev pub rule_of : Text → EventFilter → Option FilterRule
rule_of n f = find_named rule_name n f.rules

pub record IsValid (f : EventFilter) : Type 0 where
  pub distinct : Distinct rule_name f.rules
  pub sorted : IsSorted f.rules
  pub counted : (f.total_allowed + f.total_denied) % 2 ^ 64 ≡ f.total_processed

select-IsSorted :
    (p : FilterRule → Bool) (xs : List FilterRule) → IsSorted xs → IsSorted (select p xs)
select-IsSorted p [] h = tt
select-IsSorted p (x ∷ xs) h =
    ground (arith, select-IsSorted p xs h.1, All-select (λ s. s.priority ≤ℤ x.priority) p xs h.0)

All-change :
    (P : FilterRule → Type 0) (p : FilterRule → Bool) (b : Bool) (xs : List FilterRule)
    → ((r : FilterRule) → P r → P (set_enabled b r))
    → All P xs
    → All P (update_first p (set_enabled b) xs)
All-change P p b [] keep h = tt
All-change P p b (x ∷ xs) keep h = ground (arith, keep x h.0, All-change P p b xs keep h.1)

change-IsSorted :
    (p : FilterRule → Bool) (b : Bool) (xs : List FilterRule)
    → IsSorted xs
    → IsSorted (update_first p (set_enabled b) xs)
change-IsSorted p b [] h = tt
change-IsSorted p b (x ∷ xs) h = ground (
  arith,
  change-IsSorted p b xs h.1,
  All-change (λ s. s.priority ≤ℤ x.priority) p b xs (λ r k. k) h.0,
)

add_rule-IsValid : (rule : FilterRule) (f : EventFilter) → IsValid f → IsValid (add_rule rule f)
unfolding add_rule
add_rule-IsValid rule f v = record {
  distinct = sort-Distinct _ (Distinct-put rule_name rule f.rules v.distinct);
  sorted = sort-IsSorted _;
  counted = v.counted;
}

remove_rule-IsValid : (name : Text) (f : EventFilter) → IsValid f → IsValid (remove_rule name f)
unfolding remove_rule
remove_rule-IsValid name f v = record {
  distinct = Distinct-remove rule_name name f.rules v.distinct;
  sorted = select-IsSorted _ f.rules v.sorted;
  counted = v.counted;
}

enable_rule-IsValid :
    (name : Text) (enabled : Bool) (f : EventFilter)
    → IsValid f
    → IsValid (enable_rule name enabled f)
unfolding enable_rule
enable_rule-IsValid name enabled f v = record {
  distinct = Distinct-change rule_name name (set_enabled enabled) (λ r. refl) f.rules v.distinct;
  sorted = change-IsSorted _ enabled f.rules v.sorted;
  counted = v.counted;
}

-- Management calls, as a client makes them.
pub data Call : Type 0 where
  adds : FilterRule → Call
  removes : Text → Call
  enables : Text → Bool → Call
  clears resets : Call

unfoldable pub manage : EventFilter → Call → EventFilter
unfolding add_rule remove_rule enable_rule clear_rules reset_stats
manage f (adds rule) = add_rule rule f
manage f (removes name) = remove_rule name f
manage f (enables name enabled) = enable_rule name enabled f
manage f clears = clear_rules f
manage f resets = reset_stats f

-- Every management call keeps the names of the rules distinct and the rules sorted by falling
-- priority, and leaves the counters consistent.
pub manage-IsValid : (f : EventFilter) (c : Call) → IsValid f → IsValid (manage f c)
unfolding manage
manage-IsValid f (adds rule) v = add_rule-IsValid rule f v
manage-IsValid f (removes name) v = remove_rule-IsValid name f v
manage-IsValid f (enables name enabled) v = enable_rule-IsValid name enabled f v
manage-IsValid f clears v = record { distinct = tt; sorted = tt; counted = v.counted }
manage-IsValid f resets v = record { distinct = v.distinct; sorted = v.sorted; counted = refl }

-- What the filter holds under a name after a call, from what it held before.
abbrev pub expected : Call → Text → Option FilterRule → Option FilterRule
expected (adds rule) n held = if text_beq rule.name n then some rule else held
expected (removes name) n held = if text_beq name n then none else held
expected (enables name enabled) n held =
    if text_beq name n then Option.map (set_enabled enabled) held else held
expected clears n held = none
expected resets n held = held

-- In a filter with distinct names, every management call changes what is found under its own name
-- as the call says, and nothing under any other name.
pub rule_of-manage :
    (f : EventFilter) (c : Call) (n : Text)
    → Distinct rule_name f.rules
    → rule_of n (manage f c) ≡ expected c n (rule_of n f)
unfolding manage
rule_of-manage f (adds rule) n d =
    find-sort n _ (Distinct-put rule_name rule f.rules d) ∙ find-put rule_name n rule f.rules
rule_of-manage f (removes name) n d = find-remove rule_name n name f.rules
rule_of-manage f (enables name enabled) n d =
    find-change rule_name name (set_enabled enabled) (λ r. refl) n f.rules
rule_of-manage f clears n d = refl
rule_of-manage f resets n d = refl
