-- ===== src/Filter/Sorting.antt =====
-- The order of the filter's rules: `std::sort` by falling priority.
use change_of_system.Base.{
  ◌≡◌, refl, ◌≢◌, sym, List, [], ◌∷◌, some, Text, text_beq, text_beq_iff, arith, All, find_named,
  Fresh, Distinct, if◌then◌else◌,
}
use change_of_system.Base.Int.{◌≤ℤ◌}
use change_of_system.Filter.{FilterRule, insert_rule, sort_rules, rule_name}

abbrev pub IsSorted : List FilterRule → Type 0
IsSorted [] = Unit
IsSorted (r ∷ rs) = All (λ s. s.priority ≤ℤ r.priority) rs × IsSorted rs

All-insert :
    (P : FilterRule → Type 0) (r : FilterRule) (xs : List FilterRule)
    → P r
    → All P xs
    → All P (insert_rule r xs)
unfolding insert_rule
All-insert P r [] h a = (h, tt)
All-insert P r (x ∷ xs) h a = ground (arith, All-insert P r xs h a.1)

All-sort : (P : FilterRule → Type 0) (xs : List FilterRule) → All P xs → All P (sort_rules xs)
unfolding sort_rules
All-sort P [] a = tt
All-sort P (x ∷ xs) a = All-insert P x (sort_rules xs) a.0 (All-sort P xs a.1)

All-le :
    (r s : FilterRule) (xs : List FilterRule)
    → s.priority ≤ℤ r.priority
    → All (λ t. t.priority ≤ℤ s.priority) xs
    → All (λ t. t.priority ≤ℤ r.priority) xs
All-le r s [] h a = tt
All-le r s (x ∷ xs) h a = (omega arith, All-le r s xs h a.1)

insert-IsSorted :
    (r : FilterRule) (xs : List FilterRule) → IsSorted xs → IsSorted (insert_rule r xs)
unfolding insert_rule
insert-IsSorted r [] h = (tt, tt)
insert-IsSorted r (x ∷ xs) h = ground (
  arith,
  insert-IsSorted r xs h.1,
  All-insert (λ s. s.priority ≤ℤ x.priority) r xs,
  All-le r x xs,
)

pub sort-IsSorted : (xs : List FilterRule) → IsSorted (sort_rules xs)
unfolding sort_rules
sort-IsSorted [] = tt
sort-IsSorted (x ∷ xs) = insert-IsSorted x (sort_rules xs) (sort-IsSorted xs)

insert-Distinct :
    (r : FilterRule) (xs : List FilterRule)
    → Fresh rule_name r.name xs
    → Distinct rule_name xs
    → Distinct rule_name (insert_rule r xs)
unfolding insert_rule
insert-Distinct r [] f d = (tt, tt)
insert-Distinct r (x ∷ xs) f d = ground (
  arith,
  insert-Distinct r xs f.1 d.1,
  All-insert (λ s. s.name ≢ x.name) r xs (λ e. f.0 (sym e)) d.0,
)

pub sort-Distinct :
    (xs : List FilterRule) → Distinct rule_name xs → Distinct rule_name (sort_rules xs)
unfolding sort_rules
sort-Distinct [] d = tt
sort-Distinct (x ∷ xs) d =
    insert-Distinct x (sort_rules xs) (All-sort (λ s. s.name ≢ x.name) xs d.0)
      (sort-Distinct xs d.1)

find-insert :
    (n : Text) (r : FilterRule) (xs : List FilterRule)
    → Fresh rule_name r.name xs
    → find_named rule_name n (insert_rule r xs)
      ≡ (if text_beq r.name n then some r else find_named rule_name n xs)
unfolding insert_rule
find-insert n r [] f = refl
find-insert n r (x ∷ xs) f =
    ground (arith, find-insert n r xs f.1, text_beq_iff x.name n, text_beq_iff r.name n, f.0)

-- Sorting rules with distinct names keeps what a lookup by name finds.
pub find-sort :
    (n : Text) (xs : List FilterRule)
    → Distinct rule_name xs
    → find_named rule_name n (sort_rules xs) ≡ find_named rule_name n xs
unfolding sort_rules
find-sort n [] d = refl
find-sort n (x ∷ xs) d = ground (
  arith,
  find-sort n xs d.1,
  find-insert n x (sort_rules xs) (All-sort (λ s. s.name ≢ x.name) xs d.0),
)
