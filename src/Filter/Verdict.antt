-- ===== src/Filter/Verdict.antt =====
-- What `process` decides, what it changes and counts, and when `would_allow` agrees with it.
use mathlib.Core.Bool.{false≢true}
use mathlib.Core.Path.{subst}
use change_of_system.Base.{
  ◌+◌, ◌%◌, ◌^◌, ◌≡◌, ◌≢◌, refl, sym, ◌⊎◌, inl, inr, Bool, true, false, ◌&&◌, List, [], ◌∷◌, arith,
  All, All-In, In, Bool-cases,
}
use change_of_system.Base.Int.{◌≤ℤ◌, ◌<ℤ◌}
use change_of_system.Event.{Event}
use change_of_system.Regex.{Regex}
use change_of_system.Filter.{
  FilterRule, FilterAction, allow, deny, modify, EventFilter, matches_rule, apply_modifications,
  process_rules, process, rules_allow, would_allow, next64,
}
use change_of_system.Filter.Sorting.{IsSorted}
use change_of_system.Filter.Rules.{IsValid}

-- The fields that no rule can change.
pub record SameOrigin (a b : Event) : Type 0 where
  pub id : a.id ≡ b.id
  pub timestamp : a.timestamp ≡ b.timestamp
  pub category : a.category ≡ b.category
  pub type : a.type ≡ b.type
  pub source : a.source ≡ b.source
  pub target : a.target ≡ b.target
  pub host : a.host ≡ b.host
  pub platform : a.platform ≡ b.platform

module _ (re : Regex) where
  abbrev verdict : List FilterRule → Event → EventFilter → Bool
  verdict rs e f = (process_rules re rs e f).0

  -- The counters after the loop, from those before.
  abbrev Counted : EventFilter → EventFilter → Type 0
  Counted g f =
      (g.rules ≡ f.rules)
      × (g.total_processed ≡ f.total_processed)
      × ((g.total_allowed + g.total_denied) % 2 ^ 64
          ≡ (f.total_allowed + f.total_denied + 1) % 2 ^ 64)

  process_rules-Counted :
      (rs : List FilterRule) (e : Event) (f : EventFilter) → Counted (process_rules re rs e f).2 f
  unfolding process_rules
  process_rules-Counted [] e f = (refl, refl, omega arith)
  process_rules-Counted (r ∷ rs) e f = ground (
    arith,
    process_rules-Counted rs e f,
    process_rules-Counted rs (apply_modifications r e)
        (record f { total_modified = next64 f.total_modified }),
  )

  -- Whatever the event, `process` keeps the rules distinct and sorted, and the counters of allowed
  -- and denied events still add up, modulo 2 ^ 64, to the processed ones.
  pub process-IsValid : (e : Event) (f : EventFilter) → IsValid f → IsValid (process re e f).2
  unfolding process
  process-IsValid e f v =
      let start : EventFilter = record f { total_processed = next64 f.total_processed } in
      let c : Counted (process_rules re f.rules e start).2 start =
        process_rules-Counted f.rules e start in
      record {
        distinct = rw (c.0) (v.distinct);
        sorted = rw (c.0) (v.sorted);
        counted = omega (arith, c.1, c.2, v.counted);
      }

  process_rules-SameOrigin :
      (rs : List FilterRule) (e : Event) (f : EventFilter)
      → SameOrigin (process_rules re rs e f).1 e
  unfolding process_rules apply_modifications
  process_rules-SameOrigin [] e f = record {
    id = refl;
    timestamp = refl;
    category = refl;
    type = refl;
    source = refl;
    target = refl;
    host = refl;
    platform = refl;
  }
  process_rules-SameOrigin (r ∷ rs) e f = ground (
    arith,
    process_rules-SameOrigin rs e f,
    process_rules-SameOrigin rs (apply_modifications r e)
        (record f { total_modified = next64 f.total_modified }),
  )

  -- Where a rule applies, and what it does then.
  abbrev pub Applies : FilterRule → Event → Type 0
  Applies r e = (r.enabled && matches_rule re r e) ≡ true

  module _ (r : FilterRule) (rs : List FilterRule) (e : Event) (f : EventFilter) where
    skip_step :
        (r.enabled && matches_rule re r e) ≡ false
        → process_rules re (r ∷ rs) e f ≡ process_rules re rs e f
    unfolding process_rules
    skip_step h = ground arith

    modify_step :
        Applies r e
        → r.action ≡ modify
        → process_rules re (r ∷ rs) e f
          ≡ process_rules re rs
              (apply_modifications r e)
              (record f { total_modified = next64 f.total_modified })
    unfolding process_rules
    modify_step h a = ground arith

    deny_step :
        Applies r e
        → r.action ≡ deny
        → process_rules re (r ∷ rs) e f
          ≡ (false, e, record f { total_denied = next64 f.total_denied })
    unfolding process_rules
    deny_step h a = ground arith

    allow_step :
        Applies r e
        → r.action ≡ allow
        → process_rules re (r ∷ rs) e f
          ≡ (true, e, record f { total_allowed = next64 f.total_allowed })
    unfolding process_rules
    allow_step h a = ground arith

  action_cases : (a : FilterAction) → (a ≡ allow) ⊎ ((a ≡ deny) ⊎ (a ≡ modify))
  action_cases allow = inl refl
  action_cases deny = inr (inl refl)
  action_cases modify = inr (inr refl)

  denied_of : {x y : Bool × Event × EventFilter} → x ≡ y → x.0 ≡ false → y.0 ≡ false
  denied_of p h = subst (λ z. z.0 ≡ false) p h

  -- The rule that denied an event: it stands in the list, is enabled, and matches the event as the
  -- loop left it.
  abbrev pub DeniedBy : List FilterRule → Event → Type 0
  DeniedBy rs e =
      (d : FilterRule) × In d rs
      × (d.enabled ≡ true)
      × (d.action ≡ deny)
      × (matches_rule re d e ≡ true)

  later_denied :
      (r : FilterRule) (rs : List FilterRule) (e : Event) → DeniedBy rs e → DeniedBy (r ∷ rs) e
  later_denied r rs e (d, i, on, a, m) = (d, inr i, on, a, m)

  process_rules-DeniedBy :
      (rs : List FilterRule) (e : Event) (f : EventFilter)
      → verdict rs e f ≡ false
      → DeniedBy rs (process_rules re rs e f).1
  process_rules-DeniedBy [] e f h = absurd (false≢true (sym (unfold process_rules in h)))
  process_rules-DeniedBy (r ∷ rs) e f h = elim (Bool-cases (r.enabled && matches_rule re r e)) [
    | inr miss ↦ rw (skip_step r rs e f miss) (
        later_denied r rs _ (process_rules-DeniedBy rs e f (denied_of (skip_step r rs e f miss) h)))
    | inl hit ↦ elim (action_cases r.action) [
      | inl a ↦ absurd (false≢true (sym (denied_of (allow_step r rs e f hit a) h)))
      | inr (inl d) ↦ rw (deny_step r rs e f hit d) (r, inl refl, ground arith, d, ground arith)
      | inr (inr m) ↦ rw (modify_step r rs e f hit m) (
          later_denied r rs _
            (process_rules-DeniedBy rs _ _ (denied_of (modify_step r rs e f hit m) h)))
    ]
  ]

  -- Every rule that applies and is no Deny rule has a lower priority than `d`.
  abbrev pub Outranks : FilterRule → List FilterRule → Event → Type 0
  Outranks d rs e = All (λ r. Applies r e → r.action ≢ deny → r.priority <ℤ d.priority) rs

  verdict_of : {x y : Bool × Event × EventFilter} → x ≡ y → y.0 ≡ false → x.0 ≡ false
  verdict_of p h = denied_of (sym p) h

  not_outranked :
      (d r : FilterRule) (rs : List FilterRule)
      → In d rs
      → IsSorted (r ∷ rs)
      → r.priority <ℤ d.priority
      → ⊥
  not_outranked d r rs i s lt =
      let le : d.priority ≤ℤ r.priority = All-In (λ t. t.priority ≤ℤ r.priority) d rs s.0 i in
      omega arith

  deny_wins_rules :
      (d : FilterRule) (rs : List FilterRule) (e : Event) (f : EventFilter)
      → In d rs
      → IsSorted rs
      → Applies d e
      → d.action ≡ deny
      → Outranks d rs e
      → verdict rs e f ≡ false
  deny_wins_rules d [] e f i s m a below = absurd i
  deny_wins_rules d (r ∷ rs) e f (inl here) s m a below =
      verdict_of
        (deny_step r rs e f (subst (λ x. Applies x e) (sym here) m)
          (subst (λ (x : FilterRule). x.action ≡ deny) (sym here) a))
        refl
  deny_wins_rules d (r ∷ rs) e f (inr later) s m a below =
      elim (Bool-cases (r.enabled && matches_rule re r e)) [
        | inr miss ↦
            verdict_of (skip_step r rs e f miss) (deny_wins_rules d rs e f later s.1 m a below.1)
        | inl hit ↦ elim (action_cases r.action) [
          | inl al ↦ absurd (not_outranked d r rs later s (below.0 hit (λ x. cc (x, al))))
          | inr (inl de) ↦ verdict_of (deny_step r rs e f hit de) refl
          | inr (inr mo) ↦ absurd (not_outranked d r rs later s (below.0 hit (λ x. cc (x, mo))))
        ]
      ]

  -- In a valid filter an event is denied whenever an enabled Deny rule matches it and every other
  -- enabled matching rule that is no Deny rule has a lower priority.
  pub process-deny_wins :
      (d : FilterRule) (e : Event) (f : EventFilter)
      → IsValid f
      → In d f.rules
      → Applies d e
      → d.action ≡ deny
      → Outranks d f.rules e
      → (process re e f).0 ≡ false
  unfolding process
  process-deny_wins d e f v i m a below =
      deny_wins_rules d f.rules e (record f { total_processed = next64 f.total_processed }) i
        v.sorted m a below

  -- An event that is denied has an enabled Deny rule of the filter that matches it as the Modify rules
  -- before that rule left it. Of any event, denied or let through, all but attributes and summary is
  -- unchanged.
  pub process-DeniedBy :
      (e : Event) (f : EventFilter)
      → ((process re e f).0 ≡ false → DeniedBy f.rules (process re e f).1)
        × SameOrigin (process re e f).1 e
  unfolding process
  process-DeniedBy e f =
      (λ h. process_rules-DeniedBy f.rules e _ h, process_rules-SameOrigin f.rules e _)

  verdict-rules_allow :
      (rs : List FilterRule) (e : Event) (f : EventFilter)
      → All (λ r. Applies r e → r.action ≢ modify) rs
      → (verdict rs e f ≡ rules_allow re rs e) × ((process_rules re rs e f).1 ≡ e)
  unfolding process_rules rules_allow
  verdict-rules_allow [] e f h = (refl, refl)
  verdict-rules_allow (r ∷ rs) e f h = ground (arith, verdict-rules_allow rs e f h.1, h.0)

  -- Where no Modify rule applies to the event, `would_allow` foretells the verdict of `process`, and
  -- `process` leaves the event as it is.
  pub process-would_allow :
      (e : Event) (f : EventFilter)
      → All (λ r. Applies r e → r.action ≢ modify) f.rules
      → ((process re e f).0 ≡ would_allow re f e) × ((process re e f).1 ≡ e)
  unfolding process would_allow
  process-would_allow e f h = verdict-rules_allow f.rules e _ h

  -- Where the first rule is a Modify rule that applies to the event, `would_allow` answers true, even
  -- when a Deny rule behind it applies to the modified event and `process` denies it.
  pub would_allow-modify_deny :
      (m d : FilterRule) (rest : List FilterRule) (e : Event) (f : EventFilter)
      → f.rules ≡ m ∷ d ∷ rest
      → Applies m e
      → m.action ≡ modify
      → Applies d (apply_modifications m e)
      → d.action ≡ deny
      → (would_allow re f e ≡ true) × ((process re e f).0 ≡ false)
  unfolding process would_allow rules_allow process_rules
  would_allow-modify_deny m d rest e f rs am mm ad dd = ground arith
