-- ===== src/Security/Auditor/Reports.antt =====
-- The history of security events and what the callbacks get.
use change_of_system.Base.{
  ℕ, zero, suc, ◌+◌, ◌-◌, ◌%◌, ◌^◌, ◌≤◌, ◌<◌, ◌≡◌, ◌∙◌, ap, refl, inl, inr, List, [], ◌∷◌, ◌++◌,
  map, arith, length, length-drop, drop, ltb, Bool-cases,
}
use change_of_system.Security.Types.{SecurityEvent, SecurityRule, SecurityAuditor, Readings}
use change_of_system.Security.Auditor.{
  max_events, push_event, check_rule, check_each, check_rules, record_rule_event,
  report_security_event,
}

-- The ids rise along the list, from `low` on, and stay below `high`.
abbrev pub Rising : ℕ → ℕ → List SecurityEvent → Type 0
Rising low high [] = Unit
Rising low high (e ∷ es) = (low ≤ e.id) × (e.id < high) × Rising (suc e.id) high es

pub record IsValid (a : SecurityAuditor) : Type 0 where
  pub bounded : length a.events ≤ max_events
  pub rising : Rising 1 a.next_event_id a.events
  pub started : 1 ≤ a.next_event_id

Rising-weaken :
    (low low' high high' : ℕ) (es : List SecurityEvent)
    → low' ≤ low
    → high ≤ high'
    → Rising low high es
    → Rising low' high' es
Rising-weaken low low' high high' [] p q h = tt
Rising-weaken low low' high high' (e ∷ es) p q h = (
  omega arith,
  omega arith,
  Rising-weaken (suc e.id) (suc e.id) high high' es (omega arith) q h.2,
)

Rising-drop :
    (n low high : ℕ) (es : List SecurityEvent) → Rising low high es → Rising low high (drop n es)
Rising-drop zero low high es h = h
Rising-drop (suc n) low high [] h = tt
Rising-drop (suc n) low high (e ∷ es) h =
    Rising-drop n low high es
      (Rising-weaken (suc e.id) low high high es (omega arith) (omega arith) h.2)

Rising-append :
    (low : ℕ) (e : SecurityEvent) (es : List SecurityEvent)
    → low ≤ e.id
    → Rising low e.id es
    → Rising low (suc e.id) (es ++ e ∷ [])
Rising-append low e [] p h = (p, omega arith, tt)
Rising-append low e (f ∷ es) p h =
    (h.0, omega arith, Rising-append (suc f.id) e es (omega arith) h.2)

push_event-Rising :
    (e : SecurityEvent) (es : List SecurityEvent)
    → 1 ≤ e.id
    → Rising 1 e.id es
    → Rising 1 (suc e.id) (push_event e es)
unfolding push_event
push_event-Rising e es p h = elim (Bool-cases (ltb max_events (length (es ++ e ∷ [])))) [
  | inl over ↦
      rw over
        (Rising-drop (length (es ++ e ∷ []) - max_events) 1 (suc e.id) _ (Rising-append 1 e es p h))
  | inr under ↦ rw under (Rising-append 1 e es p h)
]

push_event_bound :
    (e : SecurityEvent) (es : List SecurityEvent) → length (push_event e es) ≤ max_events
unfolding push_event
push_event_bound e es =
    ground (arith, length-drop (length (es ++ e ∷ []) - max_events) (es ++ e ∷ []))

-- What the check of the rules leaves alone.
pub record SameHistory (b a : SecurityAuditor) : Type 0 where
  pub rules : b.rules ≡ a.rules
  pub events : b.events ≡ a.events
  pub callbacks : b.callbacks ≡ a.callbacks
  pub next_event_id : b.next_event_id ≡ a.next_event_id
  pub delivered : b.delivered ≡ a.delivered

check_rule-SameHistory :
    (r : SecurityRule) (e : SecurityEvent) (now : Readings) (a : SecurityAuditor)
    → SameHistory (check_rule r e now a) a
unfolding check_rule record_rule_event
check_rule-SameHistory r e now a = ground arith

check_each-SameHistory :
    (rs : List SecurityRule) (e : SecurityEvent) (now : Readings) (a : SecurityAuditor)
    → SameHistory (check_each rs e now a) a
unfolding check_each
check_each-SameHistory [] e now a = record {
  rules = refl;
  events = refl;
  callbacks = refl;
  next_event_id = refl;
  delivered = refl;
}
check_each-SameHistory (r ∷ rs) e now a = ground (
  arith,
  check_each-SameHistory rs e now (check_rule r e now a),
  check_rule-SameHistory r e now a,
)

-- Reporting a security event keeps at most 1000 events, whose ids rise strictly and lie below the
-- next id, which goes up by one; and it calls each callback once, with the event as it was given.
pub report_security_event-IsValid :
    (now : Readings) (e : SecurityEvent) (a : SecurityAuditor)
    → IsValid a
    → a.next_event_id + 1 < 2 ^ 64
    → let b = report_security_event now e a in
      IsValid b
      × (b.next_event_id ≡ a.next_event_id + 1)
      × (b.callbacks ≡ a.callbacks)
      × (b.delivered ≡ a.delivered ++ map (λ cb. (cb, e)) a.callbacks)
unfolding report_security_event check_rules
report_security_event-IsValid now e a v room = (
  record {
    bounded = rw kept.events (push_event_bound stored a.events);
    rising =
        rw kept.events
          (rw kept.next_event_id (rw next (push_event-Rising stored a.events v.started v.rising)));
    started = rw kept.next_event_id (rw next (omega arith));
  },
  kept.next_event_id ∙ next ∙ omega arith,
  kept.callbacks,
  ap (λ d. d ++ map (λ cb. (cb, e)) a.callbacks) kept.delivered,
)
  where
    stored : SecurityEvent
    stored = record e { id = a.next_event_id }

    next : (a.next_event_id + 1) % 2 ^ 64 ≡ suc a.next_event_id
    next = omega arith

    kept :
        SameHistory
          (check_rules stored now (record a {
            next_event_id = (a.next_event_id + 1) % 2 ^ 64;
            events = push_event stored a.events;
          }))
          (record a {
            next_event_id = (a.next_event_id + 1) % 2 ^ 64;
            events = push_event stored a.events;
          })
    kept = check_each-SameHistory a.rules stored now _
