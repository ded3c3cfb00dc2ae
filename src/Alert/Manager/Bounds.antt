-- ===== src/Alert/Manager/Bounds.antt =====
-- The history of alerts stays within its limit, and its ids rise.
use change_of_system.Base.{
  ℕ, zero, suc, ◌+◌, ◌-◌, ◌%◌, ◌^◌, ◌≤◌, ◌<◌, ◌≡◌, sym, ◌⊎◌, inl, inr, Bool, ◌&&◌, Option, some,
  List, [], ◌∷◌, ◌++◌, Text, arith, length, length-drop, drop, ltb, ap, not, some_inj, none_ne_some,
  if_cases, ◌∙◌, if◌then◌else◌, Bool-cases, Option-cases,
}
use mathlib.Core.Path.{subst}
use change_of_system.Base.Int.{leb_ℤ, int_of}
use change_of_system.Event.{Event, Timestamp}
use change_of_system.Regex.{Regex}
use change_of_system.Alert.Types.{Alert, AlertRule, AlertManager, Readings}
use change_of_system.Alert.Message.{format_message, ◌>>=◌}
use change_of_system.Alert.Manager.{
  max_alerts, push_alert, store_alert, trigger_alert, is_in_cooldown, tracked, with_times,
  process_rule, process_rules, process_event, matches_rule,
}

-- The ids rise along the list, from `low` on, and stay below `high`.
abbrev pub Rising : ℕ → ℕ → List Alert → Type 0
Rising low high [] = Unit
Rising low high (a ∷ xs) = (low ≤ a.id) × (a.id < high) × Rising (suc a.id) high xs

pub record IsValid {P : Type 0} (m : AlertManager P) : Type 0 where
  pub bounded : length m.alerts ≤ max_alerts
  pub rising : Rising 0 m.next_alert_id m.alerts

Rising-weaken :
    (low low' high high' : ℕ) (xs : List Alert)
    → low' ≤ low
    → high ≤ high'
    → Rising low high xs
    → Rising low' high' xs
Rising-weaken low low' high high' [] p q h = tt
Rising-weaken low low' high high' (a ∷ xs) p q h = (
  omega arith,
  omega arith,
  Rising-weaken (suc a.id) (suc a.id) high high' xs (omega arith) q h.2,
)

Rising-drop : (n low high : ℕ) (xs : List Alert) → Rising low high xs → Rising low high (drop n xs)
Rising-drop zero low high xs h = h
Rising-drop (suc n) low high [] h = tt
Rising-drop (suc n) low high (a ∷ xs) h =
    Rising-drop n low high xs
      (Rising-weaken (suc a.id) low high high xs (omega arith) (omega arith) h.2)

Rising-append :
    (low : ℕ) (a : Alert) (xs : List Alert)
    → low ≤ a.id
    → Rising low a.id xs
    → Rising low (suc a.id) (xs ++ a ∷ [])
Rising-append low a [] p h = (p, omega arith, tt)
Rising-append low a (b ∷ xs) p h =
    (h.0, omega arith, Rising-append (suc b.id) a xs (omega arith) h.2)

push_alert-Rising :
    (a : Alert) (xs : List Alert) → Rising 0 a.id xs → Rising 0 (suc a.id) (push_alert a xs)
unfolding push_alert
push_alert-Rising a xs h = elim (Bool-cases (ltb max_alerts (length (xs ++ a ∷ [])))) [
  | inl over ↦ rw over (
      Rising-drop (length (xs ++ a ∷ []) - max_alerts) 0 (suc a.id) _
        (Rising-append 0 a xs (omega arith) h))
  | inr under ↦ rw under (Rising-append 0 a xs (omega arith) h)
]

push_alert_bound : (a : Alert) (xs : List Alert) → length (push_alert a xs) ≤ max_alerts
unfolding push_alert
push_alert_bound a xs =
    ground (arith, length-drop (length (xs ++ a ∷ []) - max_alerts) (xs ++ a ∷ []))

module _ {P : Type 0} where
  -- `m'` follows `m` with at most `k` more alerts: the ids and the limit are kept.
  abbrev Follows : ℕ → AlertManager P → AlertManager P → Type 0
  Follows k m m' = IsValid m' × (m'.next_alert_id ≤ m.next_alert_id + k)

  store_alert-Follows :
      (now : Timestamp) (message : Text) (rule : AlertRule P) (e : Event) (m : AlertManager P)
      → IsValid m
      → m.next_alert_id + 1 < 2 ^ 64
      → Follows 1 m (store_alert now message rule e m)
  unfolding store_alert
  store_alert-Follows now message rule e m v room =
      let next : (m.next_alert_id + 1) % 2 ^ 64 ≡ suc m.next_alert_id = omega arith in
      (
        record {
          bounded = push_alert_bound _ m.alerts;
          rising = rw next (push_alert-Rising _ m.alerts v.rising);
        },
        omega arith,
      )

module _ (re : Regex) where
  open re use {Pattern}

  -- What `process_rule` returns: the manager xs it was, with new event times, or with an alert.
  abbrev pub Steps :
      ℕ
      → Readings
      → AlertRule Pattern
      → Event
      → AlertManager Pattern
      → Option (AlertManager Pattern)
      → Type 0
  Steps fuel now rule e m r =
      (r ≡ some m)
      ⊎ ((r ≡ some (with_times rule (tracked rule now e m) m))
          ⊎ (r
              ≡ trigger_alert fuel now.at_trigger rule e
                  (with_times rule (tracked rule now e m) m)))

  pub process_rule-Steps :
      (fuel : ℕ) (now : Readings) (rule : AlertRule Pattern) (e : Event) (m : AlertManager Pattern)
      → Steps fuel now rule e m (process_rule re fuel now rule e m)
  unfolding process_rule
  process_rule-Steps fuel now rule e m =
      elim (if_cases (rule.enabled && matches_rule re rule e) inner (some m)) [
        | inr skipped ↦ inl skipped
        | inl entered ↦
            elim (if_cases (leb_ℤ rule.threshold_count (int_of (length times)) && not cool) _
              (some m')) [
                | inl fired ↦ inr (inr (entered ∙ fired))
                | inr waits ↦ inr (inl (entered ∙ waits))
              ]
      ]
    where
      times : List Timestamp
      times = tracked rule now e m

      m' : AlertManager Pattern
      m' = with_times rule times m

      cool : Bool
      cool = is_in_cooldown rule.name now.at_cooldown m'

      inner : Option (AlertManager Pattern)
      inner =
          if leb_ℤ rule.threshold_count (int_of (length times)) && not cool
          then trigger_alert fuel now.at_trigger rule e m'
          else some m'

  trigger_alert-Follows :
      (fuel : ℕ) (now : Timestamp) (rule : AlertRule Pattern) (e : Event)
      (m m' : AlertManager Pattern)
      → IsValid m
      → m.next_alert_id + 1 < 2 ^ 64
      → trigger_alert fuel now rule e m ≡ some m'
      → Follows 1 m m'
  unfolding trigger_alert
  trigger_alert-Follows fuel now rule e m m' v room h =
      elim (Option-cases (format_message fuel rule.message_template e rule)) [
        | inl stuck ↦ absurd (none_ne_some (sym (ap bind stuck) ∙ h))
        | inr (message, done) ↦
            subst (Follows 1 m) (some_inj (sym (ap bind done) ∙ h))
              (store_alert-Follows now message rule e m v room)
      ]
    where
      bind : Option Text → Option (AlertManager Pattern)
      bind o = o >>= λ message. some (store_alert now message rule e m)

  process_rule-Follows :
      (fuel : ℕ) (now : Readings) (rule : AlertRule Pattern) (e : Event)
      (m m' : AlertManager Pattern)
      → IsValid m
      → m.next_alert_id + 1 < 2 ^ 64
      → process_rule re fuel now rule e m ≡ some m'
      → Follows 1 m m'
  process_rule-Follows fuel now rule e m m' v room h = elim (process_rule-Steps fuel now rule e m) [
    | inl same ↦ subst (Follows 1 m) (some_inj (sym same ∙ h)) (v, omega arith)
    | inr (inl counted) ↦
        subst (Follows 1 m) (some_inj (sym counted ∙ h))
          (record { bounded = v.bounded; rising = v.rising }, omega arith)
    | inr (inr fired) ↦
        trigger_alert-Follows fuel now.at_trigger rule e _ m'
          (record { bounded = v.bounded; rising = v.rising }) room (sym fired ∙ h)
  ]

  process_rules-Follows :
      (fuel : ℕ) (now : Text → Readings) (rules : List (AlertRule Pattern)) (e : Event)
      (m m' : AlertManager Pattern)
      → IsValid m
      → m.next_alert_id + length rules < 2 ^ 64
      → process_rules re fuel now rules e m ≡ some m'
      → Follows (length rules) m m'
  unfolding process_rules
  process_rules-Follows fuel now [] e m m' v room h =
      subst (Follows 0 m) (some_inj h) (v, omega arith)
  process_rules-Follows fuel now (rule ∷ rest) e m m' v room h =
      elim (Option-cases (process_rule re fuel (now rule.name) rule e m)) [
        | inl stuck ↦ absurd (none_ne_some (sym (ap bind stuck) ∙ h))
        | inr (m1, done) ↦
            let (v1, n1) =
              process_rule-Follows fuel (now rule.name) rule e m m1 v (omega arith) done in
            let (v2, n2) =
              process_rules-Follows fuel now rest e m1 m' v1 (omega arith)
                (sym (ap bind done) ∙ h) in
            (v2, omega arith)
      ]
    where
      bind : Option (AlertManager Pattern) → Option (AlertManager Pattern)
      bind o = o >>= process_rules re fuel now rest e

  -- As long as the 64-bit ids do not run out, processing an event keeps at most 10000 alerts, whose
  -- ids rise strictly and lie below the next id, and takes at most one new id for each rule.
  pub process_event-IsValid :
      (fuel : ℕ) (now : Text → Readings) (e : Event) (m m' : AlertManager Pattern)
      → IsValid m
      → m.next_alert_id + length m.rules < 2 ^ 64
      → process_event re fuel now e m ≡ some m'
      → IsValid m' × (m'.next_alert_id ≤ m.next_alert_id + length m.rules)
  unfolding process_event
  process_event-IsValid fuel now e m m' v room h =
      process_rules-Follows fuel now m.rules e m m' v room h
