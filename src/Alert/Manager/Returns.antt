-- ===== src/Alert/Manager/Returns.antt =====
-- `process_event` returns on an event whose texts hold no opening brace.
use change_of_system.Base.{
  ℕ, ◌+◌, ◌^◌, ◌≤◌, length, ◌<◌, ◌≡◌, refl, ap, ◌∙◌, inl, inr, Option, some, List, [], ◌∷◌, Text,
  All,
}
use change_of_system.Regex.{Regex}
use change_of_system.Event.{Event}
use change_of_system.Alert.Types.{AlertRule, AlertManager, Readings}
use change_of_system.Alert.Message.{◌>>=◌}
use change_of_system.Alert.Message.Termination.{braces, format_message-Filled}
use change_of_system.Alert.Manager.{
  store_alert, trigger_alert, process_rule, process_rules, process_event,
}
use change_of_system.Alert.Manager.Bounds.{IsValid, process_rule-Steps, process_event-IsValid}
use change_of_system.Alert.Manager.Outcomes.{process_rule-outcome}

-- No text of the event that a message quotes holds an opening brace.
pub record Plain (e : Event) : Type 0 where
  pub source : braces e.source ≡ 0
  pub target : braces e.target ≡ 0
  pub summary : braces e.summary ≡ 0

module _ (re : Regex) where
  open re use {Pattern}

  trigger_alert-returns :
      (fuel : ℕ) (now : ℕ) (rule : AlertRule Pattern) (e : Event) (m : AlertManager Pattern)
      → braces rule.message_template < fuel
      → Plain e
      → (m' : AlertManager Pattern) × (trigger_alert fuel now rule e m ≡ some m')
  unfolding trigger_alert
  trigger_alert-returns fuel now rule e m enough plain =
      let (t, formatted, few) =
        format_message-Filled fuel rule.message_template e rule enough plain.source plain.target
          plain.summary in
      (store_alert now t rule e m, ap bind formatted)
    where
      bind : Option Text → Option (AlertManager Pattern)
      bind o = o >>= λ message. some (store_alert now message rule e m)

  process_rule-returns :
      (fuel : ℕ) (now : Readings) (rule : AlertRule Pattern) (e : Event) (m : AlertManager Pattern)
      → braces rule.message_template < fuel
      → Plain e
      → (m' : AlertManager Pattern) × (process_rule re fuel now rule e m ≡ some m')
  process_rule-returns fuel now rule e m enough plain =
      elim (process_rule-Steps re fuel now rule e m) [
        | inl same ↦ (m, same)
        | inr (inl counted) ↦ (_, counted)
        | inr (inr fired) ↦
            let (m', done) = trigger_alert-returns fuel now.at_trigger rule e _ enough plain in
            (m', fired ∙ done)
      ]

  process_rules-returns :
      (fuel : ℕ) (now : Text → Readings) (rules : List (AlertRule Pattern)) (e : Event)
      (m : AlertManager Pattern)
      → All (λ r. braces r.message_template < fuel) rules
      → Plain e
      → (m' : AlertManager Pattern) × (process_rules re fuel now rules e m ≡ some m')
  unfolding process_rules
  process_rules-returns fuel now [] e m enough plain = (m, refl)
  process_rules-returns fuel now (rule ∷ rest) e m (enough, later) plain =
      let (m1, first) = process_rule-returns fuel (now rule.name) rule e m enough plain in
      let (m2, others) = process_rules-returns fuel now rest e m1 later plain in
      (m2, ap (λ o. o >>= process_rules re fuel now rest e) first ∙ others)

  process_rules-finishes :
      (fuel : ℕ) (now : Text → Readings) (rules : List (AlertRule Pattern)) (e : Event)
      (m : AlertManager Pattern)
      → All (λ r. braces r.message_template < fuel) rules
      → Plain e
      → (m' : AlertManager Pattern) × (process_rules re fuel now rules e m ≡ some m')
        × (m'.rules ≡ m.rules)
  unfolding process_rules
  process_rules-finishes fuel now [] e m enough plain = (m, refl, refl)
  process_rules-finishes fuel now (rule ∷ rest) e m (enough, later) plain =
      let (message, made, few) =
        format_message-Filled fuel rule.message_template e rule enough plain.source plain.target
          plain.summary in
      let (m1, first, o) = process_rule-outcome re (now rule.name) rule e m fuel message made in
      let (m2, others, same) = process_rules-finishes fuel now rest e m1 later plain in
      (m2, ap (λ x. x >>= process_rules re fuel now rest e) first ∙ others, same ∙ o.rules)

  -- Processing returns, and keeps the rules.
  pub process_event-finishes :
      (fuel : ℕ) (now : Text → Readings) (e : Event) (m : AlertManager Pattern)
      → All (λ r. braces r.message_template < fuel) m.rules
      → Plain e
      → (m' : AlertManager Pattern) × (process_event re fuel now e m ≡ some m')
        × (m'.rules ≡ m.rules)
  unfolding process_event
  process_event-finishes fuel now e m enough plain =
      process_rules-finishes fuel now m.rules e m enough plain

  -- Processing an event whose texts hold no opening brace returns, with fuel above the number of
  -- opening braces in every rule's template. As long as the 64-bit ids do not run out it keeps at
  -- most 10000 alerts, whose ids rise strictly and lie below the next id, and takes at most one new
  -- id for each rule.
  pub process_event-returns :
      (fuel : ℕ) (now : Text → Readings) (e : Event) (m : AlertManager Pattern)
      → IsValid m
      → All (λ r. braces r.message_template < fuel) m.rules
      → Plain e
      → m.next_alert_id + length m.rules < 2 ^ 64
      → (m' : AlertManager Pattern) × (process_event re fuel now e m ≡ some m')
        × IsValid m'
        × (m'.next_alert_id ≤ m.next_alert_id + length m.rules)
  unfolding process_event
  process_event-returns fuel now e m v enough plain room =
      let (m', done) = process_rules-returns fuel now m.rules e m enough plain in
      let (v', ids) = process_event-IsValid re fuel now e m m' v room done in (m', done, v', ids)
