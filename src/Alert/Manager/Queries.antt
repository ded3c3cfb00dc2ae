-- ===== src/Alert/Manager/Queries.antt =====
-- Active alerts, and what acknowledging one does to them.
use change_of_system.Base.{
  ℕ, suc, ◌<◌, ◌≡◌, refl, sym, Bool, true, not, List, [], ◌∷◌, nat_beq, arith, length, select,
  update_first, length-select, length-update_first,
}
use change_of_system.Alert.Types.{Alert, AlertManager}
use change_of_system.Alert.Manager.{
  get_active_alerts, active_alerts_count, total_alerts, acknowledge_alert,
}
use change_of_system.Alert.Manager.Bounds.{Rising, IsValid}

abbrev active : Alert → Bool
active a = not a.acknowledged

abbrev acknowledged : Alert → Alert
acknowledged a = record a { acknowledged = true }

abbrev has_id : ℕ → Alert → Bool
has_id id a = nat_beq a.id id

select_above :
    (id low high : ℕ) (xs : List Alert)
    → id < low
    → Rising low high xs
    → select (λ a. not (has_id id a)) (select active xs) ≡ select active xs
select_above id low high [] h r = refl
select_above id low high (a ∷ xs) h r =
    ground (arith, select_above id (suc a.id) high xs (omega arith) r.2)

select-acknowledge :
    (id low high : ℕ) (xs : List Alert)
    → Rising low high xs
    → select active (update_first (has_id id) acknowledged xs)
      ≡ select (λ a. not (has_id id a)) (select active xs)
select-acknowledge id low high [] r = refl
select-acknowledge id low high (a ∷ xs) r =
    ground (arith, select-acknowledge id (suc a.id) high xs r.2, select_above id (suc a.id) high xs)

Rising-acknowledge :
    (id low high : ℕ) (xs : List Alert)
    → Rising low high xs
    → Rising low high (update_first (has_id id) acknowledged xs)
Rising-acknowledge id low high [] r = tt
Rising-acknowledge id low high (a ∷ xs) r =
    ground (arith, Rising-acknowledge id (suc a.id) high xs r.2)

-- In a valid manager, acknowledging an id takes exactly the alert of that id off the active alerts,
-- keeps the number of alerts and leaves the manager valid; and the count of active alerts is the
-- length of their list.
pub get_active_alerts-acknowledge_alert :
    {P : Type 0} (id : ℕ) (m : AlertManager P)
    → IsValid m
    → (get_active_alerts (acknowledge_alert id m)
        ≡ select (λ a. not (nat_beq a.id id)) (get_active_alerts m))
      × (total_alerts (acknowledge_alert id m) ≡ total_alerts m)
      × IsValid (acknowledge_alert id m)
      × (active_alerts_count (acknowledge_alert id m)
          ≡ length (get_active_alerts (acknowledge_alert id m)))
unfolding get_active_alerts acknowledge_alert total_alerts active_alerts_count
get_active_alerts-acknowledge_alert id m v = (
  select-acknowledge id 0 m.next_alert_id m.alerts v.rising,
  length-update_first (has_id id) acknowledged m.alerts,
  record {
    bounded = omega (arith, length-update_first (has_id id) acknowledged m.alerts, v.bounded);
    rising = Rising-acknowledge id 0 m.next_alert_id m.alerts v.rising;
  },
  sym (length-select active (update_first (has_id id) acknowledged m.alerts)),
)
