-- ===== src/Alert/Manager/Triggers.antt =====
-- When a rule raises an alert: the window, the threshold and the cooldown.
use change_of_system.Base.{ℕ, ◌≡◌, Bool, true, not, ◌&&◌, text_key, length, if◌then◌else◌}
use change_of_system.Base.Int.{leb_ℤ, int_of}
use change_of_system.Event.{Event}
use change_of_system.Regex.{Regex}
use change_of_system.Alert.Types.{AlertRule, AlertManager, Readings}
use change_of_system.Alert.Manager.{is_in_cooldown, tracked, with_times, matches_rule}

-- Three nested tests with three results.
abbrev branch : {A : Type 0} → Bool → Bool → Bool → A → A → A → A
branch entered reached cool x y z = if entered then (if reached && not cool then x else y) else z

module _ (re : Regex) where
  open re use {Pattern}

  module _ (fuel : ℕ) (now : Readings) (rule : AlertRule Pattern) (e : Event)
      (m : AlertManager Pattern) where
    -- The rule applies to the event.
    abbrev pub Entered : Type 0
    Entered = (rule.enabled && matches_rule re rule e) ≡ true

    abbrev pub Reached : Type 0
    Reached = leb_ℤ rule.threshold_count (int_of (length (tracked rule now e m))) ≡ true

    abbrev pub Cooling : Type 0
    Cooling = is_in_cooldown rule.name now.at_cooldown m ≡ true

    counted : AlertManager Pattern
    counted = with_times rule (tracked rule now e m) m
