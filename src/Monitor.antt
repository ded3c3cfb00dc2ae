-- ===== src/Monitor.antt =====
-- src/core/monitor.h and src/core/monitor.cpp: the base class of the monitors. What a derived class
-- does in `on_start` and `on_stop` is not modelled, only that it is called and what it returns; the
-- flag and the callbacks are changed in one step each.
pub mod Lifecycle
use change_of_system.Base.{Bool, true, false, List, [], ◌∷◌, ◌++◌, ℕ, Text, map, if◌then◌else◌}
use change_of_system.Base.Int.{ℤ}
use change_of_system.Event.{Event}

-- The calls of the virtual functions.
pub data Hook : Type 0 where
  on_start on_stop : Hook

-- A callback is a number that stands for it; `hooks` and `delivered` are the calls made, the oldest
-- first.
pub record Monitor : Type 0 where
  pub name : Text
  pub is_available : Bool
  pub starts_well : Bool
  pub stops_well : Bool
  pub running : Bool
  pub use_native_events : Bool
  pub poll_interval_ms : ℤ
  pub callbacks : List ℕ
  pub hooks : List Hook
  pub delivered : List (ℕ × Event)

unfoldable pub start : Monitor → Bool × Monitor
start m =
    if m.running
    then (false, m)
    else (m.starts_well, record m { running = true; hooks = m.hooks ++ on_start ∷ [] })

unfoldable pub stop : Monitor → Bool × Monitor
stop m =
    if m.running
    then (m.stops_well, record m { running = false; hooks = m.hooks ++ on_stop ∷ [] })
    else (false, m)

unfoldable pub on_event : ℕ → Monitor → Monitor
on_event cb m = record m { callbacks = m.callbacks ++ cb ∷ [] }

-- What a callback throws is caught, so each is called.
unfoldable pub emit : Event → Monitor → Monitor
emit event m = record m { delivered = m.delivered ++ map (λ cb. (cb, event)) m.callbacks }
