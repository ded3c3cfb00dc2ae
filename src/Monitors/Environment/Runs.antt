-- ===== src/Monitors/Environment/Runs.antt =====
-- The life of an `EnvironmentMonitor` with one callback, under any sequence of calls.
use change_of_system.Base.{ℕ, ◌≡◌, ap, ◌∙◌, List, [], ◌∷◌, Text, Dict, lookup, map, text_key}
use change_of_system.Event.{Timestamp}
use change_of_system.Monitors.Changes.Calls.{
  event_of, events_of, callbacks-emit_all, events_of-emit_all,
}
use change_of_system.Monitors.Environment.{
  EnvironmentMonitor, set_watch_variables, variable_events, snapshot_environment, poll,
}
use change_of_system.Monitors.Environment.Following.{
  follow_all, follow_all-append, lookup-follow_all, lookup-follow_all-events, snapshot-IsMap,
}

-- A monitor with the static variable of `poll`.
pub record Watching : Type 0 where
  pub monitor : EnvironmentMonitor
  pub last_snapshot : Dict Text Text

pub data Call : Type 0 where
  polling : (ℕ → Timestamp) → List Text → Call
  watching : List Text → Call

abbrev polled : EnvironmentMonitor × Dict Text Text → Watching
polled (m, last) = record { monitor = m; last_snapshot = last }

unfoldable pub called : Call → Watching → Watching
unfolding poll
called (polling clock environ) w = polled (poll clock environ w.last_snapshot w.monitor)
called (watching vars) w = record w { monitor = set_watch_variables vars w.monitor }

unfoldable pub called_all : List Call → Watching → Watching
unfolding called
called_all [] w = w
called_all (c ∷ cs) w = called_all cs (called c w)

-- The copy of a listener that began with no variable.
unfoldable pub copy : Watching → Dict Text Text
unfolding follow_all
copy w = follow_all (events_of w.monitor.base) []

record Follows (cb : ℕ) (w : Watching) : Type 0 where
  listens : w.monitor.base.callbacks ≡ cb ∷ []
  agrees : (k : Text) → lookup k (copy w) ≡ lookup k w.last_snapshot

called-Follows : (cb : ℕ) (c : Call) (w : Watching) → Follows cb w → Follows cb (called c w)
unfolding called copy poll
called-Follows cb (watching vars) w h = record { listens = h.listens; agrees = h.agrees }
called-Follows cb (polling clock environ) w h =
    let current = snapshot_environment w.monitor environ in
    let es = variable_events clock w.last_snapshot current in
    record {
      listens = callbacks-emit_all es w.monitor.base ∙ h.listens;
      agrees = λ k.
          ap (λ xs. lookup k (follow_all xs [])) (events_of-emit_all cb es w.monitor.base h.listens)
          ∙ ap (lookup k) (follow_all-append (events_of w.monitor.base) es [])
          ∙ lookup-follow_all es k (copy w) w.last_snapshot h.agrees
          ∙ lookup-follow_all-events clock k w.last_snapshot current
              (snapshot-IsMap w.monitor environ);
    }

called_all-Follows :
    (cb : ℕ) (cs : List Call) (w : Watching) → Follows cb w → Follows cb (called_all cs w)
unfolding called_all
called_all-Follows cb [] w h = h
called_all-Follows cb (c ∷ cs) w h = called_all-Follows cb cs (called c w) (called-Follows cb c w h)

abbrev pub first_state : EnvironmentMonitor → Watching
first_state m = record { monitor = m; last_snapshot = [] }

first_state-Follows :
    (cb : ℕ) (m : EnvironmentMonitor)
    → m.base.callbacks ≡ cb ∷ []
    → m.base.delivered ≡ []
    → Follows cb (first_state m)
unfolding copy follow_all
first_state-Follows cb m h none_yet = record {
  listens = h;
  agrees = λ j. ap (λ xs. lookup j (follow_all (map event_of xs) [])) none_yet;
}

-- Whatever calls are made to a monitor that is the first of its process to poll and has one callback
-- from the start, after a further poll the events that the callback got, followed from no variable
-- on, give each variable the value that it has among the watched ones of the environment.
pub called_all-poll :
    (cb : ℕ) (cs : List Call) (clock : ℕ → Timestamp) (environ : List Text) (m : EnvironmentMonitor)
    (k : Text)
    → m.base.callbacks ≡ cb ∷ []
    → m.base.delivered ≡ []
    → lookup k (copy (called (polling clock environ) (called_all cs (first_state m))))
      ≡ lookup k (snapshot_environment (called_all cs (first_state m)).monitor environ)
unfolding called poll
called_all-poll cb cs clock environ m k h none_yet =
    (called-Follows cb (polling clock environ) (called_all cs (first_state m))
        (called_all-Follows cb cs (first_state m) (first_state-Follows cb m h none_yet))).agrees
      k
