-- ===== src/Monitors/Environment.antt =====
-- src/monitor/environment/environment_monitor.h and environment_monitor.cpp: `EnvironmentMonitor`.
-- The thread that calls `poll` is the environment.
pub mod Following
pub mod Runs
use change_of_system.Base.{
  ℕ, ◌+◌, Bool, true, false, not, ◌||◌, List, [], ◌∷◌, Option, none, some, Text, codes, Dict,
  insert, contains, find_text, take, drop, is_empty, text_key, ◌==◌, if◌then◌else◌, ◌++◌,
}
use change_of_system.Config.Store.{insert_all}
use change_of_system.Event.{Event, Timestamp, system, config_value_changed}
use change_of_system.Monitor.{Monitor, emit}
use change_of_system.Monitors.Changes.{
  Change, appeared, vanished, altered, changes, rendered, emit_all,
}
use change_of_system.Storage.Codec.{blank_event}

-- The order of a `std::set` plays no part: it is only searched.
pub record EnvironmentMonitor : Type 0 where
  pub base : Monitor
  pub watch_variables : List Text
  pub track_all : Bool

-- The variables of the constructor.
abbrev pub default_variables : List Text
default_variables =
    codes "PATH"
    ∷ codes "HOME"
    ∷ codes "USER"
    ∷ codes "SHELL"
    ∷ codes "LANG"
    ∷ codes "LC_ALL"
    ∷ codes "LD_LIBRARY_PATH"
    ∷ codes "PYTHONPATH"
    ∷ codes "JAVA_HOME"
    ∷ codes "HTTP_PROXY"
    ∷ codes "HTTPS_PROXY"
    ∷ codes "NO_PROXY"
    ∷ codes "SSH_AUTH_SOCK"
    ∷ codes "GPG_AGENT_INFO"
    ∷ []

abbrev pub new_environment_monitor : Monitor → EnvironmentMonitor
new_environment_monitor base = record {
  base = base;
  watch_variables = default_variables;
  track_all = false;
}

abbrev pub set_watch_variables : List Text → EnvironmentMonitor → EnvironmentMonitor
set_watch_variables vars m = record m { watch_variables = vars; track_all = is_empty vars }

module _ (m : EnvironmentMonitor) where
  abbrev pub is_watched : Text → Bool
  is_watched name = m.track_all || contains m.watch_variables name

  -- One entry, with the position of the first equals sign.
  abbrev pub put_entry : Text → Option ℕ → Dict Text Text → Dict Text Text
  put_entry entry none result = result
  put_entry entry (some i) result =
      if is_watched (take i entry)
      then insert (take i entry) (drop (i + 1) entry) result
      else result

  unfoldable pub entries_from : List Text → Dict Text Text → Dict Text Text
  unfolding find_text
  entries_from [] result = result
  entries_from (entry ∷ rest) result =
      entries_from rest (put_entry entry (find_text entry (codes "=")) result)

  -- `environ` is the list of its strings; it is empty where the source has a null pointer.
  unfoldable pub snapshot_environment : List Text → Dict Text Text
  unfolding entries_from
  snapshot_environment environ = entries_from environ []

-- `it->second != value`.
abbrev pub value_differs : Text → Text → Bool
value_differs old new = not (old == new)

unfoldable pub variable_event : Timestamp → Change Text Text → Event
unfolding insert_all
variable_event now (appeared name value) = record (blank_event now) {
  category = system;
  type = config_value_changed;
  source = codes "environment_monitor";
  target = name;
  summary = codes "Environment variable set: " ++ name;
  attributes = insert_all ((codes "action", codes "set") ∷ (codes "value", value) ∷ []) [];
}
variable_event now (vanished name value) = record (blank_event now) {
  category = system;
  type = config_value_changed;
  source = codes "environment_monitor";
  target = name;
  summary = codes "Environment variable unset: " ++ name;
  attributes = insert_all ((codes "action", codes "unset") ∷ (codes "old_value", value) ∷ []) [];
}
variable_event now (altered name old new) = record (blank_event now) {
  category = system;
  type = config_value_changed;
  source = codes "environment_monitor";
  target = name;
  summary = codes "Environment variable changed: " ++ name;
  attributes =
      insert_all
        ((codes "action", codes "changed")
          ∷ (codes "old_value", old)
          ∷ (codes "new_value", new)
          ∷ [])
        [];
}

-- The events of one poll.
unfoldable pub variable_events : (ℕ → Timestamp) → Dict Text Text → Dict Text Text → List Event
unfolding rendered variable_event changes
variable_events clock last current =
    rendered variable_event clock 0 (changes value_differs last current)

-- The last snapshot is a static variable of the function, which all monitors share.
unfoldable pub poll :
    (ℕ → Timestamp)
    → List Text
    → Dict Text Text
    → EnvironmentMonitor
    → EnvironmentMonitor × Dict Text Text
unfolding snapshot_environment emit_all variable_events
poll clock environ last_snapshot m =
    let current = snapshot_environment m environ in
    (record m { base = emit_all (variable_events clock last_snapshot current) m.base }, current)
