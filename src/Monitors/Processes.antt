-- ===== src/Monitors/Processes.antt =====
-- src/monitor/process/process_monitor.h and process_monitor.cpp: `ProcessMonitor`. What `snapshot`
-- reads from /proc, the name of the platform and the name of the host are parameters; the thread
-- that calls `tick` is the environment.
pub mod Ticks
use change_of_system.Base.{
  ℕ, Bool, true, false, List, [], ◌∷◌, ◌++◌, Text, codes, decimal, Dict, Option, none, some, lookup,
  insert, nat_key, text_key, if◌then◌else◌,
}
use change_of_system.Base.Int.{ℤ, to_string}
use change_of_system.Config.Store.{insert_all}
use change_of_system.Event.{Event, Timestamp, process, process_started, process_stopped}
use change_of_system.Monitor.{Monitor, emit}
use change_of_system.Monitors.Changes.{rendered, emit_all}
use change_of_system.Storage.Codec.{blank_event}

-- The fields that `snapshot` sets; the others keep their defaults and are read nowhere. The name of
-- a directory is digits, so that `pid` is not negative.
pub record ProcessInfo : Type 0 where
  pub pid : ℕ
  pub name : Text
  pub command_line : Text
  pub memory_bytes : ℤ

pub record ProcessMonitor : Type 0 where
  pub base : Monitor
  pub previous : Dict ℕ ProcessInfo
  pub first_scan : Bool

abbrev pub new_process_monitor : Monitor → ProcessMonitor
new_process_monitor base = record { base = base; previous = []; first_scan = true }

-- The thread is started, and `true` is returned.
abbrev pub on_start : ProcessMonitor → Bool × ProcessMonitor
on_start m = (true, record m { first_scan = true })

unfoldable pub by_pid : List ProcessInfo → Dict ℕ ProcessInfo → Dict ℕ ProcessInfo
unfolding insert
by_pid [] current_map = current_map
by_pid (p ∷ rest) current_map = by_pid rest (insert p.pid p current_map)

-- What a pass of one of the two loops found.
pub data Change : Type 0 where
  started : ℕ → ProcessInfo → Change
  stopped : ℕ → ProcessInfo → Change

abbrev pub if_new : ℕ → ProcessInfo → Option ProcessInfo → List Change → List Change
if_new pid info none rest = started pid info ∷ rest
if_new pid info (some old) rest = rest

-- The loop over the current map.
unfoldable pub starts : Dict ℕ ProcessInfo → Dict ℕ ProcessInfo → List Change
unfolding lookup
starts prev_copy [] = []
starts prev_copy ((pid, info) ∷ current_map) =
    if_new pid info (lookup pid prev_copy) (starts prev_copy current_map)

abbrev pub if_gone : ℕ → ProcessInfo → Option ProcessInfo → List Change → List Change
if_gone pid info none rest = stopped pid info ∷ rest
if_gone pid info (some new) rest = rest

-- The loop over the previous map.
unfoldable pub stops : Dict ℕ ProcessInfo → Dict ℕ ProcessInfo → List Change
unfolding lookup
stops current_map [] = []
stops current_map ((pid, info) ∷ prev_copy) =
    if_gone pid info (lookup pid current_map) (stops current_map prev_copy)

module _ (platform hostname : Text) where
  unfoldable pub process_event : Timestamp → Change → Event
  unfolding insert_all decimal to_string
  process_event now (started pid info) = record (blank_event now) {
    category = process;
    type = process_started;
    source = codes "process";
    target = info.name ++ codes "(" ++ decimal pid ++ codes ")";
    summary = codes "Process started: " ++ info.name;
    attributes =
        insert_all
          ((codes "pid", decimal pid)
            ∷ (codes "name", info.name)
            ∷ (codes "cmdline", info.command_line)
            ∷ (codes "memory_bytes", to_string info.memory_bytes)
            ∷ [])
          [];
    platform = platform;
    host = hostname;
  }
  process_event now (stopped pid info) = record (blank_event now) {
    category = process;
    type = process_stopped;
    source = codes "process";
    target = info.name ++ codes "(" ++ decimal pid ++ codes ")";
    summary = codes "Process stopped: " ++ info.name;
    attributes = insert_all ((codes "pid", decimal pid) ∷ (codes "name", info.name) ∷ []) [];
    platform = platform;
    host = hostname;
  }

  -- The events between two scans.
  unfoldable pub process_events :
      (ℕ → Timestamp) → Dict ℕ ProcessInfo → Dict ℕ ProcessInfo → List Event
  unfolding rendered process_event starts stops
  process_events clock prev_copy current_map =
      rendered process_event clock 0 (starts prev_copy current_map ++ stops current_map prev_copy)

  unfoldable pub tick : (ℕ → Timestamp) → List ProcessInfo → ProcessMonitor → ProcessMonitor
  unfolding by_pid process_events emit_all
  tick clock current m =
      let current_map = by_pid current [] in
      if m.first_scan then record m { previous = current_map; first_scan = false } else record m {
        base = emit_all (process_events clock m.previous current_map) m.base;
        previous = current_map;
      }
