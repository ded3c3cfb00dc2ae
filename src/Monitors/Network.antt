-- ===== src/Monitors/Network.antt =====
-- src/monitor/network/network_monitor.h and network_monitor.cpp: `NetworkMonitor`, in a build for
-- Linux. The files below /proc, the name of the platform and the name of the host are parameters;
-- the thread that calls `tick` is the environment.
pub mod Connections
use change_of_system.Base.{
  ℕ, Bool, true, false, ◌||◌, List, [], ◌∷◌, ◌++◌, Option, none, some, Text, codes, contains, map,
  get_or, drop, is_empty, text_key, if◌then◌else◌,
}
use change_of_system.Config.Store.{insert_all}
use change_of_system.Event.{
  Event, Timestamp, network, network_connection_opened, network_connection_closed,
}
use change_of_system.Monitor.{Monitor, emit}
use change_of_system.Monitors.Changes.{rendered, emit_all}
use change_of_system.Monitors.Words.{words_from}
use change_of_system.Storage.Codec.{blank_event}

pub record NetworkConnection : Type 0 where
  pub protocol : Text
  pub local_address : Text
  pub remote_address : Text
  pub state : Text

pub record NetworkMonitor : Type 0 where
  pub base : Monitor
  pub previous_connections : List NetworkConnection
  pub first_scan : Bool

abbrev pub new_network_monitor : Monitor → NetworkMonitor
new_network_monitor base = record { base = base; previous_connections = []; first_scan = true }

-- The thread is started, and `true` is returned.
abbrev pub on_start : NetworkMonitor → Bool × NetworkMonitor
on_start m = (true, record m { first_scan = true })

abbrev pub put_connection : Text → List Text → List NetworkConnection → List NetworkConnection
put_connection proto tokens result =
    if is_empty (get_or tokens 1 []) || is_empty (get_or tokens 2 [])
    then result
    else result
      ++ record {
        protocol = proto;
        local_address = get_or tokens 1 [];
        remote_address = get_or tokens 2 [];
        state = get_or tokens 3 [];
      }
        ∷ []

unfoldable pub parse_lines : Text → List Text → List NetworkConnection → List NetworkConnection
unfolding words_from
parse_lines proto [] result = result
parse_lines proto (line ∷ rest) result =
    parse_lines proto rest (put_connection proto (words_from [] line) result)

-- The lines of a file, `none` if it cannot be opened; the first one is skipped.
abbrev pub parse_file : Option (List Text) → Text → List NetworkConnection → List NetworkConnection
parse_file none proto result = result
parse_file (some file) proto result = parse_lines proto (drop 1 file) result

unfoldable pub snapshot_connections : (Text → Option (List Text)) → List NetworkConnection
unfolding parse_lines
snapshot_connections files =
    let tcp = parse_file (files (codes "/proc/net/tcp")) (codes "tcp") [] in
    let udp = parse_file (files (codes "/proc/net/udp")) (codes "udp") tcp in
    let tcp6 = parse_file (files (codes "/proc/net/tcp6")) (codes "tcp6") udp in
    parse_file (files (codes "/proc/net/udp6")) (codes "udp6") tcp6

abbrev pub make_key : NetworkConnection → Text
make_key c = c.protocol ++ codes "|" ++ c.local_address ++ codes "|" ++ c.remote_address

-- The connections of the list whose key is not among the keys.
unfoldable pub others : List Text → List NetworkConnection → List NetworkConnection
others keys [] = []
others keys (c ∷ cs) =
    let rest = others keys cs in if contains keys (make_key c) then rest else c ∷ rest

-- What a pass of one of the two loops found.
pub data Change : Type 0 where
  opened : NetworkConnection → Change
  closed : NetworkConnection → Change

module _ (platform hostname : Text) where
  unfoldable pub connection_event : Timestamp → Change → Event
  unfolding insert_all
  connection_event now (opened c) = record (blank_event now) {
    category = network;
    type = network_connection_opened;
    source = codes "network";
    target = c.remote_address;
    summary =
        codes "Connection opened: "
        ++ c.protocol
        ++ codes " "
        ++ c.local_address
        ++ codes " -> "
        ++ c.remote_address;
    attributes =
        insert_all
          ((codes "protocol", c.protocol)
            ∷ (codes "local", c.local_address)
            ∷ (codes "remote", c.remote_address)
            ∷ (codes "state", c.state)
            ∷ [])
          [];
    platform = platform;
    host = hostname;
  }
  connection_event now (closed c) = record (blank_event now) {
    category = network;
    type = network_connection_closed;
    source = codes "network";
    target = c.remote_address;
    summary =
        codes "Connection closed: "
        ++ c.protocol
        ++ codes " "
        ++ c.local_address
        ++ codes " -> "
        ++ c.remote_address;
    attributes =
        insert_all
          ((codes "protocol", c.protocol)
            ∷ (codes "local", c.local_address)
            ∷ (codes "remote", c.remote_address)
            ∷ [])
          [];
    platform = platform;
    host = hostname;
  }

  -- The events between two scans.
  unfoldable pub connection_events :
      (ℕ → Timestamp) → List NetworkConnection → List NetworkConnection → List Event
  unfolding rendered connection_event others
  connection_events clock previous_copy current = rendered connection_event clock 0 (
      map opened (others (map make_key previous_copy) current)
      ++ map closed (others (map make_key current) previous_copy))

  unfoldable pub tick :
      (ℕ → Timestamp) → (Text → Option (List Text)) → NetworkMonitor → NetworkMonitor
  unfolding snapshot_connections connection_events emit_all
  tick clock files m =
      let current = snapshot_connections files in
      if m.first_scan
      then record m { previous_connections = current; first_scan = false }
      else record m {
        base = emit_all (connection_events clock m.previous_connections current) m.base;
        previous_connections = current;
      }
