-- ===== src/Tests/MonitorsTests.antt =====
-- A monitor with one callback, environments, packages and processes that it finds.
use change_of_system.Base.{
  ℕ, ◌+◌, ◌≡◌, refl, map, ◌++◌, true, false, List, [], ◌∷◌, Option, none, if◌then◌else◌, some, Text,
  codes, lookup, insert, text_key, nat_key, text_beq, text_less, contains, find_text, starts_with,
  arith,
}
use change_of_system.Base.Int.{pos}
use change_of_system.Event.{Timestamp}
use change_of_system.Monitor.{Monitor}
use change_of_system.Monitors.Environment.{
  EnvironmentMonitor, new_environment_monitor, snapshot_environment,
}
use change_of_system.Monitors.Environment.Runs.{
  polling, watching, called, called_all, copy, first_state, called_all-poll,
}
use change_of_system.Monitors.Packages
use change_of_system.Monitors.Packages.{
  PackageInfo, PackageMonitor, apt, snapshot_packages, detect_package_manager, on_start,
}
use change_of_system.Monitors.Packages.Failures.{
  no_pipe, seen, removed, installed, poll-poll-no_pipe,
}
use change_of_system.Monitors.Words.{words_from}
use change_of_system.Monitors.Network.{snapshot_connections}
use change_of_system.Monitors.Processes.{ProcessInfo, ProcessMonitor, by_pid, tick}
use change_of_system.Monitors.Processes.Ticks.{tick-same_pids}

abbrev watched : Monitor
watched = record {
  name = codes "environment";
  is_available = true;
  starts_well = true;
  stops_well = true;
  running = true;
  use_native_events = true;
  poll_interval_ms = pos 1000;
  callbacks = 7 ∷ [];
  hooks = [];
  delivered = [];
}

abbrev variables : EnvironmentMonitor
variables = new_environment_monitor watched

abbrev clock : ℕ → Timestamp
clock i = 1700000000000000000 + i

abbrev before : List Text
before = codes "HOME=/root" ∷ codes "PATH=/bin" ∷ codes "EDITOR=vi" ∷ []

abbrev after : List Text
after = codes "PATH=/usr/bin" ∷ codes "EDITOR=vi" ∷ []

variables_before :
    snapshot_environment variables before
    ≡ (codes "HOME", codes "/root") ∷ (codes "PATH", codes "/bin") ∷ []
unfolding snapshot_environment contains insert find_text starts_with text_beq text_less
variables_before = refl

called_all-poll_example :
    lookup (codes "PATH") (
      copy (
        called
          (polling clock after)
          (called_all (polling clock before ∷ watching [] ∷ []) (first_state variables))))
    ≡ lookup (codes "PATH") (
        snapshot_environment
          (called_all (polling clock before ∷ watching [] ∷ []) (first_state variables)).monitor
          after)
called_all-poll_example =
    called_all-poll 7 (polling clock before ∷ watching [] ∷ []) clock after variables (codes "PATH")
      refl refl

abbrev packages : PackageMonitor
packages = record { base = watched; package_manager = apt }

abbrev vim : PackageInfo
vim = record { name = codes "vim"; version = codes "9.1"; architecture = codes "amd64" }

abbrev listing : Text → Option (List Text)
listing command = some (codes "vim 9.1  amd64" ∷ codes "broken" ∷ [])

packages_listed : snapshot_packages listing packages ≡ (codes "vim", vim) ∷ []
unfolding snapshot_packages words_from insert
packages_listed = refl

detected_apt : detect_package_manager (λ path. text_beq path (codes "/bin/apt")) ≡ apt
unfolding detect_package_manager text_beq
detected_apt = refl

poll-poll-no_pipe_example :
    seen
      (Packages.poll clock listing
        (Packages.poll clock no_pipe ((codes "vim", vim) ∷ []) packages).1
        (Packages.poll clock no_pipe ((codes "vim", vim) ∷ []) packages).0).0
    ≡ (seen packages ++ map removed ((codes "vim", vim) ∷ []))
      ++ map installed (snapshot_packages listing packages)
poll-poll-no_pipe_example =
    poll-poll-no_pipe 7 clock clock listing ((codes "vim", vim) ∷ []) packages refl

abbrev shell : ProcessInfo
shell = record { pid = 42; name = codes "sh"; command_line = codes "sh "; memory_bytes = pos 4096 }

abbrev editor : ProcessInfo
editor = record shell { name = codes "vim"; command_line = codes "vim " }

abbrev processes : ProcessMonitor
processes = record { base = watched; previous = (42, shell) ∷ []; first_scan = false }

tick-same_pids_example :
    (tick (codes "linux") (codes "box") clock (editor ∷ []) processes).base ≡ processes.base
unfolding by_pid lookup insert
tick-same_pids_example =
    tick-same_pids (codes "linux") (codes "box") clock (editor ∷ []) processes
      (λ pid seen. ground (arith, seen)) (λ pid seen. ground (arith, seen))

abbrev proc_files : Text → Option (List Text)
proc_files path =
    if text_beq path (codes "/proc/net/udp")
    then some
        (codes "sl local rem st" ∷ codes "  0: 0100007F:0035 00000000:0000 07 x" ∷ codes "1:" ∷ [])
    else none

connections_found :
    snapshot_connections proc_files
    ≡ record {
      protocol = codes "udp";
      local_address = codes "0100007F:0035";
      remote_address = codes "00000000:0000";
      state = codes "07";
    }
      ∷ []
unfolding snapshot_connections words_from text_beq
connections_found = refl
