-- ===== src/Monitors/Packages.antt =====
-- src/monitor/package/package_monitor.h and package_monitor.cpp: `PackageMonitor`, in a build for
-- Linux. The thread that calls `poll` is the environment.
pub mod Failures
use change_of_system.Base.{
  ℕ, Bool, true, false, not, List, [], ◌∷◌, ◌++◌, Option, none, some, Text, codes, Dict, insert,
  is_empty, text_key, ◌==◌, if◌then◌else◌,
}
use change_of_system.Config.Store.{insert_all}
use change_of_system.Event.{Event, Timestamp, system, config_value_changed}
use change_of_system.Monitor.{Monitor, emit}
use change_of_system.Monitors.Changes.{
  Change, appeared, vanished, altered, changes, rendered, emit_all,
}
use change_of_system.Monitors.Words.{words_from}
use change_of_system.Storage.Codec.{blank_event}

pub record PackageInfo : Type 0 where
  pub name : Text
  pub version : Text
  pub architecture : Text

pub data PackageManager : Type 0 where
  unknown apt dnf yum pacman zypper brew port : PackageManager

pub record PackageMonitor : Type 0 where
  pub base : Monitor
  pub package_manager : PackageManager

abbrev pub new_package_monitor : Monitor → PackageMonitor
new_package_monitor base = record { base = base; package_manager = unknown }

abbrev paths : List Text
paths =
    codes "/usr/bin/"
    ∷ codes "/usr/sbin/"
    ∷ codes "/bin/"
    ∷ codes "/sbin/"
    ∷ codes "/usr/local/bin/"
    ∷ codes "/usr/local/sbin/"
    ∷ codes "/opt/homebrew/bin/"
    ∷ []

-- `may_execute` stands for `access(path, X_OK) == 0`.
module _ (may_execute : Text → Bool) where
  abbrev exists_in : List Text → Text → Bool
  exists_in [] name = false
  exists_in (path ∷ rest) name =
      let later = exists_in rest name in if may_execute (path ++ name) then true else later

  unfoldable pub command_exists : Text → Bool
  command_exists name = exists_in paths name

  unfoldable pub detect_package_manager : PackageManager
  unfolding command_exists
  detect_package_manager =
      if command_exists (codes "apt")
      then apt
      else if command_exists (codes "dnf")
      then dnf
      else if command_exists (codes "yum")
      then yum
      else if command_exists (codes "pacman")
      then pacman
      else if command_exists (codes "zypper")
      then zypper
      else unknown

  abbrev is_known : PackageManager → Bool
  is_known unknown = false
  is_known apt = true
  is_known dnf = true
  is_known yum = true
  is_known pacman = true
  is_known zypper = true
  is_known brew = true
  is_known port = true

  -- Whether the thread is started.
  unfoldable pub on_start : PackageMonitor → Bool × PackageMonitor
  unfolding detect_package_manager
  on_start m =
      (is_known detect_package_manager, record m { package_manager = detect_package_manager })

abbrev rpm_query : Text
rpm_query = codes "rpm -qa --queryformat '%{NAME} %{VERSION}-%{RELEASE} %{ARCH}\\n' 2>/dev/null"

abbrev pub command_of : PackageManager → Option Text
command_of unknown = none
command_of apt =
    some (codes "dpkg-query -W -f='${Package} ${Version} ${Architecture}\\n' 2>/dev/null")
command_of dnf = some rpm_query
command_of yum = some rpm_query
command_of pacman = some (codes "pacman -Q 2>/dev/null | awk '{print $1, $2, \"x86_64\"}'")
command_of zypper = some rpm_query
command_of brew = some (codes "brew list --versions 2>/dev/null")
command_of port =
    some (codes "port installed 2>/dev/null | tail -n +3 | awk '{print $1, $2, \"universal\"}'")

abbrev pub put_package : List Text → Dict Text PackageInfo → Dict Text PackageInfo
put_package [] result = result
put_package (a ∷ []) result = result
put_package (a ∷ b ∷ []) result = result
put_package (a ∷ b ∷ c ∷ rest) result =
    insert a (record { name = a; version = b; architecture = c }) result

-- The texts are what `fgets` puts into the buffer, one call after the other.
unfoldable pub packages_from : List Text → Dict Text PackageInfo → Dict Text PackageInfo
unfolding words_from
packages_from [] result = result
packages_from (buffer ∷ rest) result =
    packages_from rest (put_package (words_from [] buffer) result)

-- `run` stands for `popen` and `fgets`: `none` if there is no pipe.
module _ (run : Text → Option (List Text)) where
  abbrev pub output_packages : Option (List Text) → Dict Text PackageInfo
  output_packages none = []
  output_packages (some buffers) = packages_from buffers []

  abbrev pub command_packages : Option Text → Dict Text PackageInfo
  command_packages none = []
  command_packages (some command) = output_packages (run command)

  unfoldable pub snapshot_packages : PackageMonitor → Dict Text PackageInfo
  unfolding packages_from
  snapshot_packages m = command_packages (command_of m.package_manager)

-- `it->second.version != info.version`.
abbrev pub version_differs : PackageInfo → PackageInfo → Bool
version_differs old new = not (old.version == new.version)

unfoldable pub package_event : Timestamp → Change Text PackageInfo → Event
unfolding insert_all
package_event now (appeared name info) = record (blank_event now) {
  category = system;
  type = config_value_changed;
  source = codes "package_monitor";
  target = name;
  summary = codes "Package installed: " ++ name ++ codes " " ++ info.version;
  attributes =
      insert_all
        ((codes "action", codes "install")
          ∷ (codes "version", info.version)
          ∷ (codes "architecture", info.architecture)
          ∷ [])
        [];
}
package_event now (vanished name info) = record (blank_event now) {
  category = system;
  type = config_value_changed;
  source = codes "package_monitor";
  target = name;
  summary = codes "Package removed: " ++ name ++ codes " " ++ info.version;
  attributes =
      insert_all ((codes "action", codes "remove") ∷ (codes "version", info.version) ∷ []) [];
}
package_event now (altered name old new) = record (blank_event now) {
  category = system;
  type = config_value_changed;
  source = codes "package_monitor";
  target = name;
  summary =
      codes "Package updated: " ++ name ++ codes " " ++ old.version ++ codes " -> " ++ new.version;
  attributes =
      insert_all
        ((codes "action", codes "update")
          ∷ (codes "old_version", old.version)
          ∷ (codes "new_version", new.version)
          ∷ [])
        [];
}

-- The last snapshot is a static variable of the function, which all monitors share.
unfoldable pub poll :
    (ℕ → Timestamp)
    → (Text → Option (List Text))
    → Dict Text PackageInfo
    → PackageMonitor
    → PackageMonitor × Dict Text PackageInfo
unfolding snapshot_packages emit_all rendered package_event changes
poll clock run last_snapshot m =
    let current = snapshot_packages run m in
    let events = rendered package_event clock 0 (changes version_differs last_snapshot current) in
    (record m { base = emit_all events m.base }, current)
