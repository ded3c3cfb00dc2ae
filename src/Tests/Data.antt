-- ===== src/Tests/Data.antt =====
-- Events, and a regular expression engine that looks for a literal text.
use change_of_system.Base.{[], ◌∷◌, some, Text, codes, has_text}
use change_of_system.Event.{Event, filesystem, file_modified}
use change_of_system.Regex.{Regex}

abbrev pub literal : Regex
literal = record { Pattern = Text; compile = λ p. some p; search = λ text p. has_text text p }

abbrev pub shadow_event : Event
shadow_event = record {
  id = 1;
  timestamp = 1700000000000000000;
  category = filesystem;
  type = file_modified;
  source = codes "vim";
  target = codes "/etc/shadow";
  attributes = (codes "mode", codes "0640") ∷ [];
  summary = codes "modified";
  host = codes "host";
  platform = codes "linux";
}
