-- ===== src/Tests/StorageTests.antt =====
-- A concrete event as a line and back.
use change_of_system.Base.{◌≡◌, refl, codes, contains, insert, decimal, digits_onto, arith}
use change_of_system.Event.{to_unix_ms, category_name, type_name}
use change_of_system.Config.Store.{insert_all}
use change_of_system.Storage.Codec.{serialize_event, parse_event, attrs_onto}
use change_of_system.Storage.Codec.RoundTrip.{Storable, parse_event-serialize_event}
use change_of_system.Tests.Data.{shadow_event}

line :
    serialize_event shadow_event
    ≡ codes
        "1700000000000\tfilesystem\tfile_modified\tvim\t/etc/shadow\thost\tlinux\tmode=0640\tmodified"
unfolding serialize_event attrs_onto to_unix_ms category_name type_name decimal digits_onto
line = refl

pub shadow-Storable : Storable shadow_event
unfolding contains attrs_onto to_unix_ms insert_all insert
shadow-Storable = record {
  in_time = omega arith;
  source = refl;
  target = refl;
  host = refl;
  platform = refl;
  summary = refl;
  summary_line = refl;
  attributes = refl;
  attributes_line = refl;
  plain = (record { named = refl; no_equals = refl; no_bar = refl; no_bar_value = refl }, tt);
  ordered = refl;
}

parse_event-serialize_event_example :
    parse_event 5 (serialize_event shadow_event) ≡ record shadow_event { id = 0 }
unfolding to_unix_ms
parse_event-serialize_event_example = parse_event-serialize_event 5 shadow_event shadow-Storable
