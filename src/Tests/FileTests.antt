-- ===== src/Tests/FileTests.antt =====
-- A storage with a file, a backup and one event.
use change_of_system.Base.{
  length, value_or, ◌<◌, ℕ, ◌<◌, ◌≡◌, ◌≢◌, refl, Bool, true, some, List, [], ◌∷◌, Text, text_key,
  text_beq, codes, lookup, suc, ltb, if◌then◌else◌, select, take, drop, contains, decimal, arith,
}
use change_of_system.Base.Int.{pos}
use change_of_system.Event.{to_unix_ms, category_name, type_name}
use change_of_system.Storage.Codec.{serialize_event}
use change_of_system.Storage.Codec.Lines.{OneLine}
use change_of_system.Storage.Disk.{unlines}
use change_of_system.Storage.File.{
  configure_rotation, contents, FileStorage, QueryFilter, new_storage, open_storage, insert_event,
  insert_batch, maybe_rotate, query, iterate, accepts, backup,
}
use change_of_system.Storage.File.Rotation.{Due, maybe_rotate-versions}
use change_of_system.Storage.File.Backups.{version}
use change_of_system.Storage.File.Log.{Holds, file-insert_event}
use change_of_system.Storage.Codec.Lines.{serialize_event-Line}
use change_of_system.Storage.File.Queries.{query-page}
use change_of_system.Storage.File.Opening.{open_storage-Holds}
use change_of_system.Storage.File.Runs.{
  Implements, Call, called_all, logged_all, called_all-Implements,
}
use change_of_system.Storage.File.ReadBack.{iterate-insert_batch}
use change_of_system.Tests.Data.{shadow_event}
use change_of_system.Tests.StorageTests.{shadow-Storable}

abbrev all_writable : Text → Bool
all_writable _ = true

abbrev path : Text
path = codes "/e"

shadow-OneLine : OneLine shadow_event
unfolding contains
shadow-OneLine = record { source = refl; target = refl; host = refl; platform = refl }

-- Three events, of which the query passes over one and returns one.
abbrev three_lines : FileStorage
three_lines =
    record (new_storage (
      (
        path,
        unlines (
            serialize_event shadow_event
            ∷ serialize_event shadow_event
            ∷ serialize_event shadow_event
            ∷ []),
      )
      ∷ [])) { path = path }

abbrev second : QueryFilter
second = record {
  from_unix_ms = pos 5;
  to_unix_ms = pos 0;
  category = [];
  source = [];
  keyword = codes "mod";
  limit = pos 1;
  offset = pos 1;
}

query-page_example :
    query (λ i. i) second three_lines
    ≡ take 1 (drop 1 (select (accepts second) (iterate (λ i. i) three_lines)))
query-page_example = query-page (λ i. i) second three_lines

iterate-insert_batch_example :
    iterate
      (λ i. i)
      (insert_batch all_writable
        (shadow_event ∷ shadow_event ∷ [])
        (open_storage all_writable path (new_storage [])))
    ≡ record shadow_event { id = 0 } ∷ record shadow_event { id = 0 } ∷ []
unfolding to_unix_ms lookup
iterate-insert_batch_example =
    iterate-insert_batch all_writable (λ i. i) path [] (shadow_event ∷ shadow_event ∷ []) refl refl
      refl (shadow-Storable, (shadow-Storable, tt)) (shadow-OneLine, (shadow-OneLine, tt))

abbrev start : FileStorage
start = open_storage all_writable path (new_storage [])

start-Implements : Implements start (record { max_bytes = 0; max_files = 0; lines = [] })
unfolding open_storage lookup unlines
start-Implements = record {
  holds = open_storage-Holds all_writable path [] [] refl tt refl;
  max_bytes = refl;
  max_files = refl;
}

abbrev day : List Call
day =
    Call.insert shadow_event
    ∷ Call.insert shadow_event
    ∷ Call.prune_to 1
    ∷ Call.rotate_at (pos 10) (pos 2)
    ∷ Call.insert shadow_event
    ∷ Call.restart
    ∷ []

called_all-Implements_example :
    Implements
      (called_all all_writable day start)
      (logged_all day (record { max_bytes = 0; max_files = 0; lines = [] }))
unfolding open_storage
called_all-Implements_example =
    called_all-Implements all_writable day start
      (record { max_bytes = 0; max_files = 0; lines = [] }) start-Implements
      (shadow-OneLine, (shadow-OneLine, (tt, (tt, (shadow-OneLine, (tt, tt)))))) refl refl refl

-- A full file with one backup.
abbrev full_storage : FileStorage
full_storage = record {
  files = (path, codes "new") ∷ (backup path 1, codes "old") ∷ [];
  path = path;
  file = record { on_file = some path; good = true };
  bytes_written = 3;
  event_count = pos 1;
  rotate_max_bytes = 3;
  rotate_max_files = 2;
}

full_storage-Due : Due full_storage
full_storage-Due = record {
  limited = omega arith;
  kept = omega arith;
  reached = omega arith;
  named = refl;
}

maybe_rotate-versions_example :
    ((i : ℕ)
      → lookup (backup path (suc i)) (maybe_rotate all_writable full_storage).files ≡ (
          if ltb i 2
          then lookup (version path i) full_storage.files
          else lookup (backup path (suc i)) full_storage.files))
    × ((name : Text)
        → ((i : ℕ) → backup path i ≢ name)
        → lookup name (maybe_rotate all_writable full_storage).files
          ≡ (if text_beq path name then some [] else lookup name full_storage.files))
maybe_rotate-versions_example =
    maybe_rotate-versions all_writable full_storage full_storage-Due refl

-- An empty file that one event fills.
abbrev small : FileStorage
small = configure_rotation (pos 10) (pos 2) start

small-Holds : Holds small []
unfolding configure_rotation
small-Holds = record {
  on_path = start-Implements.holds.on_path;
  text = start-Implements.holds.text;
  each_line = tt;
  bytes = start-Implements.holds.bytes;
  events = start-Implements.holds.events;
}

file-insert_event_example :
    length (value_or [] (contents (insert_event all_writable shadow_event small))) < 10
unfolding configure_rotation open_storage
file-insert_event_example =
    file-insert_event all_writable shadow_event small [] small-Holds
      (serialize_event-Line shadow_event shadow-OneLine) (omega arith) (omega arith) refl refl

rotated : (insert_event all_writable shadow_event full_storage).bytes_written ≡ 0
unfolding insert_event maybe_rotate serialize_event decimal to_unix_ms category_name type_name
rotated = refl
