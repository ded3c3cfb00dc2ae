-- ===== src/Storage/File.antt =====
-- `FileStorage`: the events of a file of lines, its counters, its rotation, its pruning and its
-- queries. `writable` says which names the operating system lets the process write.
pub mod Queries
pub mod Backups
pub mod Rotation
pub mod Log
pub mod Pruning
pub mod Opening
pub mod Runs
pub mod ReadBack
use change_of_system.Base.{
  ℕ, zero, suc, ◌+◌, ◌-◌, Bool, true, false, not, ◌&&◌, ◌||◌, Option, none, some, List, [], ◌∷◌,
  ◌++◌, Text, text_key, lookup, insert, erase, is_empty, length, drop, ltb, decimal, codes,
  value_or, has_text, if◌then◌else◌,
}
use change_of_system.Base.Int.{ℤ, pos, negsuc, pos_part, neg_part, ltb_ℤ, leb_ℤ}
use change_of_system.Event.{Event, Timestamp, to_unix_ms}
use change_of_system.Storage.Codec.{serialize_event, parse_event}
use change_of_system.Storage.Disk.{
  Files, Stream, closed, is_some, open_stream, close_stream, touch, write, rename, full_lines,
  unlines,
}

pub record QueryFilter : Type 0 where
  pub from_unix_ms : ℤ
  pub to_unix_ms : ℤ
  pub category : Text
  pub source : Text
  pub keyword : Text
  pub limit : ℤ
  pub offset : ℤ

-- The object and the files it works on.
pub record FileStorage : Type 0 where
  pub files : Files
  pub path : Text
  pub file : Stream
  pub bytes_written : ℕ
  pub event_count : ℤ
  pub rotate_max_bytes : ℕ
  pub rotate_max_files : ℕ

abbrev pub new_storage : Files → FileStorage
new_storage disk = record {
  files = disk;
  path = [];
  file = closed;
  bytes_written = 0;
  event_count = pos 0;
  rotate_max_bytes = 0;
  rotate_max_files = 0;
}

abbrev pub is_open : FileStorage → Bool
is_open s = is_some s.file.on_file

-- `++event_count_`.
abbrev pub next_count : ℤ → ℤ
next_count (pos n) = pos (suc n)
next_count (negsuc zero) = pos 0
next_count (negsuc (suc n)) = negsuc n

-- The contents of the file at the path of the storage.
abbrev pub contents : FileStorage → Option Text
contents s = lookup s.path s.files

-- The counters of `open`, taken from the file.
abbrev counted : FileStorage → FileStorage
counted s =
    let text = value_or [] (contents s) in
    record s { bytes_written = length text; event_count = pos (length (full_lines text)) }

unfoldable pub configure_rotation : ℤ → ℤ → FileStorage → FileStorage
configure_rotation max_bytes max_files s = record s {
  rotate_max_bytes = pos_part max_bytes;
  rotate_max_files = pos_part max_files;
}

unfoldable pub close : FileStorage → FileStorage
close s = record s { file = close_stream s.file }

abbrev pub count : FileStorage → ℤ
count s = s.event_count

-- The name of the backup with the number `i`.
unfoldable pub backup : Text → ℕ → Text
backup path i = path ++ codes "." ++ decimal i

-- The loop that moves the backups 1 to `i` up by one, from the last one on.
unfoldable pub shift_backups : Text → ℕ → Files → Files
unfolding rename
shift_backups path zero files = files
shift_backups path (suc i) files =
    shift_backups path i (rename (backup path (suc i)) (backup path (suc (suc i))) files)

-- The files of a rotation before the fresh one is opened.
unfoldable pub rotated_files : Text → ℕ → Files → Files
rotated_files path max_files files =
    rename path (backup path 1)
      (shift_backups path (max_files - 1) (erase (backup path max_files) files))

-- `f` is applied to each event of the file, where the n-th reading of the clock is `clock n`.
unfoldable pub events_from : (ℕ → Timestamp) → ℕ → List Text → List Event
events_from clock i [] = []
events_from clock i (line ∷ rest) = parse_event (clock i) line ∷ events_from clock (suc i) rest

abbrev pub file_events : (ℕ → Timestamp) → Option Text → List Event
file_events clock none = []
file_events clock (some text) = events_from clock 0 (full_lines text)

-- The events that `iterate` passes to its callback, in this order.
unfoldable pub iterate : (ℕ → Timestamp) → FileStorage → List Event
unfolding events_from
iterate clock s = file_events clock (contents s)

-- The `continue` lines of the loop of `query`.
unfoldable pub accepts : QueryFilter → Event → Bool
accepts filter ev =
    let ms = pos (to_unix_ms ev.timestamp) in
    not (ltb_ℤ (pos 0) filter.from_unix_ms && ltb_ℤ ms filter.from_unix_ms)
    && not (ltb_ℤ (pos 0) filter.to_unix_ms && ltb_ℤ filter.to_unix_ms ms)
    && not (
        not (is_empty filter.keyword)
        && not (has_text ev.summary filter.keyword)
        && not (has_text ev.target filter.keyword))

-- The rest of the loop of `query`, with the numbers of events seen and pushed.
unfoldable pub query_from : QueryFilter → ℕ → ℕ → List Event → List Event
query_from filter seen pushed [] = []
query_from filter seen pushed (ev ∷ rest) =
    let accepted = accepts filter ev in
    let skipped = ltb_ℤ (pos seen) filter.offset in
    let found =
      query_from filter (if accepted then suc seen else seen)
        (if accepted && not skipped then suc pushed else pushed) rest in
    if not accepted || skipped
    then found
    else ev ∷ (if leb_ℤ filter.limit (pos (suc pushed)) then [] else found)

unfoldable pub query : (ℕ → Timestamp) → QueryFilter → FileStorage → List Event
unfolding iterate query_from
query clock filter s = query_from filter 0 0 (iterate clock s)

-- The lines that `prune` writes into its temporary file.
abbrev kept_lines : ℕ → Text → List Text
kept_lines skip text = drop skip (full_lines text)

abbrev pub prune_path : Text → Text
prune_path path = path ++ codes ".prune.tmp"

module _ (writable : Text → Bool) where
  unfoldable pub open_storage : Text → FileStorage → FileStorage
  unfolding open_stream touch
  open_storage connection_string s =
      let was_open = is_open s in
      let opened = record s {
        path = connection_string;
        file = open_stream (writable connection_string) connection_string s.file;
        files =
            if was_open
            then s.files
            else touch (writable connection_string) connection_string s.files;
      } in
      if is_open opened then counted opened else opened

  -- `file_.open(path_, std::ios::app)` on a stream that has been closed.
  abbrev reopen : FileStorage → FileStorage
  reopen s = record s {
    file = open_stream (writable s.path) s.path s.file;
    files = touch (writable s.path) s.path s.files;
  }

  -- `maybe_rotate_locked`.
  unfoldable pub maybe_rotate : FileStorage → FileStorage
  unfolding close rotated_files shift_backups rename backup open_stream touch
  maybe_rotate s =
      if not (ltb 0 s.rotate_max_bytes && ltb 0 s.rotate_max_files)
        || ltb s.bytes_written s.rotate_max_bytes
        || is_empty s.path
      then s
      else let moved_on = record (close s) {
        files = rotated_files s.path s.rotate_max_files s.files;
      } in
        record (reopen moved_on) { bytes_written = 0; event_count = pos 0 }

  -- `insert`.
  unfoldable pub insert_event : Event → FileStorage → FileStorage
  unfolding maybe_rotate write
  insert_event event s =
      let line = serialize_event event in
      if is_open s
      then maybe_rotate (record s {
        files = write s.file (line ++ codes "\n") s.files;
        bytes_written = s.bytes_written + (length line + 1);
        event_count = next_count s.event_count;
      })
      else s

  unfoldable pub insert_batch : List Event → FileStorage → FileStorage
  insert_batch [] s = s
  insert_batch (event ∷ rest) s = insert_batch rest (insert_event event s)

  -- `prune` where the file could be read and the temporary one written.
  unfoldable pub prune_file : ℤ → Text → FileStorage → FileStorage
  unfolding rename open_stream touch close
  prune_file max_events text s =
      let skip =
        (pos_part s.event_count + neg_part max_events)
        - (pos_part max_events + neg_part s.event_count) in
      let kept = unlines (kept_lines skip text) in
      let replaced = record (close s) {
        files = rename (prune_path s.path) s.path (insert (prune_path s.path) kept s.files);
      } in
      record (reopen replaced) { bytes_written = length kept; event_count = max_events }

  abbrev pub pruned : ℤ → Option Text → FileStorage → FileStorage
  pruned max_events none s = s
  pruned max_events (some text) s =
      let result = prune_file max_events text s in
      if writable (prune_path s.path) then result else s

  unfoldable pub prune : ℤ → FileStorage → FileStorage
  unfolding prune_file
  prune max_events s =
      if leb_ℤ s.event_count max_events then s else pruned max_events (contents s) s
