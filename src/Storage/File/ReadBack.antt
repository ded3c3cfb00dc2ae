-- ===== src/Storage/File/ReadBack.antt =====
-- The events of a file are read back.
use change_of_system.Base.{
  ℕ, suc, ◌*◌, ◌≡◌, refl, ap, ◌∙◌, Bool, true, false, none, List, [], ◌∷◌, ◌++◌, map, Text,
  text_key, value_or, nat_key, lookup, is_empty, All,
}
use change_of_system.Event.{Event, Timestamp, to_unix_ms}
use change_of_system.Storage.Codec.{serialize_event}
use change_of_system.Storage.Codec.Lines.{OneLine, serialize_event-Line}
use change_of_system.Storage.Codec.RoundTrip.{Storable, parse_event-serialize_event}
use change_of_system.Storage.File.{
  FileStorage, insert_event, insert_batch, iterate, events_from, file_events, new_storage,
  open_storage,
}
use change_of_system.Storage.Disk.{Files, unlines}
use change_of_system.Storage.File.Log.{Holds, log_insert, insert_event-Holds, full_lines-unlines}
use change_of_system.Storage.File.Opening.{open_storage-Holds}
use mathlib.Core.Path.{subst}
use change_of_system.Storage.File.Runs.{settings, insert_event-settings, open_storage-settings}
use mathlib.Core.List.{append-nil, append_assoc}

iterate-Holds :
    (clock : ℕ → Timestamp) (s : FileStorage) (log : List Text)
    → Holds s log
    → iterate clock s ≡ events_from clock 0 log
unfolding iterate
iterate-Holds clock s log h =
    ap (file_events clock) h.text ∙ ap (events_from clock 0) (full_lines-unlines log h.each_line)

-- The event that is read back from the line of an event.
abbrev pub stored : Event → Event
stored event = record event { id = 0; timestamp = to_unix_ms event.timestamp * 1000000 }

events_from-serialized :
    (clock : ℕ → Timestamp) (i : ℕ) (events : List Event)
    → All Storable events
    → events_from clock i (map serialize_event events) ≡ map stored events
unfolding events_from
events_from-serialized clock i [] h = refl
events_from-serialized clock i (e ∷ es) (h, hs) =
    ap (λ x. x ∷ events_from clock (suc i) (map serialize_event es))
      (parse_event-serialize_event (clock i) e h)
    ∙ ap (λ xs. stored e ∷ xs) (events_from-serialized clock (suc i) es hs)

insert_batch-Holds :
    (writable : Text → Bool) (events : List Event) (s : FileStorage) (log : List Text)
    → Holds s log
    → s.rotate_max_bytes ≡ 0
    → All OneLine events
    → is_empty s.path ≡ false
    → writable s.path ≡ true
    → Holds (insert_batch writable events s) (log ++ map serialize_event events)
unfolding insert_batch
insert_batch-Holds writable [] s log h off vs named may = rw (append-nil log) h
insert_batch-Holds writable (e ∷ es) s log h off (v, vs) named may =
    let line : Text = serialize_event e in
    let same : settings (insert_event writable e s) ≡ settings s =
      insert_event-settings writable e s in
    let inserted : Holds (insert_event writable e s) (log ++ line ∷ []) =
      subst (λ n. Holds (insert_event writable e s) (log_insert n s.rotate_max_files line log)) off
        (insert_event-Holds writable e s log h (serialize_event-Line e v) named may) in
    subst (Holds (insert_batch writable es (insert_event writable e s)))
      (append_assoc log (line ∷ []) (map serialize_event es))
      (insert_batch-Holds writable es (insert_event writable e s) (log ++ line ∷ []) inserted
        (ap (λ k. k.max_bytes) same ∙ off) vs (ap (λ k. is_empty k.path) same ∙ named)
        (ap (λ k. writable k.path) same ∙ may))

new_storage-file :
    (writable : Text → Bool) (path : Text) (files : Files)
    → lookup path files ≡ none
    → writable path ≡ true
    → Holds (open_storage writable path (new_storage files)) []
unfolding unlines
new_storage-file writable path files fresh may =
    open_storage-Holds writable path files [] (ap (value_or []) fresh) tt may

-- The events that are inserted into a new file are passed on by iterate in their order, each without
-- its id and with its time in milliseconds, whatever the clock reads. Each of them is one that a
-- line can hold and has no end of line in its source, target, host and platform; the path is not
-- empty, may be written and names no file yet.
pub iterate-insert_batch :
    (writable : Text → Bool) (clock : ℕ → Timestamp) (path : Text) (files : Files)
    (events : List Event)
    → is_empty path ≡ false
    → writable path ≡ true
    → lookup path files ≡ none
    → All Storable events
    → All OneLine events
    → iterate clock (insert_batch writable events (open_storage writable path (new_storage files)))
      ≡ map stored events
iterate-insert_batch writable clock path files events named may fresh vs ls =
    let s : FileStorage = open_storage writable path (new_storage files) in
    let same : settings s ≡ record { path = path; max_bytes = 0; max_files = 0 } =
      open_storage-settings writable path files in
    iterate-Holds clock (insert_batch writable events s) (map serialize_event events) (
      insert_batch-Holds writable events s [] (new_storage-file writable path files fresh may)
        (ap (λ k. k.max_bytes) same) ls (ap (λ k. is_empty k.path) same ∙ named)
        (ap (λ k. writable k.path) same ∙ may))
    ∙ events_from-serialized clock 0 events vs
