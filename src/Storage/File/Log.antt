-- ===== src/Storage/File/Log.antt =====
-- The storage implements a log of lines: inserting appends a line and may start afresh, pruning
-- keeps the last lines.
use change_of_system.Base.{
  ℕ, zero, suc, ◌+◌, ◌<◌, ◌≡◌, refl, sym, ap, ◌∙◌, Bool, true, false, not, ◌&&◌, ◌||◌, some, List,
  [], ◌∷◌, ◌++◌, Text, text_key, nat_key, lookup, lookup-insert_self, length, length-append, drop,
  ltb, leb, is_empty, select, codes, value_or, All, Bool-cases, inl, inr, arith, if◌then◌else◌,
}
use mathlib.Core.Path.{subst}
use mathlib.Core.List.{append_assoc}
use change_of_system.Base.Int.{pos}
use change_of_system.Event.{Event}
use change_of_system.Config.Codec.{lines}
use change_of_system.Config.Codec.RoundTrip.{lines-append}
use change_of_system.Storage.Codec.{serialize_event}
use change_of_system.Storage.Codec.Lines.{Line}
use change_of_system.Storage.Disk.{is_some, full_lines, unlines, write}
use change_of_system.Storage.File.{
  FileStorage, contents, insert_event, maybe_rotate, next_count, is_open,
}
use change_of_system.Storage.File.Rotation.{
  Due, fresh, maybe_rotate-Due, contents-maybe_rotate, bytes-insert_event,
}

-- The storage is open on its path, which holds the lines, and its counters are those of the lines.
pub record Holds (s : FileStorage) (log : List Text) : Type 0 where
  pub on_path : s.file ≡ record { on_file = some s.path; good = true }
  pub text : contents s ≡ some (unlines log)
  pub each_line : All Line log
  pub bytes : s.bytes_written ≡ length (unlines log)
  pub events : s.event_count ≡ pos (length log)

-- The log behind an insertion.
abbrev pub log_insert : ℕ → ℕ → Text → List Text → List Text
log_insert max_bytes max_files line log =
    if (ltb 0 max_bytes && ltb 0 max_files) && leb max_bytes (length (unlines (log ++ line ∷ [])))
    then []
    else log ++ line ∷ []

pub full_lines-unlines : (log : List Text) → All Line log → full_lines (unlines log) ≡ log
unfolding unlines lines
full_lines-unlines [] h = refl
full_lines-unlines (line ∷ log) ((one, full), h) =
    ap (select (λ line. not (is_empty line))) (lines-append line (unlines log) one)
    ∙ rw full (ap (λ r. line ∷ r) (full_lines-unlines log h))

unlines-snoc :
    (log : List Text) (line : Text)
    → unlines (log ++ line ∷ []) ≡ unlines log ++ (line ++ codes "\n")
unfolding unlines
unlines-snoc [] line = refl
unlines-snoc (first ∷ log) line =
    ap (λ r. first ++ b'\n' ∷ r) (unlines-snoc log line)
    ∙ sym (append_assoc first (b'\n' ∷ unlines log) (line ++ codes "\n"))

pub All-append : (P : Text → Type 0) (xs ys : List Text) → All P xs → All P ys → All P (xs ++ ys)
All-append P [] ys h k = k
All-append P (x ∷ xs) ys h k = (h.0, All-append P xs ys h.1 k)

pub All-drop : (P : Text → Type 0) (n : ℕ) (xs : List Text) → All P xs → All P (drop n xs)
All-drop P zero xs h = h
All-drop P (suc n) [] h = tt
All-drop P (suc n) (x ∷ xs) h = All-drop P n xs h.1

abbrev rotates : ℕ → ℕ → List Text → Bool
rotates max_bytes max_files log =
    (ltb 0 max_bytes && ltb 0 max_files) && leb max_bytes (length (unlines log))

abbrev appended : Text → FileStorage → FileStorage
appended line s = record s {
  files = write s.file (line ++ codes "\n") s.files;
  bytes_written = s.bytes_written + (length line + 1);
  event_count = next_count s.event_count;
}

write-on_path :
    (s : FileStorage) (text line : Text)
    → s.file ≡ record { on_file = some s.path; good = true }
    → contents s ≡ some text
    → lookup s.path (write s.file line s.files) ≡ some (text ++ line)
unfolding write
write-on_path s text line on held =
    ap (λ f. lookup s.path (write f line s.files)) on
    ∙ lookup-insert_self s.path (value_or [] (lookup s.path s.files) ++ line) s.files
    ∙ ap (λ o. some (value_or [] o ++ line)) held

appended-Holds :
    (line : Text) (s : FileStorage) (log : List Text)
    → Holds s log
    → Line line
    → Holds (appended line s) (log ++ line ∷ [])
appended-Holds line s log h full = record {
  on_path = h.on_path;
  text =
      write-on_path s (unlines log) (line ++ codes "\n") h.on_path h.text
      ∙ ap some (sym (unlines-snoc log line));
  each_line = All-append Line log (line ∷ []) h.each_line (full, tt);
  bytes = ground (
    arith,
    h.bytes,
    ap length (unlines-snoc log line),
    length-append (unlines log) (line ++ codes "\n"),
    length-append line (codes "\n"),
  );
  events = ap next_count h.events ∙ ap pos (ground (arith, length-append log (line ∷ [])));
}

maybe_rotate-idle :
    (writable : Text → Bool) (s : FileStorage)
    → (ltb 0 s.rotate_max_bytes && ltb 0 s.rotate_max_files)
        && leb s.rotate_max_bytes s.bytes_written
      ≡ false
    → maybe_rotate writable s ≡ s
unfolding maybe_rotate
maybe_rotate-idle writable s idle =
    let quiet : not (ltb 0 s.rotate_max_bytes && ltb 0 s.rotate_max_files)
          || ltb s.bytes_written s.rotate_max_bytes
          || is_empty s.path
        ≡ true =
      ground (arith, idle) in
    rw quiet refl

maybe_rotate-Holds :
    (writable : Text → Bool) (s : FileStorage) (log : List Text)
    → Holds s log
    → is_empty s.path ≡ false
    → writable s.path ≡ true
    → Holds
        (maybe_rotate writable s)
        (if rotates s.rotate_max_bytes s.rotate_max_files log then [] else log)
unfolding unlines
maybe_rotate-Holds writable s log h named may =
    elim (Bool-cases (rotates s.rotate_max_bytes s.rotate_max_files log)) [
      | inl fires ↦
          let due : Due s = record {
            limited = ground (arith, fires);
            kept = ground (arith, fires);
            reached = ground (arith, fires, h.bytes);
            named = named;
          } in
          let e : maybe_rotate writable s ≡ fresh s = maybe_rotate-Due writable s due may in
          rw fires (
            subst (λ t. Holds t []) (sym e)
              (record {
                on_path = refl;
                text =
                    sym (ap (λ t. lookup s.path t.files) e)
                    ∙ contents-maybe_rotate writable s due may;
                each_line = tt;
                bytes = refl;
                events = refl;
              }))
      | inr idle ↦ rw idle (rw (maybe_rotate-idle writable s (ground (arith, idle, h.bytes))) h)
    ]

insert_event-open :
    (writable : Text → Bool) (event : Event) (s : FileStorage)
    → is_open s ≡ true
    → insert_event writable event s ≡ maybe_rotate writable (appended (serialize_event event) s)
unfolding insert_event
insert_event-open writable event s on = rw on refl

-- Inserting an event whose line has no end of line in it inserts the line into the log, where the
-- storage has a path that may be written.
pub insert_event-Holds :
    (writable : Text → Bool) (event : Event) (s : FileStorage) (log : List Text)
    → Holds s log
    → Line (serialize_event event)
    → is_empty s.path ≡ false
    → writable s.path ≡ true
    → Holds
        (insert_event writable event s)
        (log_insert s.rotate_max_bytes s.rotate_max_files (serialize_event event) log)
insert_event-Holds writable event s log h line named may =
    subst
      (λ t. Holds t (log_insert s.rotate_max_bytes s.rotate_max_files (serialize_event event) log))
      (sym (insert_event-open writable event s (ap (λ f. is_some f.on_file) h.on_path)))
      (maybe_rotate-Holds writable (appended (serialize_event event) s)
        (log ++ serialize_event event ∷ []) (appended-Holds (serialize_event event) s log h line)
        named may)

-- Behind the insertion of an event the file of an open storage holds fewer bytes than its rotation
-- allows, where the rotation is on, the file holds whole lines before, the line of the event has no
-- end of line in it, and the storage has a path that may be written.
pub file-insert_event :
    (writable : Text → Bool) (event : Event) (s : FileStorage) (log : List Text)
    → Holds s log
    → Line (serialize_event event)
    → 0 < s.rotate_max_bytes
    → 0 < s.rotate_max_files
    → is_empty s.path ≡ false
    → writable s.path ≡ true
    → length (value_or [] (contents (insert_event writable event s))) < s.rotate_max_bytes
file-insert_event writable event s log h line bytes backups named may =
    let after = insert_event-Holds writable event s log h line named may in
    let few =
      bytes-insert_event writable event s (ap (λ f. is_some f.on_file) h.on_path) bytes backups
        named in
    ground (arith, few, after.bytes, ap (λ t. length (value_or [] t)) after.text)
