-- ===== src/Storage/File/Runs.antt =====
-- The storage between two restarts and across them is the log of its lines.
use change_of_system.Base.{
  ℕ, ◌≡◌, refl, sym, ap, ◌∙◌, Bool, true, false, Option, none, some, List, [], ◌∷◌, Text, text_key,
  value_or, nat_key, is_empty, All, if◌then◌else◌,
}
use change_of_system.Base.Int.{ℤ, pos, pos_part, leb_ℤ}
use change_of_system.Event.{Event}
use change_of_system.Storage.Codec.{serialize_event}
use change_of_system.Storage.Codec.Lines.{OneLine, serialize_event-Line}
use change_of_system.Storage.File.{
  FileStorage, contents, insert_event, prune, prune_path, configure_rotation, maybe_rotate,
  prune_file, is_open, pruned, new_storage, open_storage,
}
use change_of_system.Storage.Disk.{Files}
use change_of_system.Storage.File.Log.{Holds, log_insert, insert_event-Holds}
use change_of_system.Storage.File.Opening.{open_storage-Holds}
use change_of_system.Storage.File.Pruning.{log_prune, prune-Holds}

-- Calls of an open storage. `restart` is what a new process does with its files: a new object opens
-- the path. Closing, opening an open storage once more and pruning to a negative number are not among
-- them.
pub data Call : Type 0 where
  insert : Event → Call
  rotate_at : ℤ → ℤ → Call
  prune_to : ℕ → Call
  restart : Call

abbrev pub called : (Text → Bool) → Call → FileStorage → FileStorage
called writable (insert event) s = insert_event writable event s
called writable (rotate_at max_bytes max_files) s = configure_rotation max_bytes max_files s
called writable (prune_to n) s = prune writable (pos n) s
called writable restart s = open_storage writable s.path (new_storage s.files)

-- What the storage promises: its limits and its lines.
pub record Log : Type 0 where
  pub max_bytes : ℕ
  pub max_files : ℕ
  pub lines : List Text

abbrev pub logged : Call → Log → Log
logged (insert event) l = record l {
  lines = log_insert l.max_bytes l.max_files (serialize_event event) l.lines;
}
logged (rotate_at max_bytes max_files) l = record l {
  max_bytes = pos_part max_bytes;
  max_files = pos_part max_files;
}
logged (prune_to n) l = record l { lines = log_prune n l.lines }
logged restart l = record l { max_bytes = 0; max_files = 0 }

abbrev pub called_all : (Text → Bool) → List Call → FileStorage → FileStorage
called_all writable [] s = s
called_all writable (c ∷ cs) s = called_all writable cs (called writable c s)

abbrev pub logged_all : List Call → Log → Log
logged_all [] l = l
logged_all (c ∷ cs) l = logged_all cs (logged c l)

abbrev pub CallOneLine : Call → Type 0
CallOneLine (insert event) = OneLine event
CallOneLine _ = Unit

-- The storage is the log `l`.
pub record Implements (s : FileStorage) (l : Log) : Type 0 where
  pub holds : Holds s l.lines
  pub max_bytes : s.rotate_max_bytes ≡ l.max_bytes
  pub max_files : s.rotate_max_files ≡ l.max_files

-- What inserting and pruning leave as it is.
pub record Settings : Type 0 where
  pub path : Text
  pub max_bytes : ℕ
  pub max_files : ℕ

abbrev pub settings : FileStorage → Settings
settings s = record {
  path = s.path;
  max_bytes = s.rotate_max_bytes;
  max_files = s.rotate_max_files;
}

settings-if :
    (b : Bool) (x y : FileStorage) (k : Settings)
    → settings x ≡ k
    → settings y ≡ k
    → settings (if b then x else y) ≡ k
settings-if true x y k h g = h
settings-if false x y k h g = g

pub insert_event-settings :
    (writable : Text → Bool) (event : Event) (s : FileStorage)
    → settings (insert_event writable event s) ≡ settings s
unfolding insert_event maybe_rotate
insert_event-settings writable event s =
    settings-if (is_open s) _ s (settings s) (settings-if _ _ _ (settings s) refl refl) refl

pruned-settings :
    (writable : Text → Bool) (n : ℤ) (text : Option Text) (s : FileStorage)
    → settings (pruned writable n text s) ≡ settings s
unfolding prune_file
pruned-settings writable n none s = refl
pruned-settings writable n (some text) s =
    settings-if (writable (prune_path s.path)) _ s (settings s) refl refl

prune-settings :
    (writable : Text → Bool) (n : ℤ) (s : FileStorage) → settings (prune writable n s) ≡ settings s
unfolding prune
prune-settings writable n s =
    settings-if (leb_ℤ s.event_count n) s _ (settings s) refl
      (pruned-settings writable n (contents s) s)

pub open_storage-settings :
    (writable : Text → Bool) (path : Text) (files : Files)
    → settings (open_storage writable path (new_storage files))
      ≡ record { path = path; max_bytes = 0; max_files = 0 }
unfolding open_storage
open_storage-settings writable path files =
    settings-if _ _ _ (record { path = path; max_bytes = 0; max_files = 0 }) refl refl

called-Implements :
    (writable : Text → Bool) (c : Call) (s : FileStorage) (l : Log)
    → Implements s l
    → CallOneLine c
    → is_empty s.path ≡ false
    → writable s.path ≡ true
    → writable (prune_path s.path) ≡ true
    → Implements (called writable c s) (logged c l) × ((called writable c s).path ≡ s.path)
unfolding configure_rotation
called-Implements writable (insert event) s l h v named may may_temporary =
    let same : settings (insert_event writable event s) ≡ settings s =
      insert_event-settings writable event s in
    (
      record {
        holds = rw (sym h.max_bytes) (
            rw (sym h.max_files) (
              insert_event-Holds writable event s l.lines h.holds (serialize_event-Line event v)
                named may));
        max_bytes = ap (λ k. k.max_bytes) same ∙ h.max_bytes;
        max_files = ap (λ k. k.max_files) same ∙ h.max_files;
      },
      ap (λ k. k.path) same,
    )
called-Implements writable (rotate_at max_bytes max_files) s l h v named may may_temporary = (
  record {
    holds = record {
      on_path = h.holds.on_path;
      text = h.holds.text;
      each_line = h.holds.each_line;
      bytes = h.holds.bytes;
      events = h.holds.events;
    };
    max_bytes = refl;
    max_files = refl;
  },
  refl,
)
called-Implements writable (prune_to n) s l h v named may may_temporary =
    let same : settings (prune writable (pos n) s) ≡ settings s =
      prune-settings writable (pos n) s in
    (
      record {
        holds = prune-Holds writable n s l.lines h.holds may may_temporary;
        max_bytes = ap (λ k. k.max_bytes) same ∙ h.max_bytes;
        max_files = ap (λ k. k.max_files) same ∙ h.max_files;
      },
      ap (λ k. k.path) same,
    )
called-Implements writable restart s l h v named may may_temporary = (
  record {
    holds =
        open_storage-Holds writable s.path s.files l.lines (ap (value_or []) h.holds.text)
          h.holds.each_line may;
    max_bytes = ap (λ k. k.max_bytes) (open_storage-settings writable s.path s.files);
    max_files = ap (λ k. k.max_files) (open_storage-settings writable s.path s.files);
  },
  ap (λ k. k.path) (open_storage-settings writable s.path s.files),
)

-- Under insertions, changes of the rotation, prunings to numbers that are not negative and restarts
-- of the process, in any order and number, an open storage implements the log of its lines: its file
-- holds the lines of the log, the count is their number and the bytes are their length. The path is
-- not empty, it and the temporary file may be written, and the inserted events have no end of line in
-- their source, target, host and platform.
pub called_all-Implements :
    (writable : Text → Bool) (cs : List Call) (s : FileStorage) (l : Log)
    → Implements s l
    → All CallOneLine cs
    → is_empty s.path ≡ false
    → writable s.path ≡ true
    → writable (prune_path s.path) ≡ true
    → Implements (called_all writable cs s) (logged_all cs l)
called_all-Implements writable [] s l h vs named may may_temporary = h
called_all-Implements writable (c ∷ cs) s l h (v, vs) named may may_temporary =
    let (next, same) = called-Implements writable c s l h v named may may_temporary in
    called_all-Implements writable cs (called writable c s) (logged c l) next vs
      (ap is_empty same ∙ named) (ap writable same ∙ may)
      (ap (λ p. writable (prune_path p)) same ∙ may_temporary)
