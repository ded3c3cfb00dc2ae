-- ===== src/Storage/File/Pruning.antt =====
-- Pruning keeps the last lines of the log.
use mathlib.Core.Path.{subst}
use change_of_system.Base.{
  ℕ, ◌+◌, ◌-◌, ◌≤◌, ◌≡◌, refl, sym, ap, ◌∙◌, Bool, true, false, some, List, [], Text, text_key,
  text_beq_iff, lookup, lookup-insert_self, insert, length, length-drop, drop, value_or, Bool-cases,
  inl, inr, arith,
}
use change_of_system.Base.Int.{ℤ, pos, pos_part, neg_part, leb_ℤ}
use change_of_system.Storage.Codec.Lines.{Line}
use change_of_system.Storage.Disk.{Files, full_lines, unlines, rename, open_stream, touch}
use change_of_system.Storage.File.{FileStorage, contents, prune, prune_file, prune_path, close}
use change_of_system.Storage.File.Backups.{lookup-rename}
use change_of_system.Storage.File.Log.{Holds, full_lines-unlines, All-drop}

-- The log behind a pruning.
abbrev pub log_prune : ℕ → List Text → List Text
log_prune n log = drop (length log - n) log

-- What the renamed temporary file leaves under the path.
abbrev replaced_files : Text → Text → Files → Files
replaced_files path kept files = rename (prune_path path) path (insert (prune_path path) kept files)

lookup-replaced :
    (path kept : Text) (files : Files) → lookup path (replaced_files path kept files) ≡ some kept
lookup-replaced path kept files = ground (
  arith,
  lookup-rename path (prune_path path) path (insert (prune_path path) kept files),
  lookup-insert_self (prune_path path) kept files,
  text_beq_iff path path,
)

abbrev replaced : ℕ → Text → FileStorage → FileStorage
replaced n kept s =
    let files = replaced_files s.path kept s.files in
    record s {
      files = insert s.path (value_or [] (lookup s.path files)) files;
      file = record { on_file = some s.path; good = true };
      bytes_written = length kept;
      event_count = pos n;
    }

-- The number of lines that pruning passes over.
abbrev passed_over : ℤ → ℕ → ℕ
passed_over events n = (pos_part events + neg_part (pos n)) - (pos_part (pos n) + neg_part events)

prune-replaced :
    (writable : Text → Bool) (n : ℕ) (text : Text) (s : FileStorage)
    → leb_ℤ s.event_count (pos n) ≡ false
    → contents s ≡ some text
    → writable s.path ≡ true
    → writable (prune_path s.path) ≡ true
    → prune writable (pos n) s
      ≡ replaced n (unlines (drop (passed_over s.event_count n) (full_lines text))) s
unfolding prune prune_file close open_stream touch
prune-replaced writable n text s many held may may_temporary =
    rw many (rw held (rw may_temporary (rw may refl)))

prune-idle :
    (writable : Text → Bool) (n : ℕ) (s : FileStorage)
    → leb_ℤ s.event_count (pos n) ≡ true
    → prune writable (pos n) s ≡ s
unfolding prune
prune-idle writable n s few = rw few refl

-- Pruning to a number of events keeps that many lines of the log, the last ones, where the file and
-- the temporary one may be written.
pub prune-Holds :
    (writable : Text → Bool) (n : ℕ) (s : FileStorage) (log : List Text)
    → Holds s log
    → writable s.path ≡ true
    → writable (prune_path s.path) ≡ true
    → Holds (prune writable (pos n) s) (log_prune n log)
prune-Holds writable n s log h may may_temporary = elim (Bool-cases (leb_ℤ s.event_count (pos n))) [
  | inl few ↦
      let all : length log - n ≡ 0 = ground (arith, few, h.events) in
      rw (prune-idle writable n s few) (rw all h)
  | inr many ↦
      let few : n ≤ length log = ground (arith, many, h.events) in
      let kept : drop (passed_over s.event_count n) (full_lines (unlines log)) ≡ log_prune n log =
        ap (λ e. drop (passed_over e n) (full_lines (unlines log))) h.events
        ∙ ap (drop (passed_over (pos (length log)) n)) (full_lines-unlines log h.each_line)
        ∙ ap (λ k. drop k log) (omega arith) in
      let text : Text = unlines (log_prune n log) in
      subst (λ t. Holds t (log_prune n log))
        (sym (
          prune-replaced writable n (unlines log) s many h.text may may_temporary
          ∙ ap (λ l. replaced n (unlines l) s) kept))
        (record {
          on_path = refl;
          text =
              lookup-insert_self s.path
                (value_or [] (lookup s.path (replaced_files s.path text s.files)))
                (replaced_files s.path text s.files)
              ∙ ap (λ o. some (value_or [] o)) (lookup-replaced s.path text s.files);
          each_line = All-drop Line (length log - n) log h.each_line;
          bytes = refl;
          events = ap pos (ground (arith, few, length-drop (length log - n) log));
        })
]
