-- ===== src/Storage/File/Rotation.antt =====
-- When a rotation takes place and what it leaves.
use change_of_system.Base.{
  ℕ, suc, ◌≤◌, ◌<◌, ◌≡◌, ◌≢◌, refl, ap, ◌∙◌, Bool, true, false, some, [], Text, text_key, text_beq,
  text_beq_iff, ltb, lookup, insert, lookup-insert, value_or, is_empty, arith, if◌then◌else◌,
}
use change_of_system.Base.Int.{pos}
use change_of_system.Event.{Event}
use change_of_system.Storage.Disk.{Files, open_stream, touch}
use change_of_system.Storage.File.{
  FileStorage, backup, rotated_files, maybe_rotate, insert_event, close, is_open,
}
use change_of_system.Storage.File.Backups.{path_beq, other_path, version, rotated-versions}

-- When a rotation takes place.
pub record Due (s : FileStorage) : Type 0 where
  pub limited : 0 < s.rotate_max_bytes
  pub kept : 0 < s.rotate_max_files
  pub reached : s.rotate_max_bytes ≤ s.bytes_written
  pub named : is_empty s.path ≡ false

abbrev touched : FileStorage → Files → Files
touched s files = insert s.path (value_or [] (lookup s.path files)) files

-- The storage behind a rotation, with its empty file open.
abbrev pub fresh : FileStorage → FileStorage
fresh s = record s {
  files = touched s (rotated_files s.path s.rotate_max_files s.files);
  file = record { on_file = some s.path; good = true };
  bytes_written = 0;
  event_count = pos 0;
}

pub maybe_rotate-Due :
    (writable : Text → Bool) (s : FileStorage)
    → Due s
    → writable s.path ≡ true
    → maybe_rotate writable s ≡ fresh s
unfolding maybe_rotate open_stream touch close
maybe_rotate-Due writable s due may =
    let limited : ltb 0 s.rotate_max_bytes ≡ true = ground (arith, due.limited) in
    let kept : ltb 0 s.rotate_max_files ≡ true = ground (arith, due.kept) in
    let reached : ltb s.bytes_written s.rotate_max_bytes ≡ false = ground (arith, due.reached) in
    rw limited (rw kept (rw reached (rw due.named (rw may refl))))

-- A rotation that is due keeps the file of events as the first of its backups and each backup but
-- the last one as the next, leaves the other backups and every other file alone, and goes on with
-- an empty file, where the path may be written.
pub maybe_rotate-versions :
    (writable : Text → Bool) (s : FileStorage)
    → Due s
    → writable s.path ≡ true
    → ((i : ℕ)
        → lookup (backup s.path (suc i)) (maybe_rotate writable s).files ≡ (
            if ltb i s.rotate_max_files
            then lookup (version s.path i) s.files
            else lookup (backup s.path (suc i)) s.files))
      × ((name : Text)
          → ((i : ℕ) → backup s.path i ≢ name)
          → lookup name (maybe_rotate writable s).files
            ≡ (if text_beq s.path name then some [] else lookup name s.files))
maybe_rotate-versions writable s due may =
    let files : Files = rotated_files s.path s.rotate_max_files s.files in
    let (backups, others) = rotated-versions s.path s.rotate_max_files s.files due.kept in
    (
      λ i.
          ap (λ t. lookup (backup s.path (suc i)) t.files) (maybe_rotate-Due writable s due may)
          ∙ ground (
            arith,
            lookup-insert (backup s.path (suc i)) s.path (value_or [] (lookup s.path files)) files,
            other_path s.path (suc i),
            backups i,
          ),
      λ name other.
          ap (λ t. lookup name t.files) (maybe_rotate-Due writable s due may)
          ∙ ground (
            arith,
            lookup-insert name s.path (value_or [] (lookup s.path files)) files,
            others name other,
            others s.path
                (λ i e. cc (path_beq s.path i, (text_beq_iff (backup s.path i) s.path).1 e)),
            text_beq_iff s.path s.path,
          ),
    )

-- Inserting an event leaves fewer bytes in the file than the rotation allows, where the storage is
-- open and its rotation is on.
pub bytes-insert_event :
    (writable : Text → Bool) (event : Event) (s : FileStorage)
    → is_open s ≡ true
    → 0 < s.rotate_max_bytes
    → 0 < s.rotate_max_files
    → is_empty s.path ≡ false
    → (insert_event writable event s).bytes_written < s.rotate_max_bytes
unfolding insert_event maybe_rotate
bytes-insert_event writable event s on bytes backups named =
    rw on (ground (arith, bytes, backups, named))

-- The file of events is empty behind a rotation.
pub contents-maybe_rotate :
    (writable : Text → Bool) (s : FileStorage)
    → Due s
    → writable s.path ≡ true
    → lookup s.path (maybe_rotate writable s).files ≡ some []
contents-maybe_rotate writable s due may =
    let other : (i : ℕ) → backup s.path i ≢ s.path =
      λ i e. cc (path_beq s.path i, (text_beq_iff (backup s.path i) s.path).1 e) in
    ground
      (arith, (maybe_rotate-versions writable s due may).1 s.path other, text_beq_iff s.path s.path)
