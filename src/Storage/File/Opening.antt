-- ===== src/Storage/File/Opening.antt =====
-- What an opened storage holds.
use change_of_system.Base.{
  insert, ◌≡◌, refl, ap, ◌∙◌, Bool, true, some, List, [], Text, text_key, value_or,
  lookup-insert_self, nat_key, lookup, length, All,
}
use change_of_system.Base.Int.{pos}
use change_of_system.Storage.Codec.Lines.{Line}
use change_of_system.Storage.File.{new_storage, open_storage}
use change_of_system.Storage.Disk.{full_lines, Files, unlines, open_stream, touch}
use change_of_system.Storage.File.Log.{Holds, full_lines-unlines}

-- What a file holds when it is opened, where a missing one counts as empty.
pub open_storage-Holds :
    (writable : Text → Bool) (path : Text) (files : Files) (log : List Text)
    → value_or [] (lookup path files) ≡ unlines log
    → All Line log
    → writable path ≡ true
    → Holds (open_storage writable path (new_storage files)) log
unfolding open_storage open_stream touch
open_storage-Holds writable path files log held full may =
    let text : Text = value_or [] (lookup path files) in
    let opened : lookup path (insert path text files) ≡ some (unlines log) =
      lookup-insert_self path text files ∙ ap some held in
    rw may (record {
      on_path = refl;
      text = opened;
      each_line = full;
      bytes = ap (λ o. length (value_or [] o)) opened;
      events =
          ap (λ o. pos (length (full_lines (value_or [] o)))) opened
          ∙ ap (λ ls. pos (length ls)) (full_lines-unlines log full);
    })
