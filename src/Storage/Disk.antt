-- ===== src/Storage/Disk.antt =====
-- The files that storage.cpp uses through the standard library: a name has its contents, an output
-- stream is closed or stands on a name, and the contents of a file are its lines.
use change_of_system.Base.{
  Bool, true, false, not, ◌||◌, Option, none, some, List, [], ◌∷◌, ◌++◌, Text, text_key, Dict,
  lookup, insert, erase, is_empty, select, value_or, if◌then◌else◌,
}
use change_of_system.Config.Codec.{lines}

abbrev pub Files : Type 0
Files = Dict Text Text

-- `std::ofstream`: the file it stands on, if any, and whether its error flags are clear.
pub record Stream : Type 0 where
  pub on_file : Option Text
  pub good : Bool

abbrev pub closed : Stream
closed = record { on_file = none; good = true }

abbrev pub is_some : Option Text → Bool
is_some none = false
is_some (some _) = true

-- `open(path, std::ios::app)`: an open stream stays where it is and is failed; a file that may not
-- be written is not opened.
unfoldable pub open_stream : Bool → Text → Stream → Stream
open_stream may_write path s =
    if is_some s.on_file || not may_write
    then record s { good = false }
    else record { on_file = some path; good = true }

-- `close()`.
abbrev pub close_stream : Stream → Stream
close_stream s = record s { on_file = none }

-- The file that opening for appending leaves: a missing one is made.
unfoldable pub touch : Bool → Text → Files → Files
touch may_write path files =
    if may_write then insert path (value_or [] (lookup path files)) files else files

-- `<<` on a stream: a failed one writes nothing.
unfoldable pub write : Stream → Text → Files → Files
write s text files = elim s.on_file [
  | none ↦ files
  | some path ↦
      if s.good then insert path (value_or [] (lookup path files) ++ text) files else files
]

-- `std::filesystem::rename`: a missing source is an error that changes nothing.
abbrev pub moved : Text → Text → Option Text → Files → Files
moved source target none files = files
moved source target (some text) files = insert target text (erase source files)

unfoldable pub rename : Text → Text → Files → Files
rename source target files = moved source target (lookup source files) files

-- The lines that the loops over a file do not skip.
abbrev pub full_lines : Text → List Text
full_lines text = select (λ line. not (is_empty line)) (lines text)

-- Each line with its end.
unfoldable pub unlines : List Text → Text
unlines [] = []
unlines (line ∷ rest) = line ++ b'\n' ∷ unlines rest
