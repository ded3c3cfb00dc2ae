-- ===== src/Tests/ConfigTests.antt =====
-- The store of settings at concrete settings.
use change_of_system.Base.{
  ◌≡◌, refl, some, [], ◌∷◌, codes, contains, lookup, insert, text_beq, text_less,
}
use change_of_system.Base.Int.{negsuc}
use change_of_system.Config.Codec.{
  trim, trim_start, trim_end, escape, unescape, unescape_from, lines, split_at_equals,
}
use change_of_system.Config.Store.{
  ConfigStore, load, save, save_values, load_line, load_lines, get, stoi, digits_from,
}
use change_of_system.Config.Store.RoundTrip.{Writable, get-load-save}

abbrev paths : ConfigStore
paths = record { values = (codes "paths", codes "/etc,/tmp") ∷ []; file_path = codes "a.conf" }

abbrev other : ConfigStore
other = record { values = (codes "level", codes "3") ∷ []; file_path = codes "b.conf" }

saved : save [] paths ≡ (
  codes "a.conf",
  codes "# change-of-system configuration\n# Auto-generated by ConfigStore\n\npaths = /etc,/tmp\n",
)
unfolding save save_values escape
saved = refl

loaded : load (codes "c.conf") (some (codes " x=1 \n; y=2\n=3\nz = a\\tb")) other ≡ record {
  values = (codes "level", codes "3") ∷ (codes "x", codes "1") ∷ (codes "z", codes "a\tb") ∷ [];
  file_path = codes "c.conf";
}
unfolding load load_lines load_line lines trim trim_start trim_end split_at_equals insert unescape
    unescape_from text_beq text_less
loaded = refl

read_number : stoi (codes " -42x") ≡ some (negsuc 41)
unfolding stoi trim_start digits_from
read_number = refl

paths-Writable : Writable (codes "paths", codes "/etc,/tmp")
unfolding contains trim_start trim_end escape
paths-Writable = record {
  named = refl;
  no_comment = refl;
  one_line = refl;
  no_equals = refl;
  neat_key = (refl, refl);
  neat_value = (refl, refl);
}

get-load-save_example :
    get (codes "paths") [] (load (codes "c.conf") (some (save [] paths).1) other)
    ≡ codes "/etc,/tmp"
unfolding get lookup text_beq
get-load-save_example =
    get-load-save (codes "c.conf") [] paths other (codes "paths") [] (refl, tt) (paths-Writable, tt)
