-- ===== src/Config/Store/RoundTrip.antt =====
-- The file of the settings: what `save` writes, `load` reads.
use change_of_system.Base.{
  ◌≡◌, refl, sym, ap, ◌∙◌, false, none, some, [], ◌∷◌, ◌++◌, Text, text_key, nat_key, codes,
  is_empty, Dict, lookup, insert, lookup-insert, value_or, text_beq_iff, contains, All, arith,
}
use mathlib.Core.List.{append_assoc}
use change_of_system.Config.Codec.{trim, trim_start, trim_end, escape, lines}
use change_of_system.Config.Codec.RoundTrip.{
  Trimmed, Without, unescape-escape, lines-append, split_at_equals-append, Trimmed-TrimsTo,
  Without-append, trim_end-behind, trim_start-append,
}
use change_of_system.Config.Store.{
  ConfigStore, insert_all, load_line, load_lines, load, save_values, save, is_comment, header, get,
}

-- A setting that a line can hold: its key is not empty, has no equals sign and no end of line in it
-- and is no comment; and neither the key nor the escaped value has white space in front or behind.
pub record Writable (setting : Text × Text) : Type 0 where
  pub named : is_empty setting.0 ≡ false
  pub no_comment : is_comment setting.0 ≡ false
  pub one_line : Without b'\n' setting.0
  pub no_equals : Without b'=' setting.0
  pub neat_key : Trimmed setting.0
  pub neat_value : Trimmed (escape setting.1)

abbrev line_of : Text × Text → Text
line_of s = s.0 ++ codes " = " ++ escape s.1

trim-line :
    (key value : Text)
    → is_empty key ≡ false
    → Trimmed key
    → trim (key ++ codes " = " ++ value) ≡ (key ++ b' ' ∷ []) ++ b'=' ∷ trim_end (b' ' ∷ value)
unfolding trim
trim-line [] value full neat = ground (arith, full)
trim-line (c ∷ key) value full neat =
    ap trim (append_assoc (c ∷ key) (codes " = ") value)
    ∙ ap trim_end (trim_start-append c key (codes " = " ++ value) neat.0)
    ∙ ap trim_end (sym (append_assoc (c ∷ key) (b' ' ∷ []) (b'=' ∷ b' ' ∷ value)))
    ∙ trim_end-behind ((c ∷ key) ++ b' ' ∷ []) (b' ' ∷ value) b'=' refl

load_line-line_of :
    (s : Text × Text) (m : Dict Text Text) → Writable s → load_line (line_of s) m ≡ insert s.0 s.1 m
unfolding load_line contains
load_line-line_of ([], value) m w = ground (arith, w.named)
load_line-line_of (c ∷ key, value) m w =
    let line = trim-line (c ∷ key) (escape value) w.named w.neat_key in
    let halves =
      split_at_equals-append ((c ∷ key) ++ b' ' ∷ []) (trim_end (b' ' ∷ escape value))
        (Without-append b'=' (c ∷ key) (b' ' ∷ []) w.no_equals refl) in
    let key_back = (Trimmed-TrimsTo (c ∷ key) w.neat_key).spaced_end in
    let value_back = (Trimmed-TrimsTo (escape value) w.neat_value).trimmed_end in
    rw line (
      rw w.no_comment (rw halves (rw key_back (rw value_back (rw (unescape-escape value).0 refl)))))

line_of-lines : (s : Text × Text) → Writable s → Without b'\n' (line_of s)
unfolding contains
line_of-lines s w =
    Without-append b'\n' (s.0 ++ codes " = ") (escape s.1)
      (Without-append b'\n' s.0 (codes " = ") w.one_line refl) (unescape-escape s.1).1

load_lines-save_values :
    (values m : Dict Text Text)
    → All Writable values
    → load_lines (lines (save_values values)) m ≡ insert_all values m
unfolding load_lines save_values insert_all lines
load_lines-save_values [] m ws = refl
load_lines-save_values (s ∷ rest) m (w, ws) =
    ap (λ ls. load_lines ls m) (lines-append (line_of s) (save_values rest) (line_of-lines s w))
    ∙ ap (load_lines (lines (save_values rest))) (load_line-line_of s m w)
    ∙ load_lines-save_values rest (insert s.0 s.1 m) ws

load_lines-header :
    (body : Text) (m : Dict Text Text)
    → load_lines (lines (header ++ body)) m ≡ load_lines (lines body) m
unfolding load_lines lines load_line trim trim_start trim_end
load_lines-header body m = refl

-- No key stands twice, as in every `std::map`.
abbrev pub DistinctKeys : Dict Text Text → Type 0
DistinctKeys [] = Unit
DistinctKeys ((key, value) ∷ rest) = (lookup key rest ≡ none) × DistinctKeys rest

lookup-insert_all :
    (k d : Text) (values m : Dict Text Text)
    → DistinctKeys values
    → value_or d (lookup k (insert_all values m))
      ≡ value_or (value_or d (lookup k m)) (lookup k values)
unfolding lookup insert_all
lookup-insert_all k d [] m ks = refl
lookup-insert_all k d ((key, value) ∷ rest) m (new, ks) =
    let later = lookup-insert_all k d rest (insert key value m) ks in
    ground (arith, later, lookup-insert k key value m, new, text_beq_iff key k)

-- Loading what a store has saved into any other store gives each setting the value that it has in
-- the first store, and leaves a setting that is not there as it was, if no key stands twice in the
-- first store and every setting of it is one that a line can hold.
pub get-load-save :
    (path path' : Text) (s t : ConfigStore) (k d : Text)
    → DistinctKeys s.values
    → All Writable s.values
    → get k d (load path (some (save path' s).1) t) ≡ get k (get k d t) s
unfolding get load save
get-load-save path path' s t k d ks ws =
    ap (λ m. value_or d (lookup k m))
      (load_lines-header (save_values s.values) t.values
        ∙ load_lines-save_values s.values t.values ws)
    ∙ lookup-insert_all k d s.values t.values ks
