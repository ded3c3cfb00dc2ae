-- ===== src/Storage/Codec/Attributes.antt =====
-- The attributes of an event are read back from their column.
use change_of_system.Base.{
  ℕ, ◌≡◌, refl, sym, ap, ◌∙◌, Bool, false, not, ◌&&◌, [], ◌∷◌, ◌++◌, Text, text_key, nat_key,
  nat_beq, codes, Dict, insert, is_empty, contains, All, starts_with, arith, if◌then◌else◌,
}
use mathlib.Core.List.{append-nil, append_assoc}
use change_of_system.Config.Codec.RoundTrip.{Without}
use change_of_system.Config.Store.{insert_all}
use change_of_system.Storage.Codec.{attrs_onto, attributes_from}

-- An attribute that a line can hold.
pub record Plain (attribute : Text × Text) : Type 0 where
  pub named : is_empty attribute.0 ≡ false
  pub no_equals : Without b'=' attribute.0
  pub no_bar : Without b'|' attribute.0
  pub no_bar_value : Without b'|' attribute.1

-- One byte of the loop, with the tests of that byte and of the next one as arguments.
abbrev step : Bool → Bool → Bool → Text → Text → ℕ → Text → Dict Text Text → Dict Text Text
step bar equals second key cur c s m =
    attributes_from (bar && second)
      (if bar && second then [] else if not (not (is_empty key)) && equals then cur else key)
      (if bar && second
        then (if not (is_empty key) then [] else cur)
        else if not (not (is_empty key)) && equals
        then []
        else cur ++ c ∷ [])
      s (if (bar && second) && not (is_empty key) then insert key cur m else m)

name_read :
    (k cur s : Text) (m : Dict Text Text)
    → Without b'=' k
    → Without b'|' k
    → attributes_from false [] cur (k ++ s) m ≡ attributes_from false [] (cur ++ k) s m
unfolding attributes_from contains starts_with
name_read [] cur s m h g = ap (λ c. attributes_from false [] c s m) (sym (append-nil cur))
name_read (c ∷ k) cur s m h g =
    let no_bar : nat_beq c b'|' ≡ false = ground (arith, g) in
    let no_equals : nat_beq c b'=' ≡ false = ground (arith, h) in
    let second : Bool = starts_with (k ++ s) (codes "|") in
    ap (λ x. step x (nat_beq c b'=') second [] cur c (k ++ s) m) no_bar
    ∙ ap (λ x. step false x second [] cur c (k ++ s) m) no_equals
    ∙ name_read k (cur ++ c ∷ []) s m (ground (arith, h)) (ground (arith, g))
    ∙ ap (λ d. attributes_from false [] d s m) (append_assoc cur (c ∷ []) k)

value_read :
    (b : ℕ) (key v cur s : Text) (m : Dict Text Text)
    → Without b'|' v
    → attributes_from false (b ∷ key) cur (v ++ s) m
      ≡ attributes_from false (b ∷ key) (cur ++ v) s m
unfolding attributes_from contains starts_with
value_read b key [] cur s m g =
    ap (λ c. attributes_from false (b ∷ key) c s m) (sym (append-nil cur))
value_read b key (c ∷ v) cur s m g =
    let no_bar : nat_beq c b'|' ≡ false = ground (arith, g) in
    let second : Bool = starts_with (v ++ s) (codes "|") in
    ap (λ x. step x (nat_beq c b'=') second (b ∷ key) cur c (v ++ s) m) no_bar
    ∙ value_read b key v (cur ++ c ∷ []) s m (ground (arith, g))
    ∙ ap (λ d. attributes_from false (b ∷ key) d s m) (append_assoc cur (c ∷ []) v)

-- The attributes behind the first one.
abbrev tail : Dict Text Text → Text
tail [] = []
tail ((key, value) ∷ rest) = b'|' ∷ b'|' ∷ (key ++ (b'=' ∷ (value ++ tail rest)))

key_read :
    (b : ℕ) (key s : Text) (m : Dict Text Text)
    → Without b'=' (b ∷ key)
    → Without b'|' (b ∷ key)
    → attributes_from false [] [] ((b ∷ key) ++ (b'=' ∷ s)) m
      ≡ attributes_from false (b ∷ key) [] s m
unfolding attributes_from
key_read b key s m h g = name_read (b ∷ key) [] (b'=' ∷ s) m h g

attributes_read :
    (key value : Text) (rest m : Dict Text Text)
    → Plain (key, value)
    → All Plain rest
    → attributes_from false [] [] (key ++ (b'=' ∷ (value ++ tail rest))) m
      ≡ insert_all ((key, value) ∷ rest) m
unfolding insert_all attributes_from starts_with
attributes_read [] value rest m p ps = ground (arith, p.named)
attributes_read (b ∷ key) value [] m p ps =
    key_read b key (value ++ []) m p.no_equals p.no_bar
    ∙ value_read b key value [] [] m p.no_bar_value
attributes_read (b ∷ key) value ((key', value') ∷ rest) m p (p', ps) =
    key_read b key (value ++ tail ((key', value') ∷ rest)) m p.no_equals p.no_bar
    ∙ value_read b key value [] (tail ((key', value') ∷ rest)) m p.no_bar_value
    ∙ attributes_read key' value' rest (insert (b ∷ key) value m) p' ps

attrs_onto-tail :
    (c : ℕ) (line : Text) (rest : Dict Text Text)
    → attrs_onto (c ∷ line) rest ≡ (c ∷ line) ++ tail rest
unfolding attrs_onto
attrs_onto-tail c line [] = sym (append-nil (c ∷ line))
attrs_onto-tail c line ((key, value) ∷ rest) =
    attrs_onto-tail c (line ++ codes "||" ++ key ++ codes "=" ++ value) rest
    ∙ append_assoc ((c ∷ line) ++ codes "||" ++ key ++ codes "=") value (tail rest)
    ∙ append_assoc ((c ∷ line) ++ codes "||" ++ key) (codes "=") (value ++ tail rest)
    ∙ append_assoc ((c ∷ line) ++ codes "||") key (b'=' ∷ (value ++ tail rest))
    ∙ append_assoc (c ∷ line) (codes "||") (key ++ (b'=' ∷ (value ++ tail rest)))

pub attributes_read_back :
    (attributes m : Dict Text Text)
    → All Plain attributes
    → attributes_from false [] [] (attrs_onto [] attributes) m ≡ insert_all attributes m
unfolding attrs_onto attributes_from insert_all
attributes_read_back [] m ps = refl
attributes_read_back (([], value) ∷ rest) m (p, ps) = ground (arith, p.named)
attributes_read_back ((c ∷ key, value) ∷ rest) m (p, ps) =
    ap (λ line. attributes_from false [] [] line m)
      (attrs_onto-tail c (key ++ codes "=" ++ value) rest
        ∙ append_assoc ((c ∷ key) ++ codes "=") value (tail rest)
        ∙ append_assoc (c ∷ key) (codes "=") (value ++ tail rest))
    ∙ attributes_read (c ∷ key) value rest m p ps
