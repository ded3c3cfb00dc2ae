-- ===== src/Validate/Values/Accepted.antt =====
-- What the validator accepts, the store reads.
use change_of_system.Base.{
  ◌≡◌, refl, sym, ap, ◌∙◌, Bool, true, false, ◌||◌, Option, some, List, [], ◌∷◌, Text, text_key,
  text_beq, text_beq_iff, codes, lookup, value_or, contains, is_empty, to_lower, arith,
  if◌then◌else◌,
}
use change_of_system.Config.Store.{ConfigStore, get, get_bool}
use change_of_system.Validate.Values.{is_valid_bool}

text_beq-swap : (s t : Text) → text_beq s t ≡ text_beq t s
text_beq-swap s t = ground (arith, text_beq_iff s t, text_beq_iff t s)

abbrev trues : List Text
trues = codes "true" ∷ codes "1" ∷ codes "yes" ∷ codes "on" ∷ []

abbrev falses : List Text
falses = codes "false" ∷ codes "0" ∷ codes "no" ∷ codes "off" ∷ []

is_valid_bool-lists :
    (v : Text) → is_valid_bool v ≡ contains trues (to_lower v) || contains falses (to_lower v)
unfolding is_valid_bool contains
is_valid_bool-lists v =
    let w : Text = to_lower v in
    ground (
      arith,
      text_beq-swap w (codes "true"),
      text_beq-swap w (codes "false"),
      text_beq-swap w (codes "1"),
      text_beq-swap w (codes "0"),
      text_beq-swap w (codes "yes"),
      text_beq-swap w (codes "no"),
      text_beq-swap w (codes "on"),
      text_beq-swap w (codes "off"),
    )

is_valid_bool-full : (v : Text) → is_valid_bool v ≡ true → is_empty v ≡ false
unfolding is_valid_bool to_lower text_beq
is_valid_bool-full [] h = absurd (ground (arith, h))
is_valid_bool-full (c ∷ v) h = refl

choice :
    (v : Text) (d d' yes_ no_ empty : Bool)
    → empty ≡ false
    → yes_ || no_ ≡ true
    → (if empty then d else if yes_ then true else if no_ then false else d)
      ≡ (if empty then d' else if yes_ then true else if no_ then false else d')
choice v d d' true no_ false e h = refl
choice v d d' false true false e h = refl
choice v d d' false false false e h = absurd (ground (arith, h))
choice v d d' yes_ no_ true e h = absurd (ground (arith, e))

-- A value that the validator accepts as a truth value is read by the store whatever the default is.
pub get_bool-is_valid_bool :
    (key v : Text) (d d' : Bool) (s : ConfigStore)
    → lookup key s.values ≡ some v
    → is_valid_bool v ≡ true
    → get_bool key d s ≡ get_bool key d' s
unfolding get_bool get
get_bool-is_valid_bool key v d d' s held valid =
    ap (read d) held
    ∙ choice v d d' (contains trues (to_lower v)) (contains falses (to_lower v)) (is_empty v)
        (is_valid_bool-full v valid) (sym (is_valid_bool-lists v) ∙ valid)
    ∙ sym (ap (read d') held)
  where
    read : Bool → Option Text → Bool
    read d o =
        let w = value_or [] o in
        if is_empty w
        then d
        else if contains trues (to_lower w)
        then true
        else if contains falses (to_lower w)
        then false
        else d
