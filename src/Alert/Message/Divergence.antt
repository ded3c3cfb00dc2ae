-- ===== src/Alert/Message/Divergence.antt =====
-- Two defects of `format_message`: a value that holds its own placeholder, and the widths of the
-- threshold placeholders.
use mathlib.Core.Bool.{false≢true}
use mathlib.Core.Path.{subst}
use change_of_system.Base.{
  ℕ, zero, suc, ◌≡◌, refl, sym, inl, inr, true, Option, none, some, [], ◌∷◌, ◌++◌, Text, codes,
  take, starts_with, find_text, arith, Bool-cases, Option-cases,
}
use change_of_system.Event.{Event, category_name, type_name}
use change_of_system.Base.Int.{to_string, ℤ}
use change_of_system.Alert.Message.Termination.{braces, braces-append, to_string-braces}
use change_of_system.Alert.Types.{AlertRule}
use change_of_system.Alert.Message.{replace_at, replace_all, ◌>>=◌, format_message}

-- The text holds the key.
abbrev pub Holds : Text → Text → Type 0
Holds s key = (at : ℕ) × (find_text s key ≡ some at)

starts_with-append : (s t p : Text) → starts_with s p ≡ true → starts_with (s ++ t) p ≡ true
unfolding starts_with
starts_with-append s t [] h = refl
starts_with-append [] t (d ∷ p) h = absurd (false≢true h)
starts_with-append (c ∷ s) t (d ∷ p) h = ground (arith, starts_with-append s t p)

find-starts : (s p : Text) → starts_with s p ≡ true → find_text s p ≡ some 0
unfolding find_text
find-starts [] p h = ground arith
find-starts (c ∷ s) p h = ground arith

Holds-cons : (c : ℕ) (s key : Text) → Holds s key → Holds (c ∷ s) key
unfolding find_text
Holds-cons c s key (at, e) = elim (Bool-cases (starts_with (c ∷ s) key)) [
  | inl here ↦ (0, rw here)
  | inr later ↦ (suc at, rw (later, e))
]

Holds-append_left : (s t key : Text) → Holds s key → Holds (s ++ t) key
unfolding find_text
Holds-append_left [] t [] h = (0, find-starts t [] refl)
Holds-append_left [] t (d ∷ key) (at, e) = cc e
Holds-append_left (c ∷ s) t key (at, e) = elim (Bool-cases (starts_with (c ∷ s) key)) [
  | inl here ↦ (0, rw (starts_with-append (c ∷ s) t key here))
  | inr later ↦ elim (Option-cases (find_text s key)) [
    | inl gone ↦ absurd (ground arith)
    | inr (a, found) ↦ Holds-cons c (s ++ t) key (Holds-append_left s t key (a, found))
  ]
]

Holds-append_right : (s t key : Text) → Holds t key → Holds (s ++ t) key
Holds-append_right [] t key h = h
Holds-append_right (c ∷ s) t key h = Holds-cons c (s ++ t) key (Holds-append_right s t key h)

replace_all-diverges :
    (fuel : ℕ) (key : Text) (width : ℕ) (value s : Text)
    → Holds value key
    → Holds s key
    → replace_all fuel key width value s ≡ none
unfolding replace_all
replace_all-diverges zero key width value s hv (at, e) = rw (e, replace_all)
replace_all-diverges (suc fuel) key width value s hv (at, e) =
    rw (e, replace_all)
      (replace_all-diverges fuel key width value (replace_at at width value s) hv (
        unfold replace_at in
        Holds-append_right (take at s) _ key (Holds-append_left value _ key hv)))

-- Where the event's source holds the text `{{source}}` and the template has that placeholder, the
-- first loop of `format_message` never ends, however many rounds it is given.
pub format_message-diverges :
    {Pattern : Type 0} (fuel : ℕ) (tmpl : Text) (e : Event) (rule : AlertRule Pattern)
    → Holds e.source (codes "{{source}}")
    → Holds tmpl (codes "{{source}}")
    → format_message fuel tmpl e rule ≡ none
unfolding format_message find_text
format_message-diverges fuel [] e rule hs (at, f) = cc f
format_message-diverges fuel (c ∷ s) e rule hs ht =
    rw (replace_all-diverges fuel (codes "{{source}}") 10 e.source (c ∷ s) hs ht)

find-plain : (s key : Text) → braces s ≡ 0 → find_text s (b'{' ∷ key) ≡ none
unfolding find_text braces
find-plain [] key h = refl
find-plain (c ∷ s) key h = ground (arith, find-plain s key)

replace_all-absent :
    (fuel : ℕ) (key : Text) (width : ℕ) (value s : Text)
    → find_text s key ≡ none
    → replace_all fuel key width value s ≡ some s
unfolding replace_all
replace_all-absent zero key width value s h = rw (h, replace_all)
replace_all-absent (suc fuel) key width value s h = rw (h, replace_all)

bind_step :
    {m : Option Text} {t : Text} (f : Text → Option Text) {r : Option Text}
    → m ≡ some t
    → f t ≡ r
    → (m >>= f) ≡ r
bind_step f {r} p q = subst (λ o. (o >>= f) ≡ r) (sym p) q

module _ (c : ℕ) (rest : Text) (plain : braces (c ∷ rest) ≡ 0) where
  abbrev counted : Text
  counted = codes "{{threshold_count}}" ++ c ∷ rest

  counted-find :
      (find_text counted (codes "{{source}}") ≡ none)
      × (find_text counted (codes "{{target}}") ≡ none)
      × (find_text counted (codes "{{summary}}") ≡ none)
      × (find_text counted (codes "{{category}}") ≡ none)
      × (find_text counted (codes "{{type}}") ≡ none)
      × (find_text counted (codes "{{threshold_count}}") ≡ some 0)
  unfolding find_text
  counted-find = (
    rw (find-plain (c ∷ rest) (codes "{source}}") plain),
    rw (find-plain (c ∷ rest) (codes "{target}}") plain),
    rw (find-plain (c ∷ rest) (codes "{summary}}") plain),
    rw (find-plain (c ∷ rest) (codes "{category}}") plain),
    rw (find-plain (c ∷ rest) (codes "{type}}") plain),
    refl,
  )

  rest-braces : braces rest ≡ 0
  unfolding braces
  rest-braces = ground arith

  abbrev eaten : ℤ → Text
  eaten count = to_string count ++ rest

  eaten-braces : (count : ℤ) → braces (eaten count) ≡ 0
  eaten-braces count =
      omega (arith, braces-append (to_string count) rest, to_string-braces count, rest-braces)

  first_round :
      (fuel : ℕ) (count : ℤ)
      → replace_all (suc fuel) (codes "{{threshold_count}}") 20 (to_string count) counted
        ≡ some (eaten count)
  unfolding replace_at replace_all
  first_round fuel count =
      rw (counted-find.5, replace_all)
        (replace_all-absent fuel _ 20 (to_string count) (eaten count)
          (find-plain (eaten count) _ (eaten-braces count)))

  -- The width that the source gives for `{{threshold_count}}` is one more than its length: where the
  -- rest of the template holds no opening brace, the byte behind the placeholder is lost.
  pub format_message-eats_byte :
      {Pattern : Type 0} (fuel : ℕ) (e : Event) (rule : AlertRule Pattern)
      → format_message (suc fuel) counted e rule ≡ some (to_string rule.threshold_count ++ rest)
  unfolding format_message
  format_message-eats_byte fuel e rule =
      let (s1, s2, s3, s4, s5, s6) = counted-find in
      bind_step _ (replace_all-absent (suc fuel) _ 10 e.source counted s1) (
        bind_step _ (replace_all-absent (suc fuel) _ 10 e.target counted s2) (
          bind_step _ (replace_all-absent (suc fuel) _ 11 e.summary counted s3) (
            bind_step _ (replace_all-absent (suc fuel) _ 12 (category_name e.category) counted s4) (
              bind_step _ (replace_all-absent (suc fuel) _ 8 (type_name e.type) counted s5) (
                bind_step _ (first_round fuel rule.threshold_count) (
                  replace_all-absent (suc fuel) _ 24 (to_string rule.threshold_window_ms) _
                    (find-plain _ _ (eaten-braces rule.threshold_count))))))))
