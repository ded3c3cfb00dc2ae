-- ===== src/Alert/Message/Termination.antt =====
-- When the loops of `format_message` end, and when they do not.
use mathlib.Core.Bool.{false≢true}
use mathlib.Core.Path.{subst}
use change_of_system.Base.{
  ℕ, zero, suc, ◌+◌, ◌-◌, ◌≤◌, ◌<◌, ◌/◌, ◌%◌, ◌≡◌, refl, inl, inr, sym, true, Option, none, some,
  [], ◌∷◌, ◌++◌, Text, take, drop, length, starts_with, find_text, decimal, digits_onto, nat_beq,
  arith, Option-cases, if◌then◌else◌,
}
use change_of_system.Base.Int.{to_string, ℤ, pos, negsuc}
use change_of_system.Event.{Event, EventCategory, EventType, category_name, type_name}
use change_of_system.Alert.Types.{AlertRule}
use change_of_system.Alert.Message.{replace_at, replace_all, ◌>>=◌, format_message}

-- The opening braces of a text.
unfoldable pub braces : Text → ℕ
braces [] = 0
braces (c ∷ s) = if nat_beq c b'{' then suc (braces s) else braces s

pub braces-append : (s t : Text) → braces (s ++ t) ≡ braces s + braces t
unfolding braces
braces-append [] t = omega arith
braces-append (c ∷ s) t = ground (arith, braces-append s t)

braces-take-drop : (n : ℕ) (s : Text) → braces (take n s) + braces (drop n s) ≡ braces s
unfolding braces
braces-take-drop zero s = omega arith
braces-take-drop (suc n) [] = omega arith
braces-take-drop (suc n) (c ∷ s) = ground (arith, braces-take-drop n s)

braces-drop-le : (n : ℕ) (s : Text) → braces (drop n s) ≤ braces s
braces-drop-le n s = omega (arith, braces-take-drop n s)

drop-nil : (n : ℕ) → drop n (let e : Text = [] in e) ≡ []
drop-nil zero = refl
drop-nil (suc n) = refl

suc_add : (a b : ℕ) → suc a + b ≡ suc (a + b)
suc_add a b = omega arith

drop-drop : (a b : ℕ) (s : Text) → drop (a + b) s ≡ drop b (drop a s)
drop-drop zero b s = rw (zero_add b)
  where
    zero_add : (n : ℕ) → zero + n ≡ n
    zero_add n = omega arith
drop-drop (suc a) b [] = rw (suc_add a b) (sym (drop-nil b))
drop-drop (suc a) b (c ∷ s) = rw (suc_add a b) (drop-drop a b s)

starts_with-braces :
    (s p : Text) → starts_with s p ≡ true → braces s ≡ braces p + braces (drop (length p) s)
unfolding starts_with braces
starts_with-braces s [] h = omega arith
starts_with-braces [] (d ∷ p) h = absurd (false≢true h)
starts_with-braces (c ∷ s) (d ∷ p) h = ground (arith, starts_with-braces s p)

find-starts_with :
    (s p : Text) (at : ℕ) → find_text s p ≡ some at → starts_with (drop at s) p ≡ true
unfolding find_text
find-starts_with [] [] at h = refl
find-starts_with [] (d ∷ p) at h = cc h
find-starts_with (c ∷ s) p zero h = elim (Option-cases (find_text s p)) [
  | inl e ↦ ground arith
  | inr (a, e) ↦ ground arith
]
find-starts_with (c ∷ s) p (suc at) h = ground (arith, find-starts_with s p at)

-- One round of the loop removes the braces of its key and adds those of its value.
replace_at-braces :
    (at width : ℕ) (key value s : Text)
    → find_text s key ≡ some at
    → length key ≤ width
    → braces (replace_at at width value s) + braces key ≤ braces s + braces value
unfolding replace_at
replace_at-braces at width key value s found fits =
    let cut : width ≡ length key + (width - length key) = omega arith in
    let tail : braces (drop (at + width) s) ≤ braces (drop (length key) (drop at s)) =
      rw (drop-drop at width s, cut, drop-drop (length key) (width - length key) (drop at s))
        (braces-drop-le (width - length key) (drop (length key) (drop at s))) in
    omega (
      arith,
      tail,
      braces-append (take at s) (value ++ drop (at + width) s),
      braces-append value (drop (at + width) s),
      braces-take-drop at s,
      starts_with-braces (drop at s) key (find-starts_with s key at found),
    )

-- A finished loop: it returned a text without the key, with no more braces than before.
abbrev Replaced : Text → Text → Option Text → Type 0
Replaced key s r = (t : Text) × (r ≡ some t) × (find_text t key ≡ none) × (braces t ≤ braces s)

replace_all-Replaced :
    (fuel : ℕ) (key : Text) (width : ℕ) (value s : Text)
    → braces s < fuel
    → 0 < braces key
    → braces value ≡ 0
    → length key ≤ width
    → Replaced key s (replace_all fuel key width value s)
unfolding replace_all
replace_all-Replaced zero key width value s enough keyed plain fits = absurd (omega arith)
replace_all-Replaced (suc fuel) key width value s enough keyed plain fits =
    elim (Option-cases (find_text s key)) [
      | inl gone ↦ (s, rw (gone, replace_all), gone, omega arith)
      | inr (at, found) ↦
          let less : braces (replace_at at width value s) + braces key ≤ braces s + braces value =
            replace_at-braces at width key value s found fits in
          let (t, r, g, b) =
            replace_all-Replaced fuel key width value (replace_at at width value s) (omega arith)
              keyed plain fits in
          (t, rw (found, replace_all) r, g, omega arith)
    ]

digits_onto-braces :
    (fuel n : ℕ) (acc : Text) → braces acc ≡ 0 → braces (digits_onto fuel n acc) ≡ 0
unfolding digits_onto braces
digits_onto-braces zero n acc h = h
digits_onto-braces (suc fuel) n acc h =
    let low : braces ((48 + n % 10) ∷ acc) ≡ 0 = ground (arith, h) in
    ground (arith, digits_onto-braces fuel (n / 10) ((48 + n % 10) ∷ acc) low)

pub to_string-braces : (n : ℤ) → braces (to_string n) ≡ 0
unfolding to_string braces decimal
to_string-braces (pos n) = digits_onto-braces (suc n) n [] refl
to_string-braces (negsuc n) = digits_onto-braces (suc (suc n)) (suc n) [] refl

category_name-braces : (c : EventCategory) → braces (category_name c) ≡ 0
unfolding braces category_name
category_name-braces EventCategory.unknown = refl
category_name-braces _ = refl

type_name-braces : (t : EventType) → braces (type_name t) ≡ 0
unfolding braces type_name
type_name-braces EventType.unknown = refl
type_name-braces _ = refl

-- A text that was returned, with no more braces than `n`.
abbrev pub Filled : ℕ → Option Text → Type 0
Filled n r = (t : Text) × (r ≡ some t) × (braces t ≤ n)

bind-Filled :
    (n : ℕ) (m : Option Text) (f : Text → Option Text)
    → Filled n m
    → ((t : Text) → braces t ≤ n → Filled n (f t))
    → Filled n (m >>= f)
bind-Filled n m f (t, e, b) h = subst (λ o. Filled n (o >>= f)) (sym e) (h t b)

-- One loop of `fill_placeholders`, on a text with at most `n` braces.
stage-Filled :
    (fuel n : ℕ) (key : Text) (width : ℕ) (value s : Text)
    → n < fuel
    → braces s ≤ n
    → 0 < braces key
    → length key ≤ width
    → braces value ≡ 0
    → Filled n (replace_all fuel key width value s)
stage-Filled fuel n key width value s enough few keyed fits plain =
    let (t, r, g, b) = replace_all-Replaced fuel key width value s (omega arith) keyed plain fits in
    (t, r, omega arith)

-- Where the event's texts hold no opening brace, every loop of `format_message` ends, and the
-- message is returned, within one round more than the template has opening braces.
pub format_message-Filled :
    {Pattern : Type 0} (fuel : ℕ) (tmpl : Text) (e : Event) (rule : AlertRule Pattern)
    → braces tmpl < fuel
    → braces e.source ≡ 0
    → braces e.target ≡ 0
    → braces e.summary ≡ 0
    → Filled (braces tmpl) (format_message fuel tmpl e rule)
unfolding format_message braces
format_message-Filled fuel [] e rule enough hs ht hm = (_, refl, omega (arith, hm))
format_message-Filled fuel (c ∷ s) e rule enough hs ht hm =
    let n : ℕ = braces (c ∷ s) in
    bind-Filled n _ _
      (stage-Filled fuel n _ 10 _ _ enough (omega arith) (omega arith) (omega arith) hs)
      λ t1 b1.
        bind-Filled n _ _ (stage-Filled fuel n _ 10 _ _ enough b1 (omega arith) (omega arith) ht)
          λ t2 b2.
            bind-Filled n _ _
              (stage-Filled fuel n _ 11 _ _ enough b2 (omega arith) (omega arith) hm)
              λ t3 b3.
                bind-Filled n _ _
                  (stage-Filled fuel n _ 12 _ _ enough b3 (omega arith) (omega arith)
                    (category_name-braces e.category))
                  λ t4 b4.
                    bind-Filled n _ _
                      (stage-Filled fuel n _ 8 _ _ enough b4 (omega arith) (omega arith)
                        (type_name-braces e.type))
                      λ t5 b5.
                        bind-Filled n _ _
                          (stage-Filled fuel n _ 20 _ _ enough b5 (omega arith) (omega arith)
                            (to_string-braces rule.threshold_count))
                          λ t6 b6.
                            stage-Filled fuel n _ 24 _ _ enough b6 (omega arith) (omega arith)
                              (to_string-braces rule.threshold_window_ms)
