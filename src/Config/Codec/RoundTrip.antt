-- ===== src/Config/Codec/RoundTrip.antt =====
-- Reading back what the helpers of the store write.
use change_of_system.Base.{
  ℕ, ◌≡◌, refl, sym, ap, ◌∙◌, inl, inr, false, some, List, [], ◌∷◌, ◌++◌, Text, is_empty, nat_beq,
  nat_beq_iff, nat_key, contains, Bool-cases, length, ◌≤◌, All, arith,
}
use mathlib.Core.List.{append-nil, append_assoc}
use change_of_system.Config.Codec.{
  is_space, trim_start, trim_end, trim, escape, unescape, unescape_from, split_from, split_list,
  join_rest, join_list, lines, split_at_equals,
}

-- No white space in front or behind; no such byte in it.
abbrev pub Trimmed : Text → Type 0
Trimmed s = (trim_start s ≡ s) × (trim_end s ≡ s)

abbrev pub Without : ℕ → Text → Type 0
Without c s = contains s c ≡ false

unescape-escape_from : (s : Text) → unescape_from false (escape s) ≡ s
unfolding unescape_from escape
unescape-escape_from [] = refl
unescape-escape_from (c ∷ s) = ground (
  arith,
  unescape-escape_from s,
  nat_beq_iff c b'\n',
  nat_beq_iff c b'\r',
  nat_beq_iff c b'\t',
  nat_beq_iff c b'\\',
)

escape-lines : (s : Text) → Without b'\n' (escape s)
unfolding contains escape
escape-lines [] = refl
escape-lines (c ∷ s) = ground (arith, escape-lines s, nat_beq_iff c b'\n')

-- Every text is read back from its escaped form, which holds no end of line.
pub unescape-escape : (s : Text) → (unescape (escape s) ≡ s) × Without b'\n' (escape s)
unfolding unescape
unescape-escape s = (unescape-escape_from s, escape-lines s)

pub lines-append : (s rest : Text) → Without b'\n' s → lines (s ++ b'\n' ∷ rest) ≡ s ∷ lines rest
unfolding lines contains
lines-append [] rest h = refl
lines-append (c ∷ s) rest h = ground (arith, lines-append s rest (ground (arith, h)), h)

pub split_at_equals-append :
    (s rest : Text) → Without b'=' s → split_at_equals (s ++ b'=' ∷ rest) ≡ some (s, rest)
unfolding split_at_equals contains
split_at_equals-append [] rest h = refl
split_at_equals-append (c ∷ s) rest h =
    ground (arith, split_at_equals-append s rest (ground (arith, h)), h)

pub Without-append : (c : ℕ) (s t : Text) → Without c s → Without c t → Without c (s ++ t)
unfolding contains
Without-append c [] t h k = k
Without-append c (d ∷ s) t h k = ground (arith, Without-append c s t (ground (arith, h)) k, h)

-- A text that white space does not end keeps what is behind it when the end is trimmed.
pub trim_end-behind :
    (s t : Text) (c : ℕ) → is_space c ≡ false → trim_end (s ++ c ∷ t) ≡ s ++ c ∷ trim_end t
unfolding trim_end
trim_end-behind [] t c h = ground (arith, h)
trim_end-behind (d ∷ []) t c h = ground (arith, h)
trim_end-behind (d ∷ e ∷ s) t c h = rw (trim_end-behind (e ∷ s) t c h) refl

trim_end-space : (s : Text) → trim_end s ≡ s → trim_end (s ++ b' ' ∷ []) ≡ s
unfolding trim_end
trim_end-space [] h = refl
trim_end-space (c ∷ s) h =
    let behind : trim_end s ≡ s = ground (arith, h) in
    ground (arith, h, behind, trim_end-space s behind)

trim_start_bound : (s : Text) → length (trim_start s) ≤ length s
unfolding trim_start
trim_start_bound [] = omega arith
trim_start_bound (c ∷ s) = ground (arith, trim_start_bound s)

bare_start : (c : ℕ) (s : Text) → trim_start (c ∷ s) ≡ c ∷ s → is_space c ≡ false
unfolding trim_start
bare_start c s h = elim (Bool-cases (is_space c)) [
  | inl space ↦
      let gone : trim_start s ≡ c ∷ s = ground (arith, h, space) in
      absurd (omega (arith, trim_start_bound s, ap length gone))
  | inr bare ↦ bare
]

pub trim_start-append :
    (c : ℕ) (s t : Text) → trim_start (c ∷ s) ≡ c ∷ s → trim_start (c ∷ s ++ t) ≡ c ∷ s ++ t
unfolding trim_start
trim_start-append c s t h = ground (arith, bare_start c s h)

-- `trim` of a text without white space in front or behind, also with a space in front of it or
-- behind it.
pub record TrimsTo (s : Text) : Type 0 where
  pub itself : trim s ≡ s
  pub spaced_start : trim (b' ' ∷ s) ≡ s
  pub spaced_end : trim (s ++ b' ' ∷ []) ≡ s
  pub trimmed_end : trim (trim_end (b' ' ∷ s)) ≡ s

pub Trimmed-TrimsTo : (s : Text) → Trimmed s → TrimsTo s
unfolding trim trim_start trim_end
Trimmed-TrimsTo [] h = record {
  itself = refl;
  spaced_start = refl;
  spaced_end = refl;
  trimmed_end = refl;
}
Trimmed-TrimsTo (c ∷ s) (a, b) = record {
  itself = rw a b;
  spaced_start = rw a b;
  spaced_end = rw (trim_start-append c s (b' ' ∷ []) a) (trim_end-space (c ∷ s) b);
  trimmed_end = rw b (rw a b);
}

split_from-append :
    (token x t : Text) → Without b',' x → split_from token (x ++ t) ≡ split_from (token ++ x) t
unfolding split_from contains
split_from-append token [] t h = ap (λ s. split_from s t) (sym (append-nil token))
split_from-append token (c ∷ x) t h =
    let plain : nat_beq c b',' ≡ false = ground (arith, h) in
    rw plain (
      split_from-append (token ++ c ∷ []) x t (ground (arith, h))
      ∙ ap (λ s. split_from s t) (append_assoc token (c ∷ []) x))

-- The tokens behind one that has been read.
split_from-join_rest :
    (token : Text) (xs : List Text)
    → is_empty (token ++ join_rest xs) ≡ false
    → All (λ y. Trimmed y × Without b',' y) xs
    → split_from token (join_rest xs) ≡ trim token ∷ xs
unfolding split_from join_rest
split_from-join_rest token [] full ok =
    let some_token : is_empty token ≡ false = sym (ap is_empty (append-nil token)) ∙ full in
    rw some_token refl
split_from-join_rest token (y ∷ ys) full ((neat, plain), ok) =
    let y_back : trim (b' ' ∷ y) ≡ y = (Trimmed-TrimsTo y neat).spaced_start in
    ap (λ r. trim token ∷ r)
      (split_from-append (b' ' ∷ []) y (join_rest ys) plain
        ∙ split_from-join_rest (b' ' ∷ y) ys refl ok
        ∙ ap (λ z. z ∷ ys) y_back)

-- A list of settings is read back as it was joined, if no element has a comma in it or white space
-- in front or behind, and the joined text is not empty.
pub split_list-join_list :
    (xs : List Text)
    → All (λ y. Trimmed y × Without b',' y) xs
    → is_empty (join_list xs) ≡ false
    → split_list (join_list xs) ≡ xs
unfolding split_list join_list
split_list-join_list [] ok full = ground (arith, full)
split_list-join_list (x ∷ xs) ((neat, plain), ok) full =
    split_from-append [] x (join_rest xs) plain
    ∙ split_from-join_rest x xs full ok
    ∙ ap (λ z. z ∷ xs) (Trimmed-TrimsTo x neat).itself
