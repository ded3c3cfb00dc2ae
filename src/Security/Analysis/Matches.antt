-- ===== src/Security/Analysis/Matches.antt =====
-- Which paths and process names the auditor finds suspicious.
use change_of_system.Base.{
  ℕ, ◌<◌, ◌≡◌, ◌↔◌, refl, ap, ◌∙◌, ◌⊎◌, inl, inr, true, false, [], ◌∷◌, ◌++◌, Text, text_key,
  nat_key, ◌==◌, text_beq, text_beq_iff, nat_beq_iff, arith, length, get_or, contains, starts_with,
  codes, to_lower, Bool-cases, if◌then◌else◌,
}
use change_of_system.Event.{Event, process_started, type_key}
use change_of_system.Security.Types.{Readings, suspicious_process}
use change_of_system.Security.Analysis.{
  is_or_below, is_sensitive, in_some_dir, is_some_file, base_name, process_findings, finding,
  suspicious_names,
}

starts_with-append : (s t : Text) → starts_with (s ++ t) s ≡ true
unfolding starts_with
starts_with-append [] t = refl
starts_with-append (c ∷ s) t = ground (arith, starts_with-append s t, nat_beq_iff c c)

get_or-append : (s t : Text) (c : ℕ) → get_or (s ++ c ∷ t) (length s) 0 ≡ c
get_or-append [] t c = refl
get_or-append (d ∷ s) t c = get_or-append s t c

length-behind : (s t : Text) (c : ℕ) → length s < length (s ++ c ∷ t)
length-behind [] t c = omega arith
length-behind (d ∷ s) t c = omega (arith, length-behind s t c)

-- A text that starts with another one and goes on with a byte.
split_behind :
    (s f : Text)
    → starts_with s f ≡ true
    → length f < length s
    → (rest : Text) × (s ≡ f ++ get_or s (length f) 0 ∷ rest)
unfolding starts_with
split_behind [] f h p = absurd (omega arith)
split_behind (c ∷ s) [] h p = (s, refl)
split_behind (c ∷ s) (d ∷ f) h p =
    let (rest, e) = split_behind s f (ground (arith, h)) (omega arith) in
    (rest, ground (arith, e, h, nat_beq_iff c d))

is_or_below-behind : (file rest : Text) → is_or_below file (file ++ b'/' ∷ rest) ≡ true
unfolding is_or_below
is_or_below-behind file rest = ground (
  arith,
  starts_with-append file (b'/' ∷ rest),
  get_or-append file rest b'/',
  length-behind file rest b'/',
)

-- The file itself, or what is in front of a slash and anything.
abbrev pub Below : Text → Text → Type 0
Below file target = (target ≡ file) ⊎ ((rest : Text) × (target ≡ file ++ b'/' ∷ rest))

-- A target counts as a sensitive file or its part exactly if it is that file's path or goes on from
-- it with a slash: a longer name like that of a backup copy does not count.
pub is_or_below-Below : (file target : Text) → (is_or_below file target ≡ true) ↔ Below file target
unfolding is_or_below
is_or_below-Below file target = (found, holds)
  where
    found : is_or_below file target ≡ true → Below file target
    found h = elim (Bool-cases (text_beq target file)) [
      | inl same ↦ inl ((text_beq_iff target file).0 same)
      | inr other ↦
          let (rest, e) =
            split_behind target file (ground (arith, h, other)) (ground (arith, h, other)) in
          let slash : get_or target (length file) 0 ≡ b'/' =
            ground (arith, h, other, nat_beq_iff (get_or target (length file) 0) b'/') in
          inr (rest, e ∙ ap (λ c. file ++ c ∷ rest) slash)
    ]

    holds : Below file target → is_or_below file target ≡ true
    holds (inl e) = ground (arith, (text_beq_iff target file).1 e)
    holds (inr (rest, e)) = rw e (is_or_below-behind file rest)

-- No path below /home is sensitive, so the directory .ssh of a user is not.
pub is_sensitive-home : (rest : Text) → is_sensitive (codes "/home/" ++ rest) ≡ false
unfolding is_sensitive is_some_file in_some_dir is_or_below starts_with text_beq
is_sensitive-home rest = ground arith

contains-append_slash : (s t : Text) → contains (s ++ b'/' ∷ t) b'/' ≡ true
unfolding contains
contains-append_slash [] t = refl
contains-append_slash (c ∷ s) t = ground (arith, contains-append_slash s t)

base_name-path :
    (dir name : Text) → contains name b'/' ≡ false → base_name (dir ++ b'/' ∷ name) ≡ name
unfolding base_name
base_name-path [] name h = ground (arith, h)
base_name-path (c ∷ dir) name h =
    ground (arith, h, base_name-path dir name h, contains-append_slash dir name)

-- Of a process that is not just starting, exactly one thing is reported if the lower-case form of
-- the last part of its path is a suspicious name, and nothing else.
pub process_findings-path :
    (now : ℕ → Readings) (e : Event) (dir name : Text)
    → contains name b'/' ≡ false
    → (e.type == process_started) ≡ false
    → e.target ≡ dir ++ b'/' ∷ name
    → process_findings now e ≡ (
        if contains suspicious_names (to_lower name)
        then finding
            (now 0)
            suspicious_process
            e
            (codes "Suspicious process detected: " ++ e.target)
            4
            ((codes "matched_pattern", to_lower name) ∷ (codes "original_summary", e.summary) ∷ [])
          ∷ []
        else [])
unfolding process_findings
process_findings-path now e dir name plain other target =
    let base : base_name e.target ≡ name = ap base_name target ∙ base_name-path dir name plain in
    ground (arith, base, other)
