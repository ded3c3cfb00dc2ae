-- ===== src/Updater/Versions.antt =====
-- The order of versions, and when an update is offered.
use change_of_system.Base.{
  ℕ, zero, suc, ◌<◌, ◌≡◌, ◌≢◌, ◌↔◌, inl, inr, Bool-cases, get_or, refl, ap, ◌∙◌, Bool, true, false,
  ◌||◌, List, [], ◌∷◌, Text, is_empty, codes, ◌++◌, arith, if◌then◌else◌,
}
use mathlib.Core.Path.{subst}
use change_of_system.Base.Int.{ℤ, pos, negsuc, ltb_ℤ, leb_ℤ, ◌<ℤ◌}
use change_of_system.Updater.{
  UpdateInfo, Download, parts, compare_part, compare_parts, compare_versions, check_for_update,
  check_tags, no_update, found_update, http_get, extract_json_string, releases_url, tags_url,
}

-- The result of the comparison the other way round.
abbrev pub opposite : ℤ → ℤ
opposite (pos zero) = pos zero
opposite (pos (suc n)) = negsuc n
opposite (negsuc n) = pos (suc n)

-- The first version is not older.
abbrev pub AtLeast : ℤ → Type 0
AtLeast r = leb_ℤ (pos 0) r ≡ true

opposite-part : (a b p q : ℤ) → p ≡ opposite q → compare_part a b p ≡ opposite (compare_part b a q)
opposite-part a b p q h = ground (arith, h)

opposite-parts : (xs ys : List ℤ) → compare_parts xs ys ≡ opposite (compare_parts ys xs)
unfolding compare_parts
opposite-parts [] [] = refl
opposite-parts (a ∷ xs) [] = opposite-part a (pos 0) _ _ (opposite-parts xs [])
opposite-parts [] (b ∷ ys) = opposite-part (pos 0) b _ _ (opposite-parts [] ys)
opposite-parts (a ∷ xs) (b ∷ ys) = opposite-part a b _ _ (opposite-parts xs ys)

AtLeast-part :
    (a b c p q r : ℤ)
    → (AtLeast p → AtLeast q → AtLeast r)
    → AtLeast (compare_part a b p)
    → AtLeast (compare_part b c q)
    → AtLeast (compare_part a c r)
AtLeast-part a b c p q r later h k = ground (arith, later, h, k)

AtLeast-parts :
    (xs ys zs : List ℤ)
    → AtLeast (compare_parts xs ys)
    → AtLeast (compare_parts ys zs)
    → AtLeast (compare_parts xs zs)
unfolding compare_parts
AtLeast-parts [] [] zs h k = k
AtLeast-parts (x ∷ xs) [] [] h k = h
AtLeast-parts [] (y ∷ ys) [] h k = refl
AtLeast-parts (x ∷ xs) [] (z ∷ zs) h k = AtLeast-part x (pos 0) z _ _ _ (AtLeast-parts xs [] zs) h k
AtLeast-parts [] (y ∷ ys) (z ∷ zs) h k = AtLeast-part (pos 0) y z _ _ _ (AtLeast-parts [] ys zs) h k
AtLeast-parts (x ∷ xs) (y ∷ ys) [] h k = AtLeast-part x y (pos 0) _ _ _ (AtLeast-parts xs ys []) h k
AtLeast-parts (x ∷ xs) (y ∷ ys) (z ∷ zs) h k = AtLeast-part x y z _ _ _ (AtLeast-parts xs ys zs) h k

-- Comparing two versions the other way round gives the opposite result, and of three versions of
-- which the first is not older than the second, and that not older than the third, the first is not
-- older than the third.
pub compare_versions-order :
    (u v w : Text)
    → AtLeast (compare_versions u v)
    → AtLeast (compare_versions v w)
    → (compare_versions u v ≡ opposite (compare_versions v u)) × AtLeast (compare_versions u w)
unfolding compare_versions
compare_versions-order u v w h k =
    (opposite-parts (parts u) (parts v), AtLeast-parts (parts u) (parts v) (parts w) h k)

compare_part_self : (x : ℤ) → compare_part x x (pos 0) ≡ pos 0
compare_part_self x = ground arith

compare_parts_self : (xs : List ℤ) → compare_parts xs xs ≡ pos 0
unfolding compare_parts
compare_parts_self [] = refl
compare_parts_self (x ∷ xs) = ap (compare_part x x) (compare_parts_self xs) ∙ compare_part_self x

found_update_self : (tag url : Text) → (found_update tag tag url).available ≡ false
unfolding compare_versions
found_update_self tag url = ap (ltb_ℤ (pos 0)) (compare_parts_self (parts tag))

-- Either answer, seen from the latest version of it.
no_update-twice :
    (b : Bool) (tag url current : Text) (other : Text → UpdateInfo)
    → (other (other current).latest_version).available ≡ false
    → (if b
        then other (if b then other current else found_update current tag url).latest_version
        else found_update
            (if b then other current else found_update current tag url).latest_version
            tag
            url).available
      ≡ false
no_update-twice true tag url current other h = h
no_update-twice false tag url current other h = found_update_self tag url

check_tags-twice :
    (current response : Text)
    → (check_tags (check_tags current response).latest_version response).available ≡ false
check_tags-twice current response =
    no_update-twice (is_empty response || is_empty tag) tag url current no_update refl
  where
    tag : Text
    tag = extract_json_string response (codes "name")

    url : Text
    url = codes "https://github.com/diaoyunxi/change-of-system/releases/tag/" ++ tag

-- A check for an update from the version that a check has found offers no update, as long as the
-- answers to the requests are the same.
pub check_for_update-twice :
    (curl : Text → Download) (current : Text)
    → (check_for_update curl (check_for_update curl current).latest_version).available ≡ false
unfolding check_for_update
check_for_update-twice curl current =
    no_update-twice (is_empty response || is_empty tag) tag
      (extract_json_string response (codes "html_url")) current
      (λ c. check_tags c (http_get (curl tags_url)))
      (check_tags-twice current (http_get (curl tags_url)))
  where
    response : Text
    response = http_get (curl releases_url)

    tag : Text
    tag = extract_json_string response (codes "tag_name")

-- The first place at which the numbers differ has the greater one in `f`.
abbrev pub Newer : (ℕ → ℤ) → (ℕ → ℤ) → Type 0
Newer f g = (i : ℕ) × (g i <ℤ f i) × ((j : ℕ) → j < i → f j ≡ g j)

-- The numbers of a version, with zeros behind the last one.
abbrev pub number : Text → ℕ → ℤ
number version i = get_or (parts version) i (pos 0)

abbrev Above : ℤ → Type 0
Above r = ltb_ℤ (pos 0) r ≡ true

same_number : (a b : ℤ) → ltb_ℤ b a ≡ false → ltb_ℤ a b ≡ false → a ≡ b
same_number (pos m) (pos n) h k = ap pos (ground (arith, h, k))
same_number (pos m) (negsuc n) h k = absurd (ground (arith, h))
same_number (negsuc m) (pos n) h k = absurd (ground (arith, k))
same_number (negsuc m) (negsuc n) h k = ap negsuc (ground (arith, h, k))

Newer-part :
    (f g : ℕ → ℤ) (rest : ℤ)
    → (Above rest ↔ Newer (λ i. f (suc i)) (λ i. g (suc i)))
    → Above (compare_part (f 0) (g 0) rest) ↔ Newer f g
Newer-part f g rest later = (forth, back)
  where
    forth : Above (compare_part (f 0) (g 0) rest) → Newer f g
    forth h = elim (Bool-cases (ltb_ℤ (g 0) (f 0))) [
      | inl greater ↦ (0, ground (arith, greater), λ j below. absurd (omega (arith, below)))
      | inr no_ ↦ elim (Bool-cases (ltb_ℤ (f 0) (g 0))) [
        | inl less ↦ absurd (ground (arith, rw (no_, less) at h))
        | inr same ↦
            let (i, greater, before) = later.0 (rw (no_, same) at h) in
            (suc i, greater, before_next i before (same_number (f 0) (g 0) no_ same))
      ]
    ]
      where
        before_next :
            (i : ℕ)
            → ((j : ℕ) → j < i → f (suc j) ≡ g (suc j))
            → f 0 ≡ g 0
            → (j : ℕ) → j < suc i
            → f j ≡ g j
        before_next i before first zero below = first
        before_next i before first (suc j) below = before j (omega (arith, below))

    back : Newer f g → Above (compare_part (f 0) (g 0) rest)
    back (zero, greater, before) =
        let first : ltb_ℤ (g 0) (f 0) ≡ true = ground (arith, greater) in rw first refl
    back (suc i, greater, before) =
        let first : f 0 ≡ g 0 = before 0 (omega arith) in
        let above : Above rest =
          later.1 (i, greater, λ j below. before (suc j) (omega (arith, below))) in
        equal_first (f 0) (g 0) first above
      where
        equal_first : (a b : ℤ) → a ≡ b → Above rest → Above (compare_part a b rest)
        equal_first a b e above =
            let itself : Above (compare_part a a rest) = ground (arith, above) in
            subst (λ x. Above (compare_part a x rest)) e itself

Newer-parts :
    (xs ys : List ℤ)
    → Above (compare_parts xs ys) ↔ Newer (λ i. get_or xs i (pos 0)) (λ i. get_or ys i (pos 0))
unfolding compare_parts
Newer-parts [] [] = (
  λ h. absurd (ground (arith, h)),
  λ n. let (i, greater, before) = n in absurd (ground (arith, greater)),
)
Newer-parts (a ∷ xs) [] = Newer-part _ _ _ (Newer-parts xs [])
Newer-parts [] (b ∷ ys) = Newer-part _ _ _ (Newer-parts [] ys)
Newer-parts (a ∷ xs) (b ∷ ys) = Newer-part _ _ _ (Newer-parts xs ys)

-- An answer offers an update exactly if it names a version and that is newer than the current one.
abbrev pub Offers : Text → UpdateInfo → Type 0
Offers current info =
    (info.available ≡ true)
    ↔ ((info.latest_version ≢ []) × Newer (number info.latest_version) (number current))

Offers-found :
    (b : Bool) (current tag url : Text)
    → (b || is_empty tag) ≡ false
    → Offers current (found_update current tag url)
unfolding compare_versions
Offers-found b current [] url h = absurd (ground (arith, h))
Offers-found b current (c ∷ tag) url h =
    let newer = Newer-parts (parts (c ∷ tag)) (parts current) in
    (λ available. ((λ e. ground (arith, e)), newer.0 available), λ named. newer.1 named.1)

Offers-none : (current : Text) → Offers current (no_update current)
Offers-none current = (λ h. absurd (ground (arith, h)), λ named. absurd (named.0 refl))

Offers-answer :
    (b : Bool) (current tag url : Text) (other : UpdateInfo)
    → Offers current other
    → Offers current (if b || is_empty tag then other else found_update current tag url)
Offers-answer b current tag url other h = elim (Bool-cases (b || is_empty tag)) [
  | inl empty ↦ rw empty h
  | inr named ↦ rw named (Offers-found b current tag url named)
]

-- A check offers an update exactly if it has found a version and, at the first place where the
-- numbers of that version and of the current one differ, the found one has the greater number; a
-- missing number is 0.
pub check_for_update-Offers :
    (curl : Text → Download) (current : Text) → Offers current (check_for_update curl current)
unfolding check_for_update
check_for_update-Offers curl current =
    let response = http_get (curl releases_url) in
    let tags = http_get (curl tags_url) in
    let tag = extract_json_string tags (codes "name") in
    Offers-answer (is_empty response) current (extract_json_string response (codes "tag_name"))
      (extract_json_string response (codes "html_url")) (check_tags current tags)
      (Offers-answer (is_empty tags) current tag
        (codes "https://github.com/diaoyunxi/change-of-system/releases/tag/" ++ tag)
        (no_update current) (Offers-none current))
