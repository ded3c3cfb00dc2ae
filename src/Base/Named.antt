-- ===== src/Base/Named.antt =====
-- Lists of rules that carry a name, as the filter, the alert manager and the security auditor keep
-- them: replacing or appending a rule, removing by name, and changing the rule of a name.
use mathlib.Core.Path.{◌≡◌, refl, sym, subst}
use mathlib.Core.Logic.{◌≢◌, inl, inr}
use mathlib.Core.Bool.{not}
use mathlib.Core.List.{List, [], ◌∷◌}
use mathlib.Core.Option
use mathlib.Core.Option.{Option, none, some}
use native.Mathlib.Omega.{arith}
use change_of_system.Base.Tests.{if◌then◌else◌, Bool-cases}
use change_of_system.Base.Lists.{All, select, find_if, update_first, All-select}
use change_of_system.Base.Classes.{Text, text_beq, text_beq_iff}

module _ {R : Type 0} (name_of : R → Text) where
  -- The first rule of that name, as `std::find_if` finds it.
  abbrev pub find_named : Text → List R → Option R
  find_named n = find_if (λ r. text_beq (name_of r) n)

  -- `*it = rule` where `find_if` finds a rule of the same name, else `push_back(rule)`.
  unfoldable pub put_named : R → List R → List R
  put_named r [] = r ∷ []
  put_named r (x ∷ xs) =
      let rest = put_named r xs in if text_beq (name_of x) (name_of r) then r ∷ xs else x ∷ rest

  -- `erase(remove_if(...))`: every rule of that name goes.
  abbrev pub remove_named : Text → List R → List R
  remove_named n = select (λ r. not (text_beq (name_of r) n))

  -- Change the first rule of that name.
  abbrev pub change_named : Text → (R → R) → List R → List R
  change_named n = update_first (λ r. text_beq (name_of r) n)

  -- No rule has the name; no two rules share one.
  abbrev pub Fresh : Text → List R → Type 0
  Fresh n = All (λ r. name_of r ≢ n)

  abbrev pub Distinct : List R → Type 0
  Distinct [] = Unit
  Distinct (x ∷ xs) = Fresh (name_of x) xs × Distinct xs

  pub find-put :
      (n : Text) (r : R) (xs : List R)
      → find_named n (put_named r xs) ≡ (if text_beq (name_of r) n then some r else find_named n xs)
  unfolding put_named
  find-put n r [] = refl
  find-put n r (x ∷ xs) = ground (
    arith,
    find-put n r xs,
    text_beq_iff (name_of x) (name_of r),
    text_beq_iff (name_of x) n,
    text_beq_iff (name_of r) n,
  )

  pub find-remove :
      (n m : Text) (xs : List R)
      → find_named n (remove_named m xs) ≡ (if text_beq m n then none else find_named n xs)
  find-remove n m [] = ground arith
  find-remove n m (x ∷ xs) = ground (
    arith,
    find-remove n m xs,
    text_beq_iff (name_of x) m,
    text_beq_iff (name_of x) n,
    text_beq_iff m n,
  )

  pub Fresh-put :
      (n : Text) (r : R) (xs : List R) → name_of r ≢ n → Fresh n xs → Fresh n (put_named r xs)
  unfolding put_named
  Fresh-put n r [] h f = (h, tt)
  Fresh-put n r (x ∷ xs) h f = ground (arith, Fresh-put n r xs h f.1)

  pub Distinct-put : (r : R) (xs : List R) → Distinct xs → Distinct (put_named r xs)
  unfolding put_named
  Distinct-put r [] d = (tt, tt)
  Distinct-put r (x ∷ xs) d = elim (Bool-cases (text_beq (name_of x) (name_of r))) [
    | inl same ↦
        rw same (subst (λ n. Fresh n xs) ((text_beq_iff (name_of x) (name_of r)).0 same) d.0, d.1)
    | inr other ↦ rw other (
      Fresh-put (name_of x) r xs (λ e. cc (other, (text_beq_iff (name_of x) (name_of r)).1 (sym e)))
          d.0,
      Distinct-put r xs d.1,
    )
  ]

  pub Distinct-remove : (n : Text) (xs : List R) → Distinct xs → Distinct (remove_named n xs)
  Distinct-remove n [] d = tt
  Distinct-remove n (x ∷ xs) d = ground (
    arith,
    Distinct-remove n xs d.1,
    All-select (λ r. name_of r ≢ name_of x) (λ r. not (text_beq (name_of r) n)) xs d.0,
  )

  module _ (n : Text) (f : R → R) (keeps : (r : R) → name_of (f r) ≡ name_of r) where
    pub find-change :
        (m : Text) (xs : List R)
        → find_named m (change_named n f xs)
          ≡ (if text_beq n m then Option.map f (find_named m xs) else find_named m xs)
    find-change m [] = ground arith
    find-change m (x ∷ xs) = ground (
      arith,
      find-change m xs,
      keeps x,
      text_beq_iff (name_of x) n,
      text_beq_iff (name_of x) m,
      text_beq_iff n m,
      text_beq_iff (name_of (f x)) m,
    )

    pub Fresh-change : (m : Text) (xs : List R) → Fresh m xs → Fresh m (change_named n f xs)
    Fresh-change m [] h = tt
    Fresh-change m (x ∷ xs) h = ground (arith, keeps x, Fresh-change m xs h.1)

    pub Distinct-change : (xs : List R) → Distinct xs → Distinct (change_named n f xs)
    Distinct-change [] d = tt
    Distinct-change (x ∷ xs) d = elim (Bool-cases (text_beq (name_of x) n)) [
      | inl hit ↦ rw hit (subst (λ m. Fresh m xs) (sym (keeps x)) d.0, d.1)
      | inr miss ↦ rw miss (Fresh-change (name_of x) xs d.0, Distinct-change xs d.1)
    ]
