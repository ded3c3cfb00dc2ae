-- ===== src/Base/Maps.antt =====
-- `std::map`: an association list in the order of its keys.
use mathlib.Core.Path.{◌≡◌, refl}
use native.Mathlib.Omega.{arith}
use mathlib.Core.List.{List, [], ◌∷◌}
use mathlib.Core.Option.{Option, none, some}
use change_of_system.Base.Tests.{if◌then◌else◌}
use change_of_system.Base.Classes.{Key}

abbrev pub Dict {ℓ κ} : Type ℓ → Type κ → Type (ℓ ⊔ κ)
Dict K V = List (K × V)

abbrev pub value_or {ℓ} : {V : Type ℓ} → V → Option V → V
value_or d none = d
value_or d (some v) = v

module _ {ℓ κ} {K : Type ℓ} ⦃o : Key K⦄ {V : Type κ} where
  -- `find(k)`.
  unfoldable pub lookup : K → Dict K V → Option V
  lookup k [] = none
  lookup k ((j, v) ∷ m) = if o.equals j k then some v else lookup k m

  -- `m[k] = v`.
  unfoldable pub insert : K → V → Dict K V → Dict K V
  insert k v [] = (k, v) ∷ []
  insert k v ((j, w) ∷ m) =
      let rest = insert k v m in
      if o.equals j k then (j, v) ∷ m else if o.less k j then (k, v) ∷ (j, w) ∷ m else (j, w) ∷ rest

  -- `m[k] = f(m[k])`, where a missing key starts from the default value `d`.
  unfoldable pub update_at : K → V → (V → V) → Dict K V → Dict K V
  update_at k d f m = insert k (f (value_or d (lookup k m))) m

  unfoldable pub erase : K → Dict K V → Dict K V
  erase k [] = []
  erase k ((j, v) ∷ m) = let rest = erase k m in if o.equals j k then rest else (j, v) ∷ rest

  pub lookup-insert :
      (j k : K) (v : V) (m : Dict K V)
      → lookup j (insert k v m) ≡ (if o.equals k j then some v else lookup j m)
  unfolding lookup insert
  lookup-insert j k v [] = refl
  lookup-insert j k v ((i, w) ∷ m) =
      ground (arith, lookup-insert j k v m, o.equals_iff i k, o.equals_iff i j, o.equals_iff k j)

  pub lookup-update_at :
      (j k : K) (d : V) (f : V → V) (m : Dict K V)
      → lookup j (update_at k d f m)
        ≡ (if o.equals k j then some (f (value_or d (lookup j m))) else lookup j m)
  unfolding update_at
  lookup-update_at j k d f m =
      ground (arith, lookup-insert j k (f (value_or d (lookup k m))) m, o.equals_iff k j)

  pub lookup-erase :
      (j k : K) (m : Dict K V) → lookup j (erase k m) ≡ (if o.equals k j then none else lookup j m)
  unfolding lookup erase
  lookup-erase j k [] = ground arith
  lookup-erase j k ((i, w) ∷ m) =
      ground (arith, lookup-erase j k m, o.equals_iff i k, o.equals_iff i j, o.equals_iff k j)

  pub lookup-insert_self : (k : K) (v : V) (m : Dict K V) → lookup k (insert k v m) ≡ some v
  lookup-insert_self k v m = ground (arith, lookup-insert k k v m, o.equals_iff k k)
