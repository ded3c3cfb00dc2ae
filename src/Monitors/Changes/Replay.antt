-- ===== src/Monitors/Changes/Replay.antt =====
-- Replaying the changes on the last map.
use change_of_system.Base.{
  ◌≡◌, refl, Bool, true, false, ◌&&◌, List, [], ◌∷◌, ◌++◌, Option, none, some, Key, Dict, lookup,
  insert, erase, lookup-insert, lookup-erase, if◌then◌else◌, arith,
}
use change_of_system.Monitors.Changes.{
  Change, appeared, vanished, altered, appearances, vanishings, alterations, changes,
}

abbrev pub is_some : {V : Type 0} → Option V → Bool
is_some none = false
is_some (some v) = true

module _ {V : Type 0} (differs : V → V → Bool) where
  -- The third loop reports the difference.
  abbrev pub tells : Option V → Option V → Bool
  tells none new = false
  tells (some v) none = false
  tells (some v) (some w) = differs v w

  -- The new value, or the old one where the difference is not reported.
  abbrev pub kept : Option V → Option V → Option V
  kept none new = new
  kept (some v) none = none
  kept (some v) (some w) = if differs v w then some w else some v

module _ {K V : Type 0} ⦃o : Key K⦄ where
  unfoldable pub apply : Change K V → Dict K V → Dict K V
  apply (appeared k v) m = insert k v m
  apply (vanished k v) m = erase k m
  apply (altered k v w) m = insert k w m

  unfoldable pub replay : List (Change K V) → Dict K V → Dict K V
  unfolding apply
  replay [] m = m
  replay (c ∷ cs) m = replay cs (apply c m)

  pub replay-append :
      (cs ds : List (Change K V)) (m : Dict K V) → replay (cs ++ ds) m ≡ replay ds (replay cs m)
  unfolding replay
  replay-append [] ds m = refl
  replay-append (c ∷ cs) ds m = replay-append cs ds (apply c m)

  -- No key stands twice in the map, as in every `std::map`.
  abbrev pub HoldsEach : Dict K V → Dict K V → Type 0
  HoldsEach m [] = Unit
  HoldsEach m ((k, v) ∷ rest) = (lookup k m ≡ some v) × HoldsEach m rest

  abbrev pub IsMap : Dict K V → Type 0
  IsMap m = HoldsEach m m

  lookup-appearances :
      (j : K) (last current xs d : Dict K V)
      → HoldsEach current xs
      → lookup j (replay (appearances last xs) d) ≡ (
          if is_some (lookup j last)
          then lookup j d
          else if is_some (lookup j xs)
          then lookup j current
          else lookup j d)
  unfolding appearances replay apply lookup
  lookup-appearances j last current [] d h = ground arith
  lookup-appearances j last current ((k, v) ∷ xs) d h = grind (
    arith,
    h.0,
    o.equals_iff k j,
    lookup-insert j k v d,
    lookup-appearances j last current xs d h.1,
    lookup-appearances j last current xs (insert k v d) h.1,
  )

  lookup-vanishings :
      (j : K) (current xs d : Dict K V)
      → lookup j (replay (vanishings current xs) d) ≡ (
          if is_some (lookup j current)
          then lookup j d
          else if is_some (lookup j xs)
          then none
          else lookup j d)
  unfolding vanishings replay apply lookup
  lookup-vanishings j current [] d = ground arith
  lookup-vanishings j current ((k, v) ∷ xs) d = grind (
    arith,
    o.equals_iff k j,
    lookup-erase j k d,
    lookup-vanishings j current xs d,
    lookup-vanishings j current xs (erase k d),
  )

  lookup-alterations :
      (differs : V → V → Bool) (j : K) (last current xs d : Dict K V)
      → HoldsEach current xs
      → lookup j (replay (alterations differs last xs) d) ≡ (
          if is_some (lookup j xs) && tells differs (lookup j last) (lookup j current)
          then lookup j current
          else lookup j d)
  unfolding alterations replay apply lookup
  lookup-alterations differs j last current [] d h = ground arith
  lookup-alterations differs j last current ((k, v) ∷ xs) d h = grind (
    arith,
    h.0,
    o.equals_iff k j,
    lookup-insert j k v d,
    lookup-alterations differs j last current xs d h.1,
    lookup-alterations differs j last current xs (insert k v d) h.1,
  )

  pub lookup-replay-changes :
      (differs : V → V → Bool) (j : K) (last current : Dict K V)
      → IsMap current
      → lookup j (replay (changes differs last current) last)
        ≡ kept differs (lookup j last) (lookup j current)
  unfolding changes
  lookup-replay-changes differs j last current h =
      let seen = replay (appearances last current) last in
      let left = replay (vanishings current last) seen in
      grind (
        arith,
        replay-append (appearances last current)
            (vanishings current last ++ alterations differs last current) last,
        replay-append (vanishings current last) (alterations differs last current) seen,
        lookup-appearances j last current current last h,
        lookup-vanishings j current last seen,
        lookup-alterations differs j last current current left h,
      )
