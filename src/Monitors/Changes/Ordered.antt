-- ===== src/Monitors/Changes/Ordered.antt =====
-- The order of the keys of a `std::map` over texts: an insertion keeps it, and no key stands twice.
use change_of_system.Base.{
  ◌≡◌, refl, true, false, [], ◌∷◌, Text, text_key, text_less, text_beq, text_beq_iff, All, Dict,
  lookup, insert, arith,
}
use change_of_system.Monitors.Changes.Replay.{HoldsEach, IsMap}

text_less-irreflexive : (s : Text) → text_less s s ≡ false
unfolding text_less
text_less-irreflexive [] = refl
text_less-irreflexive (c ∷ s) = ground (arith, text_less-irreflexive s)

text_less-transitive :
    (s t u : Text) → text_less s t ≡ true → text_less t u ≡ true → text_less s u ≡ true
unfolding text_less
text_less-transitive s t [] h i = ground (arith, h, i)
text_less-transitive s [] (e ∷ u) h i = ground (arith, h, i)
text_less-transitive [] (d ∷ t) (e ∷ u) h i = refl
text_less-transitive (c ∷ s) (d ∷ t) (e ∷ u) h i = ground (arith, h, i, text_less-transitive s t u)

text_less-total : (s t : Text) → text_beq s t ≡ false → text_less t s ≡ false → text_less s t ≡ true
unfolding text_less text_beq
text_less-total [] [] h i = ground (arith, h, i)
text_less-total [] (d ∷ t) h i = refl
text_less-total (c ∷ s) [] h i = ground (arith, h, i)
text_less-total (c ∷ s) (d ∷ t) h i = ground (arith, h, i, text_less-total s t)

module _ {V : Type 0} where
  abbrev pub Above : Text → Dict Text V → Type 0
  Above k m = All (λ e. text_less k e.0 ≡ true) m

  abbrev pub Sorted : Dict Text V → Type 0
  Sorted [] = Unit
  Sorted ((k, v) ∷ m) = Above k m × Sorted m

  Above-lower : (j k : Text) (m : Dict Text V) → text_less j k ≡ true → Above k m → Above j m
  Above-lower j k [] h a = tt
  Above-lower j k ((i, w) ∷ m) h a = (text_less-transitive j k i h a.0, Above-lower j k m h a.1)

  Above-insert :
      (j k : Text) (v : V) (m : Dict Text V)
      → text_less j k ≡ true
      → Above j m
      → Above j (insert k v m)
  unfolding insert
  Above-insert j k v [] h a = (h, tt)
  Above-insert j k v ((i, w) ∷ m) h a = ground (arith, h, a, Above-insert j k v m h a.1)

  pub insert-Sorted : (k : Text) (v : V) (m : Dict Text V) → Sorted m → Sorted (insert k v m)
  unfolding insert
  insert-Sorted k v [] h = (tt, tt)
  insert-Sorted k v ((j, w) ∷ m) h = ground (
    arith,
    h,
    insert-Sorted k v m h.1,
    Above-lower k j m,
    Above-insert j k v m,
    text_less-total j k,
    text_beq_iff j k,
  )

  HoldsEach-below :
      (j : Text) (w : V) (m xs : Dict Text V)
      → Above j xs
      → HoldsEach m xs
      → HoldsEach ((j, w) ∷ m) xs
  unfolding lookup
  HoldsEach-below j w m [] a h = tt
  HoldsEach-below j w m ((k, v) ∷ xs) a h = (
    ground (arith, a.0, h.0, text_beq_iff j k, text_less-irreflexive j),
    HoldsEach-below j w m xs a.1 h.1,
  )

  pub Sorted-IsMap : (m : Dict Text V) → Sorted m → IsMap m
  unfolding lookup
  Sorted-IsMap [] h = tt
  Sorted-IsMap ((j, w) ∷ m) h =
      (ground (arith, text_beq_iff j j), HoldsEach-below j w m m h.0 (Sorted-IsMap m h.1))
