-- ===== src/Stats/Top.antt =====
-- The largest counts.
use change_of_system.Base.{
  ℕ, zero, suc, ◌≤◌, ◌≡◌, refl, ap, ◌∙◌, inl, inr, Bool-cases, List, [], ◌∷◌, ◌++◌, Text, Dict, All,
  length, length-take, take, drop, ltb, arith,
}
use Prim.Native.Nat.{min}
use mathlib.Core.List.Perm
use mathlib.Core.List.{Perm}
use mathlib.Core.Path.{subst}
use change_of_system.Stats.{insert_count, sort_counts, top}

-- The counts fall along the list.
abbrev pub Falling : List (Text × ℕ) → Type 0
Falling [] = Unit
Falling (p ∷ ps) = All (λ q. q.1 ≤ p.1) ps × Falling ps

All-weaken :
    (n m : ℕ) (ps : List (Text × ℕ)) → n ≤ m → All (λ q. q.1 ≤ n) ps → All (λ q. q.1 ≤ m) ps
All-weaken n m [] h a = tt
All-weaken n m (p ∷ ps) h a = (omega (arith, a.0), All-weaken n m ps h a.1)

All-insert :
    (n : ℕ) (p : Text × ℕ) (ps : List (Text × ℕ))
    → p.1 ≤ n
    → All (λ q. q.1 ≤ n) ps
    → All (λ q. q.1 ≤ n) (insert_count p ps)
unfolding insert_count
All-insert n p [] h a = (h, tt)
All-insert n p (q ∷ qs) h a = ground (arith, All-insert n p qs h a.1)

insert_count-Falling :
    (p : Text × ℕ) (ps : List (Text × ℕ)) → Falling ps → Falling (insert_count p ps)
unfolding insert_count
insert_count-Falling p [] f = (tt, tt)
insert_count-Falling p (q ∷ qs) f = elim (Bool-cases (ltb p.1 q.1)) [
  | inl smaller ↦
      rw smaller (All-insert q.1 p qs (ground (arith, smaller)) f.0, insert_count-Falling p qs f.1)
  | inr not_smaller ↦
      let below : q.1 ≤ p.1 = ground (arith, not_smaller) in
      rw not_smaller ((below, All-weaken q.1 p.1 qs below f.0), (f.0, f.1))
]

sort_counts-Falling : (m : Dict Text ℕ) → Falling (sort_counts m)
unfolding sort_counts
sort_counts-Falling [] = tt
sort_counts-Falling (p ∷ ps) = insert_count-Falling p (sort_counts ps) (sort_counts-Falling ps)

insert_count-Perm : (p : Text × ℕ) (ps : List (Text × ℕ)) → Perm (p ∷ ps) (insert_count p ps)
unfolding insert_count
insert_count-Perm p [] = Perm.refl (p ∷ [])
insert_count-Perm p (q ∷ qs) = elim (Bool-cases (ltb p.1 q.1)) [
  | inl smaller ↦ rw smaller (Perm.trans (Perm.swap q p qs) (Perm.cons q (insert_count-Perm p qs)))
  | inr not_smaller ↦ rw not_smaller (Perm.refl (p ∷ q ∷ qs))
]

sort_counts-Perm : (m : Dict Text ℕ) → Perm m (sort_counts m)
unfolding sort_counts
sort_counts-Perm [] = Perm.refl []
sort_counts-Perm (p ∷ ps) =
    Perm.trans (Perm.cons p (sort_counts-Perm ps)) (insert_count-Perm p (sort_counts ps))

length-insert_count :
    (p : Text × ℕ) (ps : List (Text × ℕ)) → length (insert_count p ps) ≡ suc (length ps)
unfolding insert_count
length-insert_count p [] = refl
length-insert_count p (q ∷ qs) = ground (arith, length-insert_count p qs)

length-sort_counts : (m : Dict Text ℕ) → length (sort_counts m) ≡ length m
unfolding sort_counts
length-sort_counts [] = refl
length-sort_counts (p ∷ ps) =
    length-insert_count p (sort_counts ps) ∙ ap suc (length-sort_counts ps)

take-drop : (n : ℕ) (ps : List (Text × ℕ)) → ps ≡ take n ps ++ drop n ps
take-drop zero ps = refl
take-drop (suc n) [] = refl
take-drop (suc n) (p ∷ ps) = ap (λ r. p ∷ r) (take-drop n ps)

-- The result has as many entries as asked for, or all if there are fewer; together with the entries
-- left out, and in front of them, they are those of the map in an order in which the counts fall.
pub top-Falling :
    (n : ℕ) (m : Dict Text ℕ)
    → (length (top n m) ≡ min n (length m))
      × (rest : List (Text × ℕ)) × Perm m (top n m ++ rest)
      × Falling (top n m ++ rest)
unfolding top
top-Falling n m = (
  length-take n (sort_counts m) ∙ ap (min n) (length-sort_counts m),
  drop n (sort_counts m),
  subst (λ ps. Perm m ps) halves (sort_counts-Perm m),
  subst Falling halves (sort_counts-Falling m),
)
  where
    halves : sort_counts m ≡ take n (sort_counts m) ++ drop n (sort_counts m)
    halves = take-drop n (sort_counts m)
