-- ===== src/Base/Classes.antt =====
-- Equality and order of keys as instances: `operator==` and `operator<` of the source's key types.
use Prim.Native.Nat.{ℕ}
use mathlib.Core.Path.{◌≡◌}
use mathlib.Core.Logic.{◌↔◌}
use mathlib.Core.Bool.{Bool, true, false, ◌&&◌, ◌||◌}
use mathlib.Core.List.{List, [], ◌∷◌}
use native.Mathlib.Omega.{arith}
use change_of_system.Base.Tests.{ltb, nat_beq, nat_beq_iff}

-- `less` is the strict order by which `std::map` sorts.
pub record Key {ℓ} (A : Type ℓ) : Type ℓ where
  pub less : A → A → Bool
  pub equals : A → A → Bool
  pub equals_iff : (a b : A) → (equals a b ≡ true) ↔ (a ≡ b)

instance abbrev pub nat_key : Key ℕ
nat_key = record { less = ltb; equals = nat_beq; equals_iff = nat_beq_iff }

-- `std::string` as its bytes.
abbrev pub Text : Type 0
Text = List ℕ

unfoldable pub text_beq : Text → Text → Bool
text_beq [] [] = true
text_beq [] (d ∷ t) = false
text_beq (c ∷ s) [] = false
text_beq (c ∷ s) (d ∷ t) = nat_beq c d && text_beq s t

pub text_beq_iff : (s t : Text) → (text_beq s t ≡ true) ↔ (s ≡ t)
unfolding text_beq
text_beq_iff [] [] = ground arith
text_beq_iff [] (d ∷ t) = ground arith
text_beq_iff (c ∷ s) [] = ground arith
text_beq_iff (c ∷ s) (d ∷ t) = ground (arith, text_beq_iff s t)

-- Lexicographic order of the bytes.
unfoldable pub text_less : Text → Text → Bool
text_less s [] = false
text_less [] (d ∷ t) = true
text_less (c ∷ s) (d ∷ t) = ltb c d || (nat_beq c d && text_less s t)

instance abbrev pub text_key : Key Text
text_key = record { less = text_less; equals = text_beq; equals_iff = text_beq_iff }

module _ {ℓ} {A : Type ℓ} ⦃k : Key A⦄ where
  infix 50 ◌==◌
  abbrev pub ◌==◌ : A → A → Bool
  a == b = k.equals a b

  -- `std::find(first, last, a) != last`.
  unfoldable pub contains : List A → A → Bool
  contains [] a = false
  contains (x ∷ xs) a = k.equals x a || contains xs a
