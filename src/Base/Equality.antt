-- ===== src/Base/Equality.antt =====
-- Go's `==` on comparable values, as an interface with instances.
use Prim.Native.Nat.{ℕ}
use Prim.Native.String.{String}
use mathlib.Core.Logic.{ite, dite}
use mathlib.Core.Bool.{Bool, true, false, ◌||◌, Bool-discrete}
use mathlib.Core.List.{List, [], ◌∷◌}
use native.Mathlib.Decide.{ℕ_discrete}
use text.Mathlib.Text
use text.Mathlib.TextEquality.{eq_iff}

-- A type whose values can be compared.
pub record Comparable {ℓ} (A : Type ℓ) : Type ℓ where
  pub dec : Discrete A

module _ {ℓ} {A : Type ℓ} ⦃e : Comparable A⦄ where
  infix 50 ◌==◌
  abbrev pub ◌==◌ : A → A → Bool
  a == b = ite (e.dec a b) true false

  -- slices.Contains
  abbrev pub contains : List A → A → Bool
  contains [] a = false
  contains (x ∷ xs) a = a == x || contains xs a

instance unfoldable pub nat_comparable : Comparable ℕ
unfolding ℕ_discrete
nat_comparable = record { dec = ℕ_discrete }

-- Shut in proofs, where a split on `s == t` yields the equation or its negation.
instance unfoldable pub string_comparable : Comparable String
string_comparable = record {
  dec = λ s t.
      dite (Bool-discrete (Text.◌==◌ s t) true) (λ p. yes ((eq_iff s t).0 p))
        (λ q. no (λ p. q ((eq_iff s t).1 p)));
}
