-- ===== src/Base/Classes.antt =====
-- Equality tests that agree with the equality of their type.
use Prim.Native.Nat.{ℕ}
use Prim.Native.String.{String}
use mathlib.Core.Path.{◌≡◌, refl}
use mathlib.Core.Logic.{◌↔◌}
use mathlib.Core.Bool.{Bool, true, false, ◌&&◌}
use mathlib.Core.List.{List, [], ◌∷◌}
use native.Mathlib.Omega.{arith}
use text.Mathlib.Text.{◌==◌ as text_test}
use text.Mathlib.TextEquality.{eq_iff}
use ussycode.Base.Tests.{nat_beq, nat_beq_iff}

-- A type whose values Go compares by `==`.
pub record Comparable {ℓ} (T : Type ℓ) : Type ℓ where
  pub test : T → T → Bool
  pub decides : (x y : T) → (test x y ≡ true) ↔ (x ≡ y)

instance abbrev pub string_eq : Comparable String
string_eq = record { test = text_test; decides = eq_iff }

instance abbrev pub nat_eq : Comparable ℕ
nat_eq = record { test = nat_beq; decides = nat_beq_iff }

module _ {ℓ} {T : Type ℓ} ⦃c : Comparable T⦄ where
  infix 50 ◌==◌
  abbrev pub ◌==◌ : T → T → Bool
  x == y = c.test x y

  -- The test at any type with an instance, for `ground`.
  pub beq_iff : (x y : T) → ((x == y) ≡ true) ↔ (x ≡ y)
  beq_iff x y = c.decides x y

  -- Lists are compared element by element.
  unfoldable pub list_beq : List T → List T → Bool
  list_beq (x ∷ left) (y ∷ right) = x == y && list_beq left right
  list_beq [] [] = true
  list_beq _ _ = false

  pub list_beq-decides : (left right : List T) → (list_beq left right ≡ true) ↔ (left ≡ right)
  unfolding list_beq
  list_beq-decides (x ∷ left) (y ∷ right) =
      ground (arith, c.decides x y, list_beq-decides left right)
  list_beq-decides (x ∷ left) [] = ((λ e. cc), λ e. cc)
  list_beq-decides [] (y ∷ right) = ((λ e. cc), λ e. cc)
  list_beq-decides [] [] = ((λ e. refl), λ e. refl)

instance abbrev pub list_eq {ℓ} : {T : Type ℓ} ⦃c : Comparable T⦄ → Comparable (List T)
list_eq = record { test = list_beq; decides = list_beq-decides }
