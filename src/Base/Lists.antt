-- ===== src/Base/Lists.antt =====
-- Lists measured by native numbers.
use Prim.Native.Nat.{ℕ, suc, ◌+◌}
use mathlib.Core.Path.{◌≡◌, subst}
use mathlib.Core.Bool.{Bool, false}
use mathlib.Core.List.{List, [], ◌∷◌, ◌++◌}
use native.Mathlib.Omega.{arith}

module _ {ℓ} {A : Type ℓ} where
  abbrev pub length : List A → ℕ
  length [] = 0
  length (x ∷ xs) = suc (length xs)

  pub length-append : (xs ys : List A) → length (xs ++ ys) ≡ length xs + length ys
  length-append [] ys = omega arith
  length-append (x ∷ xs) ys = omega (arith, length-append xs ys)

-- A property of every element.
abbrev pub All {ℓ κ} : {Item : Type ℓ} → (Item → Type κ) → List Item → Type κ
All Holds [] = Unit
All Holds (first ∷ rest) = Holds first × All Holds rest

-- A property of some element.
pub data Any {ℓ κ} {A : Type ℓ} (P : A → Type κ) : List A → Type (ℓ ⊔ κ) where
  here : {x : A} {xs : List A} → P x → Any P (x ∷ xs)
  there : {x : A} {xs : List A} → Any P xs → Any P (x ∷ xs)

abbrev pub Mem {ℓ} : {A : Type ℓ} → A → List A → Type ℓ
Mem a xs = Any (λ x. x ≡ a) xs

-- No element comes before an earlier one.
abbrev pub Ordered {ℓ} : {A : Type ℓ} → (A → A → Bool) → List A → Type ℓ
Ordered less [] = Unit
Ordered less (x ∷ xs) = All (λ y. less y x ≡ false) xs × Ordered less xs

-- A list whose elements all satisfy a property, read at one of them.
pub All-Mem {ℓ κ} : {A : Type ℓ} (P : A → Type κ) {a : A} (xs : List A) → All P xs → Mem a xs → P a
All-Mem P [] all m = elim m [ ]
All-Mem P (x ∷ xs) all (here e) = subst P e all.0
All-Mem P (x ∷ xs) all (there m) = All-Mem P xs all.1 m

pub All-imp {ℓ κ μ} :
    {A : Type ℓ} {P : A → Type κ} {Q : A → Type μ} (xs : List A)
    → ((x : A) → P x → Q x)
    → All P xs
    → All Q xs
All-imp [] f all = tt
All-imp (x ∷ xs) f all = (f x all.0, All-imp xs f all.1)

pub Mem-under {ℓ} :
    {A : Type ℓ} {a : A} (y : A) {xs ys : List A}
    → (Mem a xs → Mem a ys)
    → Mem a (y ∷ xs)
    → Mem a (y ∷ ys)
Mem-under y f (here e) = here e
Mem-under y f (there m) = there (f m)

pub Mem-swap {ℓ} : {A : Type ℓ} {a x y : A} {xs : List A} → Mem a (x ∷ y ∷ xs) → Mem a (y ∷ x ∷ xs)
Mem-swap (here e) = there (here e)
Mem-swap (there (here e)) = here e
Mem-swap (there (there m)) = there (there m)
