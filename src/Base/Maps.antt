-- ===== src/Base/Maps.antt =====
-- A Go map as the list of its entries, in the order in which a `range` happens to visit them.
-- `delete` drops every entry of a key, so its law needs no hypothesis.
use Prim.Native.Nat.{suc}
use mathlib.Core.Path.{◌≡◌, refl}
use mathlib.Core.Logic.{◌≢◌, ◌⊎◌, inl, inr}
use mathlib.Core.Option.{Option, none, some}
use mathlib.Core.List.{List, [], ◌∷◌}
use native.Mathlib.Omega.{arith}
use ussycode.Base.Tests.{if◌then◌else◌, Bool-cases}
use ussycode.Base.Lists.{length}
use ussycode.Base.Classes.{Comparable, ◌==◌}

abbrev pub GoMap {ℓ κ} : Type ℓ → Type κ → Type (ℓ ⊔ κ)
GoMap K V = List (K × V)

module _ {ℓ κ} {K : Type ℓ} {V : Type κ} ⦃e : Comparable K⦄ where
  unfoldable pub lookup : K → GoMap K V → Option V
  lookup key [] = none
  lookup key ((found, value) ∷ rest) = if found == key then some value else lookup key rest

  unfoldable pub insert : K → V → GoMap K V → GoMap K V
  insert key value [] = (key, value) ∷ []
  insert key value ((found, old) ∷ rest) =
      if found == key then (key, value) ∷ rest else (found, old) ∷ insert key value rest

  unfoldable pub delete : K → GoMap K V → GoMap K V
  delete key [] = []
  delete key ((found, old) ∷ rest) =
      if found == key then delete key rest else (found, old) ∷ delete key rest

  -- An assignment m[key] = value, read at any key.
  pub lookup-insert :
      (key read : K) (value : V) (rows : GoMap K V)
      → lookup read (insert key value rows) ≡ (if key == read then some value else lookup read rows)
  unfolding insert lookup
  lookup-insert key read value ((found, old) ∷ rest) = ground (
    arith,
    lookup-insert key read value rest,
    e.decides found read,
    e.decides found key,
    e.decides key read,
  )
  lookup-insert key read value [] = refl

  pub lookup-delete :
      (k j : K) (m : GoMap K V) → lookup j (delete k m) ≡ (if k == j then none else lookup j m)
  unfolding lookup delete
  lookup-delete k j [] = ground arith
  lookup-delete k j ((i, w) ∷ m) =
      ground (arith, e.decides k j, e.decides i k, e.decides i j, lookup-delete k j m)

  -- No key has two entries.
  abbrev pub Distinct : GoMap K V → Type κ
  Distinct [] = Unit
  Distinct ((k, v) ∷ m) = (lookup k m ≡ none) × Distinct m

  pub insert-Distinct : (k : K) (v : V) (m : GoMap K V) → Distinct m → Distinct (insert k v m)
  unfolding insert lookup
  insert-Distinct k v [] d = (refl, tt)
  insert-Distinct k v ((i, w) ∷ m) d =
      ground (arith, e.decides i k, e.decides k i, insert-Distinct k v m d.1, lookup-insert k i v m)

  pub delete-Distinct : (k : K) (m : GoMap K V) → Distinct m → Distinct (delete k m)
  unfolding delete
  delete-Distinct k [] d = tt
  delete-Distinct k ((i, w) ∷ m) d =
      ground (arith, e.decides i k, e.decides k i, delete-Distinct k m d.1, lookup-delete k i m)

  pub length-insert_new :
      (k : K) (v : V) (m : GoMap K V) → lookup k m ≡ none → length (insert k v m) ≡ suc (length m)
  unfolding insert lookup
  length-insert_new k v [] h = refl
  length-insert_new k v ((i, w) ∷ m) h = ground (arith, length-insert_new k v m)

  pub delete-eq_self : (k : K) (m : GoMap K V) → lookup k m ≡ none → delete k m ≡ m
  unfolding delete lookup
  delete-eq_self k [] h = refl
  delete-eq_self k ((i, w) ∷ m) h = ground (arith, delete-eq_self k m)

  pub length-delete :
      (k : K) {v : V} (m : GoMap K V)
      → Distinct m
      → lookup k m ≡ some v
      → suc (length (delete k m)) ≡ length m
  unfolding delete lookup
  length-delete k [] d h = cc
  length-delete k {v} ((i, w) ∷ m) d h =
      ground (arith, e.decides i k, delete-eq_self k m, length-delete k {v = v} m)

  pub lookup-insert_self : (k : K) (v : V) (m : GoMap K V) → lookup k (insert k v m) ≡ some v
  lookup-insert_self k v m = ground (arith, lookup-insert k k v m, e.decides k k)

  pub lookup-insert_ne :
      (k j : K) (v : V) (m : GoMap K V) → k ≢ j → lookup j (insert k v m) ≡ lookup j m
  lookup-insert_ne k j v m h = ground (arith, lookup-insert k j v m, e.decides k j)

  -- What an entry of an updated map is: the new one, or an old one of another key.
  pub insert-cases :
      (k j : K) {v w : V} (m : GoMap K V)
      → lookup j (insert k v m) ≡ some w
      → ((k ≡ j) × (v ≡ w)) ⊎ ((k ≢ j) × (lookup j m ≡ some w))
  insert-cases k j {v} m h = elim (Bool-cases (k == j)) [
    | inl same ↦ inl ((e.decides k j).0 same, ground (arith, lookup-insert k j v m))
    | inr other ↦ inr (ground (arith, e.decides k j), ground (arith, lookup-insert k j v m))
  ]

  pub delete-cases :
      (k j : K) {w : V} (m : GoMap K V)
      → lookup j (delete k m) ≡ some w
      → (k ≢ j) × (lookup j m ≡ some w)
  delete-cases k j m h =
      (ground (arith, e.decides k j, lookup-delete k j m), ground (arith, lookup-delete k j m))
