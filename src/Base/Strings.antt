-- ===== src/Base/Strings.antt =====
-- Go's strings as lists of bytes: the functions of package strings that the program calls, and the
-- decimal digits that `%d` prints.
use Prim.Native.Nat.{ℕ, zero, suc, ◌+◌, ◌-◌, ◌/◌, ◌%◌}
use Prim.Native.Char.{code}
use Prim.Native.String.{String}
use mathlib.Core.Path.{◌≡◌, refl, ap, ◌∙◌, sym}
use mathlib.Core.Bool.{Bool, true, false, ◌&&◌, ◌||◌}
use mathlib.Core.Option.{Option, none, some}
use mathlib.Core.List.{List, [], ◌∷◌, ◌++◌}
use native.Mathlib.Omega.{arith}
use ussycode.Base.Tests.{if◌then◌else◌, ltb, leb}
use ussycode.Base.Lists.{length, length-append}
use ussycode.Base.Classes.{◌==◌, nat_eq, list_eq, beq_iff}

abbrev pub Text : Type 0
Text = List ℕ

-- The bytes that a String stands for: one for each of its characters.
abbrev pub bytes : String → Text
bytes String.[] = []
bytes (String.◌∷◌ letter rest) = code letter ∷ bytes rest

-- The byte offsets that a slice expression s[:n] and s[n:] keeps.
abbrev pub take {ℓ} : {A : Type ℓ} → ℕ → List A → List A
take zero xs = []
take (suc n) [] = []
take (suc n) (x ∷ xs) = x ∷ take n xs

abbrev pub drop {ℓ} : {A : Type ℓ} → ℕ → List A → List A
drop zero xs = xs
drop (suc n) [] = []
drop (suc n) (x ∷ xs) = drop n xs

unfoldable pub is_empty : Text → Bool
is_empty [] = true
is_empty (c ∷ t) = false

-- `strings.Contains(t, c)` for a byte c.
unfoldable pub contains_byte : ℕ → Text → Bool
contains_byte c [] = false
contains_byte c (x ∷ t) = x == c || contains_byte c t

-- The last offset of a byte, `strings.LastIndex`, where -1 is `none`.
unfoldable pub last_index : ℕ → Text → Option ℕ
last_index c [] = none
last_index c (x ∷ t) = elim (last_index c t) [
  | some i ↦ some (suc i)
  | none ↦ if x == c then some 0 else none
]

unfoldable pub has_prefix : Text → Text → Bool
has_prefix t p = leb (length p) (length t) && take (length p) t == p

unfoldable pub trim_prefix : Text → Text → Text
unfolding has_prefix
trim_prefix t p = if has_prefix t p then drop (length p) t else t

unfoldable pub has_suffix : Text → Text → Bool
has_suffix t s = leb (length s) (length t) && drop (length t - length s) t == s

unfoldable pub trim_suffix : Text → Text → Text
unfolding has_suffix
trim_suffix t s = if has_suffix t s then take (length t - length s) t else t

pub take-drop {ℓ} : {A : Type ℓ} (n : ℕ) (xs : List A) → take n xs ++ drop n xs ≡ xs
take-drop zero xs = refl
take-drop (suc n) [] = refl
take-drop (suc n) (x ∷ xs) = ap (λ ys. x ∷ ys) (take-drop n xs)

pub take-append {ℓ} : {A : Type ℓ} (xs ys : List A) → take (length xs) (xs ++ ys) ≡ xs
take-append [] ys = refl
take-append (x ∷ xs) ys = ap (λ zs. x ∷ zs) (take-append xs ys)

pub drop-append {ℓ} : {A : Type ℓ} (xs ys : List A) → drop (length xs) (xs ++ ys) ≡ ys
drop-append [] ys = refl
drop-append (x ∷ xs) ys = drop-append xs ys

length-minus : (xs s : Text) → length (xs ++ s) - length s ≡ length xs
length-minus xs s = omega (arith, length-append xs s)

pub has_suffix-append : (xs s : Text) → has_suffix (xs ++ s) s ≡ true
unfolding has_suffix
has_suffix-append xs s =
    rw (length-minus xs s, drop-append xs s) (ground (arith, length-append xs s, beq_iff s s))

pub trim_suffix-append : (xs s : Text) → trim_suffix (xs ++ s) s ≡ xs
unfolding trim_suffix
trim_suffix-append xs s = rw (has_suffix-append xs s, length-minus xs s) (take-append xs s)

suffix-drop : (t s : Text) → has_suffix t s ≡ true → drop (length t - length s) t ≡ s
unfolding has_suffix
suffix-drop t s h = ground (arith, beq_iff (drop (length t - length s) t) s)

-- A text with a suffix is what is left of it, and the suffix.
pub trim_suffix-has_suffix : (t s : Text) → has_suffix t s ≡ true → t ≡ trim_suffix t s ++ s
unfolding trim_suffix
trim_suffix-has_suffix t s h = rw h (
    sym (take-drop (length t - length s) t)
    ∙ ap (λ ys. take (length t - length s) t ++ ys) (suffix-drop t s h))

pub has_prefix-append : (p t : Text) → has_prefix (p ++ t) p ≡ true
unfolding has_prefix
has_prefix-append p t = rw (take-append p t) (ground (arith, length-append p t, beq_iff p p))

pub trim_prefix-append : (p t : Text) → trim_prefix (p ++ t) p ≡ t
unfolding trim_prefix
trim_prefix-append p t = rw (has_prefix-append p t) (drop-append p t)

pub last_index-none : (c : ℕ) (t : Text) → contains_byte c t ≡ false → last_index c t ≡ none
unfolding contains_byte last_index
last_index-none c [] h = refl
last_index-none c (x ∷ t) h = rw (last_index-none c t (ground arith)) (ground arith)

pub last_index-append :
    (c : ℕ) (t s : Text) → contains_byte c s ≡ false → last_index c (t ++ c ∷ s) ≡ some (length t)
unfolding last_index
last_index-append c [] s h = rw (last_index-none c s h) (ground (arith, beq_iff c c))
last_index-append c (x ∷ t) s h = rw (last_index-append c t s h) refl

pub contains_byte-append :
    (c : ℕ) (t s : Text) → contains_byte c (t ++ s) ≡ (contains_byte c t || contains_byte c s)
unfolding contains_byte
contains_byte-append c [] s = refl
contains_byte-append c (x ∷ t) s = ground (arith, contains_byte-append c t s)

-- The digits of a number, most significant first, for a fuel of at least the number of them.
unfoldable pub digits : ℕ → ℕ → Text
digits zero n = []
digits (suc fuel) n =
    let rest = digits fuel (n / 10) in
    if ltb n 10 then (48 + n) ∷ [] else rest ++ (48 + n % 10) ∷ []

-- `%d` of a number that is not negative: a number has at most one more digit than its value.
unfoldable pub decimal : ℕ → Text
unfolding digits
decimal n = digits (suc n) n
