-- ===== src/Base/Decimals.antt =====
-- The decimal digits of a number give the number back.
use Prim.Native.Nat.{ℕ, zero, suc, ◌+◌, ◌-◌, ◌*◌, ◌/◌, ◌%◌, ◌<◌}
use mathlib.Core.Path.{◌≡◌, refl, ap, ◌∙◌, sym}
use mathlib.Core.Logic.{inl, inr}
use mathlib.Core.Bool.{false}
use mathlib.Core.List.{[], ◌∷◌, ◌++◌}
use native.Mathlib.Omega.{arith}
use ussycode.Base.Tests.{ltb, Bool-cases}
use ussycode.Base.Classes.{nat_eq, beq_iff}
use ussycode.Base.Strings.{Text, contains_byte, contains_byte-append, digits, decimal}

-- The number that digits stand for, read on from another.
read_on : ℕ → Text → ℕ
read_on number [] = number
read_on number (digit ∷ rest) = read_on (number * 10 + (digit - 48)) rest

read_on-append :
    (number : ℕ) (front : Text) (digit : ℕ)
    → read_on number (front ++ digit ∷ []) ≡ read_on number front * 10 + (digit - 48)
unfolding read_on
read_on-append number [] digit = refl
read_on-append number (first ∷ rest) digit = read_on-append (number * 10 + (first - 48)) rest digit

read_on-digits : (fuel n : ℕ) → n < fuel → read_on 0 (digits fuel n) ≡ n
unfolding digits read_on
read_on-digits zero n h = absurd (omega arith)
read_on-digits (suc fuel) n h = elim (Bool-cases (ltb n 10)) [
  | inl small ↦ rw (small, read_on) (omega arith)
  | inr large ↦
      let rest = read_on-digits fuel (n / 10) (ground (arith, large)) in
      rw (large, read_on-append 0 (digits fuel (n / 10)) (48 + n % 10), rest) (omega arith)
]

pub decimal_injective : (m n : ℕ) → decimal m ≡ decimal n → m ≡ n
unfolding decimal
decimal_injective m n h =
    sym (read_on-digits (suc m) m (omega arith))
    ∙ ap (read_on 0) h
    ∙ read_on-digits (suc n) n (omega arith)

-- No digit is the byte of a dot.
digits_dotless : (fuel n : ℕ) → contains_byte 46 (digits fuel n) ≡ false
unfolding digits contains_byte
digits_dotless zero n = refl
digits_dotless (suc fuel) n = elim (Bool-cases (ltb n 10)) [
  | inl small ↦ rw small (ground (arith, beq_iff (48 + n) 46))
  | inr large ↦
      rw
        (
          large,
          contains_byte-append 46 (digits fuel (n / 10)) ((48 + n % 10) ∷ []),
          digits_dotless fuel (n / 10),
        )
        (ground (arith, beq_iff (48 + n % 10) 46))
]

pub decimal_dotless : (n : ℕ) → contains_byte 46 (decimal n) ≡ false
unfolding decimal
decimal_dotless n = digits_dotless (suc n) n

-- Texts that are cut at their first occurrence of a byte.
pub cut_injective :
    (byte : ℕ) (front front' back back' : Text)
    → contains_byte byte front ≡ false
    → contains_byte byte front' ≡ false
    → front ++ byte ∷ back ≡ front' ++ byte ∷ back'
    → (front ≡ front') × (back ≡ back')
unfolding contains_byte
cut_injective byte [] [] back back' h h' e = (refl, cc)
cut_injective byte [] (x ∷ front') back back' h h' e =
    let same : byte ≡ x = cc in absurd (ground (arith, h', beq_iff x byte))
cut_injective byte (x ∷ front) [] back back' h h' e =
    let same : x ≡ byte = cc in absurd (ground (arith, h, beq_iff x byte))
cut_injective byte (x ∷ front) (y ∷ front') back back' h h' e =
    let rest =
      cut_injective byte front front' back back' (ground (arith, h)) (ground (arith, h')) (cc) in
    let same : x ≡ y = cc in (cc (same, rest.0), rest.1)
