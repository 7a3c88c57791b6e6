-- ===== src/Base/Runes.antt =====
-- How Go reads the bytes of a string as runes (a `range` over it), by UTF-8.
use Prim.Native.Nat.{ℕ, zero, suc, ◌+◌, ◌-◌, ◌*◌}
use mathlib.Core.Bool.{Bool, ◌&&◌}
use mathlib.Core.List.{List, [], ◌∷◌}
use ussycode.Base.Tests.{if◌then◌else◌, leb}
use ussycode.Base.Classes.{◌==◌, nat_eq}
use ussycode.Base.Strings.{Text}

abbrev within : ℕ → ℕ → ℕ → Bool
within low high c = leb low c && leb c high

abbrev goes_on : ℕ → Bool
goes_on c = within 128 191 c

-- Whether the second byte fits the first: no overlong form, no surrogate, nothing above U+10FFFF.
unfoldable pub second_fits : ℕ → ℕ → Bool
second_fits c d =
    if c == 224
    then within 160 191 d
    else if c == 237
    then within 128 159 d
    else if c == 240
    then within 144 191 d
    else if c == 244
    then within 128 143 d
    else goes_on d

-- A byte that begins no rune is U+FFFD.
unfoldable pub single : ℕ → ℕ × ℕ
single c = (if leb c 127 then c else 65533, 0)

unfoldable pub double : ℕ → ℕ → ℕ × ℕ
unfolding single
double c d = if within 194 223 c && goes_on d then ((c - 192) * 64 + (d - 128), 1) else single c

unfoldable pub triple : ℕ → ℕ → ℕ → ℕ × ℕ
unfolding double second_fits
triple c d e =
    if within 224 239 c && second_fits c d && goes_on e
    then (((c - 224) * 64 + (d - 128)) * 64 + (e - 128), 2)
    else double c d

unfoldable pub quadruple : ℕ → ℕ → ℕ → ℕ → ℕ × ℕ
unfolding triple second_fits
quadruple c d e f =
    if within 240 244 c && second_fits c d && goes_on e && goes_on f
    then ((((c - 240) * 64 + (d - 128)) * 64 + (e - 128)) * 64 + (f - 128), 3)
    else triple c d e

-- The first rune of c and the bytes after it, and how many of those it takes.
unfoldable pub rune_at : ℕ → Text → ℕ × ℕ
unfolding quadruple triple double single
rune_at c [] = single c
rune_at c (d ∷ []) = double c d
rune_at c (d ∷ e ∷ []) = triple c d e
rune_at c (d ∷ e ∷ f ∷ t) = quadruple c d e f

-- The first argument counts the bytes that belong to the last rune.
unfoldable pub runes_from : ℕ → Text → List ℕ
unfolding rune_at
runes_from n [] = []
runes_from (suc n) (c ∷ t) = runes_from n t
runes_from zero (c ∷ t) = let (rune, more) = rune_at c t in rune ∷ runes_from more t

unfoldable pub runes : Text → List ℕ
unfolding runes_from
runes t = runes_from 0 t
