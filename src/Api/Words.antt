-- ===== src/Api/Words.antt =====
-- The functions of Go's package strings that cut texts at spaces, on the bytes of UTF-8
-- (internal/api/handler.go). The spaces are those of unicode.IsSpace. The encoding of a space starts
-- with a byte that no encoding has further on, so that a search byte by byte finds what Go's
-- search by runes finds.
use ussycode.Base.{
  ℕ, zero, suc, Bool, true, false, ◌||◌, Option, none, some, List, [], ◌∷◌, ◌++◌, nat_eq, ◌==◌,
  Text, if◌then◌else◌, leb, ◌&&◌,
}

-- A blank, or a control character from tab to carriage return.
unfoldable pub is_space : ℕ → Bool
is_space c = c == 32 || leb 9 c && leb c 13

-- U+0085 and U+00A0.
unfoldable pub is_space_2 : ℕ → ℕ → Bool
is_space_2 c d = c == 194 && (d == 133 || d == 160)

-- U+1680, U+2000 to U+200A, U+2028, U+2029, U+202F, U+205F and U+3000.
unfoldable pub is_space_3 : ℕ → ℕ → ℕ → Bool
is_space_3 c d e =
    c == 225 && d == 154 && e == 128
    || c == 226
      && (d == 128 && (leb 128 e && leb e 138 || e == 168 || e == 169 || e == 175)
          || d == 129 && e == 159)
    || c == 227 && d == 128 && e == 128

-- How many bytes the space at the start has; none where there is no space.
unfoldable pub space_at : Text → ℕ
space_at [] = 0
space_at (c ∷ []) = if is_space c then 1 else 0
space_at (c ∷ d ∷ []) = if is_space c then 1 else if is_space_2 c d then 2 else 0
space_at (c ∷ d ∷ e ∷ t) =
    if is_space c then 1 else if is_space_2 c d then 2 else if is_space_3 c d e then 3 else 0

-- The first argument counts the bytes of a space that are still to be passed over.
unfoldable pub trim_left : ℕ → Text → Text
trim_left n [] = []
trim_left (suc n) (c ∷ t) = trim_left n t
trim_left zero (c ∷ t) = elim (space_at (c ∷ t)) [ zero ↦ c ∷ t | suc n ↦ trim_left n t ]

unfoldable pub only_spaces : ℕ → Text → Bool
only_spaces n [] = true
only_spaces (suc n) (c ∷ t) = only_spaces n t
only_spaces zero (c ∷ t) = elim (space_at (c ∷ t)) [ zero ↦ false | suc n ↦ only_spaces n t ]

unfoldable pub trim_right : Text → Text
trim_right [] = []
trim_right (c ∷ t) = elim (only_spaces 0 (c ∷ t)) [ true ↦ [] | false ↦ c ∷ trim_right t ]

-- `strings.TrimSpace`.
unfoldable pub trim_space : Text → Text
unfolding trim_left trim_right
trim_space t = trim_right (trim_left 0 t)

abbrev flush : Text → List Text → List Text
flush [] words = words
flush (c ∷ word) words = (c ∷ word) ∷ words

-- `strings.Fields`, from a word that has begun, and with bytes of a space to pass over.
unfoldable pub fields_from : ℕ → Text → Text → List Text
fields_from n word [] = flush word []
fields_from (suc n) word (c ∷ t) = fields_from n word t
fields_from zero word (c ∷ t) = elim (space_at (c ∷ t)) [
  | zero ↦ fields_from 0 (word ++ c ∷ []) t
  | suc n ↦ flush word (fields_from n [] t)
]

unfoldable pub fields : Text → List Text
unfolding fields_from
fields t = fields_from 0 [] t

-- `strings.SplitN(t, ".", 2)`, where it gives two parts.
unfoldable pub cut : ℕ → Text → Option (Text × Text)
cut separator [] = none
cut separator (c ∷ t) = elim (c == separator) [
  | true ↦ some ([], t)
  | false ↦ elim (cut separator t) [ none ↦ none | some (before, rest) ↦ some (c ∷ before, rest) ]
]
