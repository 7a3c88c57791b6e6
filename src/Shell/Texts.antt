-- ===== src/Shell/Texts.antt =====
-- What the commands on shares read from their arguments (internal/ssh/commands.go:
-- normalizeShareLinkToken, isValidDomain).
use ussycode.Base.{
  ℕ, Bool, true, not, ◌&&◌, ◌||◌, Option, none, some, is_some, List, [], ◌∷◌, ◌++◌, nat_eq, ◌==◌,
  leb, if◌then◌else◌, Text, bytes, length, drop, is_empty, has_prefix, has_suffix,
}
use ussycode.Api.Words.{trim_space}

-- What follows the first occurrence of a text (`strings.Index`).
unfoldable pub after_first : Text → Text → Option Text
after_first sought [] = if is_empty sought then some [] else none
after_first sought (c ∷ t) =
    let later = after_first sought t in
    if has_prefix (c ∷ t) sought then some (drop (length sought) (c ∷ t)) else later

-- What follows the last occurrence of a byte (`strings.LastIndex`).
unfoldable pub after_last : ℕ → Text → Option Text
after_last byte [] = none
after_last byte (c ∷ t) = elim (after_last byte t) [
  | some rest ↦ some rest
  | none ↦ if c == byte then some t else none
]

abbrev link_path : Text → Option Text → Text
link_path input none = input
link_path input (some rest) =
    if not (is_empty rest) && is_some (after_first (bytes "://") input)
    then trim_space rest
    else input

abbrev link_query : Text → Option Text → Text
link_query input none = link_path input (after_last 47 input)
link_query input (some rest) = trim_space rest

unfoldable pub normalize_share_link_token : Text → Text
normalize_share_link_token t =
    let input = trim_space t in
    if is_empty input then [] else link_query input (after_first (bytes "ussy_share=") input)

-- The labels between the dots (`strings.Split`).
unfoldable pub labels_from : Text → Text → List Text
labels_from label [] = label ∷ []
labels_from label (c ∷ t) =
    if c == 46 then label ∷ labels_from [] t else labels_from (label ++ c ∷ []) t

abbrev is_label_byte : ℕ → Bool
is_label_byte c = leb 97 c && leb c 122 || leb 48 c && leb c 57 || c == 45

unfoldable pub all_label_bytes : Text → Bool
all_label_bytes [] = true
all_label_bytes (c ∷ t) = is_label_byte c && all_label_bytes t

unfoldable pub valid_labels : List Text → Bool
unfolding all_label_bytes
valid_labels [] = true
valid_labels (label ∷ labels) =
    leb 1 (length label) && leb (length label) 63 && all_label_bytes label && valid_labels labels

-- `isValidDomain`; a label with a byte outside ASCII is refused, as Go refuses its runes.
unfoldable pub is_valid_domain : Text → Bool
unfolding valid_labels labels_from
is_valid_domain domain =
    leb 3 (length domain)
    && leb (length domain) 253
    && is_some (after_first (bytes ".") domain)
    && not (has_prefix domain (bytes "."))
    && not (has_suffix domain (bytes "."))
    && not (has_prefix domain (bytes "-"))
    && not (has_suffix domain (bytes "-"))
    && valid_labels (labels_from [] domain)
