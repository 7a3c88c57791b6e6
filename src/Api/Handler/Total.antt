-- ===== src/Api/Handler/Total.antt =====
-- No request makes the handler of POST /exec read past the end of a slice
-- (internal/api/handler.go: handleExec).
use ussycode.Base.{
  ℕ, zero, suc, ◌⊎◌, arith, ◌*◌, ◌≡◌, ◌≢◌, refl, sym, ◌∙◌, false, ◌||◌, Option, none, some, List,
  [], ◌∷◌, ◌++◌, nat_eq, string_eq, ok, Text, is_empty, has_prefix, Bool-cases, Result-cases, inl,
  inr, bytes, ltb, length,
}
use ussycode.Db.Models.{User}
use ussycode.Api.Words.{
  space_at, only_spaces, trim_left, trim_right, trim_space, fields_from, fields,
}
use ussycode.Api.Handler.{
  TokenPermissions, Codec, Request, Outcome, Server, panics, is_permitted, run_words, trimmed,
  read_body, read_command, run_command, respond, touch, authenticate, handle_exec,
}
use ussycode.Api.Handler.Safety.{limit-cases}

-- No space, or one of some bytes.
space-cases : (t : Text) → (space_at t ≡ 0) ⊎ ((n : ℕ) × (space_at t ≡ suc n))
space-cases t = number (space_at t) refl
  where
    number : (k : ℕ) → space_at t ≡ k → (space_at t ≡ 0) ⊎ ((n : ℕ) × (space_at t ≡ suc n))
    number zero h = inl h
    number (suc n) h = inr (n, h)

fields_from-ne-nil : (n first : ℕ) (word t : Text) → fields_from n (first ∷ word) t ≢ []
unfolding fields_from
fields_from-ne-nil n first word [] h = cc
fields_from-ne-nil (suc n) first word (c ∷ t) h = fields_from-ne-nil n first word t h
fields_from-ne-nil zero first word (c ∷ t) h = elim (space-cases (c ∷ t)) [
  | inr (n, ends) ↦ absurd (cc (rw (ends, fields_from) at h))
  | inl goes_on ↦ fields_from-ne-nil 0 first (word ++ c ∷ []) t (rw (goes_on, fields_from) at h)
]

trim_left-start : (n : ℕ) (t : Text) → space_at (trim_left n t) ≡ 0
unfolding trim_left space_at
trim_left-start n [] = refl
trim_left-start (suc n) (c ∷ t) = trim_left-start n t
trim_left-start zero (c ∷ t) = elim (space-cases (c ∷ t)) [
  | inl letter ↦ rw (letter, trim_left) letter
  | inr (n, space) ↦ rw (space, trim_left) (trim_left-start n t)
]

-- What is left of a text, at its start, is a text with no space at its start too.
data Prefix : Text → Text → Type 0 where
  nothing : (t : Text) → Prefix [] t
  further : (c : ℕ) {s t : Text} → Prefix s t → Prefix (c ∷ s) (c ∷ t)

trim_right-Prefix : (t : Text) → Prefix (trim_right t) t
unfolding trim_right
trim_right-Prefix [] = nothing []
trim_right-Prefix (c ∷ t) = elim (Bool-cases (only_spaces 0 (c ∷ t))) [
  | inl blank ↦ rw (blank, trim_right) (nothing (c ∷ t))
  | inr more ↦ rw (more, trim_right) (further c (trim_right-Prefix t))
]

Prefix-start : {s t : Text} → Prefix s t → space_at t ≡ 0 → space_at s ≡ 0
unfolding space_at
Prefix-start (nothing t) h = refl
Prefix-start (further c (nothing [])) h = h
Prefix-start (further c (nothing (d ∷ []))) h = ground (arith, h)
Prefix-start (further c (nothing (d ∷ e ∷ t))) h = ground (arith, h)
Prefix-start (further c (further d (nothing []))) h = h
Prefix-start (further c (further d (nothing (e ∷ t)))) h = ground (arith, h)
Prefix-start (further c (further d (further e p))) h = h

fields-ne-nil : (t : Text) → space_at t ≡ 0 → is_empty t ≡ false → fields t ≢ []
unfolding fields fields_from is_empty
fields-ne-nil [] h k e = absurd (cc)
fields-ne-nil (c ∷ t) h k e = fields_from-ne-nil 0 c [] t (rw (h, fields_from) at e)

trim_space-words : (t : Text) → is_empty (trim_space t) ≡ false → fields (trim_space t) ≢ []
unfolding trim_space
trim_space-words t h =
    fields-ne-nil (trim_space t)
      (Prefix-start (trim_right-Prefix (trim_left 0 t)) (trim_left-start 0 t)) h

module _ (c : Codec) (now : ℕ) where
  open c use {PublicKey, command_of}

  trimmed-ok :
      (o : Option Text) {command : Text}
      → trimmed o ≡ ok command
      → (t : Text) × (trim_space t ≡ command)
  trimmed-ok none h = absurd (cc)
  trimmed-ok (some t) h = (t, cc)

  read_body-trimmed :
      (content_type : Text) (body : Option Text) {command : Text}
      → read_body command_of content_type body ≡ ok command
      → (t : Text) × (trim_space t ≡ command)
  unfolding read_body
  read_body-trimmed content_type none h = absurd (cc)
  read_body-trimmed content_type (some body) h = elim (Bool-cases (ltb (64 * 1024) (length body))) [
    | inl large ↦ absurd (cc (rw large at h))
    | inr small ↦ elim (Bool-cases (has_prefix content_type (bytes "application/json"))) [
      | inl json ↦ trimmed-ok (command_of body) (rw (small, json) at h)
      | inr other ↦
          elim (Bool-cases
            (has_prefix content_type (bytes "text/plain") || is_empty content_type)) [
              | inl plain ↦ trimmed-ok (some body) (rw (small, other, plain) at h)
              | inr unknown ↦ absurd (cc (rw (small, other, unknown) at h))
            ]
    ]
  ]

  run_words-ne-panics :
      (perms : Option TokenPermissions) (u : User) (exec : User → Text → List Text → Outcome)
      (words : List Text)
      → words ≢ []
      → run_words c perms u exec words ≢ panics
  unfolding run_words
  run_words-ne-panics perms u exec [] some_word h = some_word refl
  run_words-ne-panics perms u exec (name ∷ args) some_word h =
      elim (Bool-cases (is_permitted perms name)) [
        | inl allowed ↦ absurd (cc (rw allowed at h))
        | inr forbidden ↦ absurd (cc (rw forbidden at h))
      ]

  respond-ne-panics :
      (perms : Option TokenPermissions) (u : User)
      (exec : Option (User → Text → List Text → Outcome)) (r : Request)
      → respond c perms u exec r ≢ panics
  unfolding respond run_command read_command
  respond-ne-panics perms u none r h = absurd (cc)
  respond-ne-panics perms u (some exec) r h =
      elim (Result-cases (read_body command_of r.content_type r.body)) [
        | inr (e, bad) ↦ absurd (cc (rw (bad, run_command) at h))
        | inl (command, read) ↦ elim (Bool-cases (is_empty command)) [
          | inl empty ↦ absurd (cc (rw (read, run_command, empty) at h))
          | inr more ↦
              let (t, same) = read_body-trimmed r.content_type r.body read in
              let words = trim_space-words t (rw same more) in
              run_words-ne-panics perms u exec (fields command) (rw same at words)
                (rw (read, run_command, more) at h)
        ]
      ]

  -- No request makes the handler panic.
  pub handle_exec-ne-panics :
      (resolver : Option (ℕ → Option (List PublicKey)))
      (exec : Option (User → Text → List Text → Outcome)) (server : Server) (r : Request)
      → (handle_exec c now resolver exec server r).0 ≢ panics
  unfolding handle_exec
  handle_exec-ne-panics resolver exec server r h =
      elim (Result-cases (authenticate c now resolver server.db r.authorization)) [
        | inr (e, failed) ↦ absurd (cc (rw (failed, handle_exec) at h))
        | inl (who, known) ↦
            elim (limit-cases c now exec r
              (record server { db = touch c now server.db r.authorization }) who) [
                | inl (reached, in_limit) ↦
                    respond-ne-panics who.1 who.0 exec r
                      (sym reached ∙ rw (known, handle_exec) at h)
                | inr (seconds, refused) ↦ absurd (cc (sym refused ∙ rw (known, handle_exec) at h))
              ]
      ]
