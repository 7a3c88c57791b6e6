-- ===== src/Db/Tokens/Once.antt =====
-- Magic tokens over histories of calls (internal/db/queries.go: CreateMagicToken,
-- ValidateMagicToken, CleanExpiredMagicTokens).
use ussycode.Base.{
  Result-cases, ◌∙◌, ◌⊎◌, ℕ, ◌≡◌, refl, Bool, true, false, not, ◌&&◌, some, List, [], ◌∷◌, ◌++◌,
  nat_eq, list_eq, ◌==◌, ok, err, arith, is_ok, Bool-cases, All, inl, inr, Option-cases,
}
use ussycode.Db.Models.{Text, User, MagicToken, Db, DbError}
use ussycode.Db.Vms.{first_where, delete_where, update_where, exists_where, user_by_id}
use ussycode.Db.Tokens.{
  create_magic_token, validate_magic_token, usable_magic_token, user_of_magic_token, mark_used,
  clean_expired_magic_tokens,
}

pub data MagicCall : Type 0 where
  creates : ℕ → Text → ℕ → MagicCall
  validates : Text → MagicCall
  cleans : MagicCall

unfoldable pub magic_step : ℕ → Db → MagicCall → Db
magic_step now db (creates user_id token expires_at) =
    (create_magic_token db user_id token expires_at).1
magic_step now db (validates token) = (validate_magic_token now db token).1
magic_step now db cleans = (clean_expired_magic_tokens now db).1

unfoldable pub magic_run : Db → List (ℕ × MagicCall) → Db
magic_run db [] = db
magic_run db ((now, c) ∷ rest) = magic_run (magic_step now db c) rest

-- No call creates the token.
abbrev pub creates_token : Text → MagicCall → Bool
creates_token token (creates user_id other expires_at) = other == token
creates_token token (validates other) = false
creates_token token cleans = false

abbrev pub NeverCreates : Text → List (ℕ × MagicCall) → Type 0
NeverCreates token cs = All (λ c. creates_token token c.1 ≡ false) cs

-- Every row of the token is used.
abbrev UsedAt : Text → MagicToken → Type 0
UsedAt token t = (t.token == token) ≡ true → t.used ≡ true

abbrev Spent : Text → Db → Type 0
Spent token db = All (UsedAt token) db.magic_tokens

All-append :
    (token : Text) (xs : List MagicToken) (t : MagicToken)
    → All (UsedAt token) xs
    → UsedAt token t
    → All (UsedAt token) (xs ++ t ∷ [])
All-append token [] t all h = (h, tt)
All-append token (x ∷ xs) t all h = (all.0, All-append token xs t all.1 h)

All-delete :
    (token : Text) (p : MagicToken → Bool) (xs : List MagicToken)
    → All (UsedAt token) xs
    → All (UsedAt token) (delete_where p xs)
unfolding delete_where
All-delete token p [] all = tt
All-delete token p (x ∷ xs) all = elim (Bool-cases (p x)) [
  | inl gone ↦ rw gone (All-delete token p xs all.1)
  | inr kept ↦ rw kept (all.0, All-delete token p xs all.1)
]

All-mark :
    (token other : Text) (xs : List MagicToken)
    → All (UsedAt token) xs
    → All (UsedAt token) (update_where (λ t. t.token == other) (λ t. record t { used = true }) xs)
unfolding update_where
All-mark token other [] all = tt
All-mark token other (x ∷ xs) all = elim (Bool-cases (x.token == other)) [
  | inl marked ↦ rw marked ((λ h. refl), All-mark token other xs all.1)
  | inr kept ↦ rw kept (all.0, All-mark token other xs all.1)
]

All-marked :
    (token : Text) (xs : List MagicToken)
    → All (UsedAt token) (update_where (λ t. t.token == token) (λ t. record t { used = true }) xs)
unfolding update_where
All-marked token [] = tt
All-marked token (x ∷ xs) = elim (Bool-cases (x.token == token)) [
  | inl marked ↦ rw marked ((λ h. refl), All-marked token xs)
  | inr kept ↦ rw kept ((λ h. cc), All-marked token xs)
]

pub usable_ok :
    (now : ℕ) (db : Db) (token : Text) {t : MagicToken}
    → usable_magic_token now db token ≡ ok t
    → validate_magic_token now db token ≡ user_of_magic_token db token t
unfolding validate_magic_token
usable_ok now db token h = rw (h, validate_magic_token) refl

pub usable_err :
    (now : ℕ) (db : Db) (token : Text) {e : DbError}
    → usable_magic_token now db token ≡ err e
    → validate_magic_token now db token ≡ (err e, db)
unfolding validate_magic_token
usable_err now db token h = rw (h, validate_magic_token) refl

pub user_ok :
    (db : Db) (token : Text) (t : MagicToken) {u : User}
    → user_by_id (mark_used token db) t.user_id ≡ ok u
    → user_of_magic_token db token t ≡ (ok u, mark_used token db)
unfolding user_of_magic_token
user_ok db token t h = rw (h, user_of_magic_token) refl

user_err :
    (db : Db) (token : Text) (t : MagicToken) {e : DbError}
    → user_by_id (mark_used token db) t.user_id ≡ err e
    → user_of_magic_token db token t ≡ (err e, db)
unfolding user_of_magic_token
user_err db token t h = rw (h, user_of_magic_token) refl

-- A call that fails leaves the state as it was; a call that succeeds marks the token.
pub validate-cases :
    (now : ℕ) (db : Db) (token : Text)
    → ((e : DbError) × (validate_magic_token now db token ≡ (err e, db)))
      ⊎ ((u : User) × (validate_magic_token now db token ≡ (ok u, mark_used token db)))
validate-cases now db token = elim (Result-cases (usable_magic_token now db token)) [
  | inr refused ↦ inl (refused.0, usable_err now db token refused.1)
  | inl usable ↦ elim (Result-cases (user_by_id (mark_used token db) usable.0.user_id)) [
    | inr missing ↦
        inl (missing.0, usable_ok now db token usable.1 ∙ user_err db token usable.0 missing.1)
    | inl user ↦ inr (user.0, usable_ok now db token usable.1 ∙ user_ok db token usable.0 user.1)
  ]
]

validate-Spent :
    (now : ℕ) (db : Db) (token other : Text)
    → Spent token db
    → Spent token (validate_magic_token now db other).1
validate-Spent now db token other v = elim (validate-cases now db other) [
  | inl same ↦ rw same.1 v
  | inr marked ↦ rw marked.1 (All-mark token other db.magic_tokens v)
]

create-Spent :
    (db : Db) (user_id : ℕ) (token other : Text) (expires_at : ℕ)
    → (other == token) ≡ false
    → Spent token db
    → Spent token (create_magic_token db user_id other expires_at).1
unfolding create_magic_token
create-Spent db user_id token other expires_at differs v =
    elim (Bool-cases (
      exists_where (λ u. u.id == user_id) db.users
      && not (exists_where (λ t. t.token == other) db.magic_tokens))) [
        | inl new ↦ rw new (All-append token db.magic_tokens _ v (λ h. cc))
        | inr broken ↦ rw broken v
      ]

magic_run-Spent :
    (token : Text) (cs : List (ℕ × MagicCall)) (db : Db)
    → NeverCreates token cs
    → Spent token db
    → Spent token (magic_run db cs)
unfolding magic_run magic_step clean_expired_magic_tokens
magic_run-Spent token [] db never v = v
magic_run-Spent token ((now, creates u other e) ∷ rest) db never v =
    magic_run-Spent token rest _ never.1 (create-Spent db u token other e never.0 v)
magic_run-Spent token ((now, validates other) ∷ rest) db never v =
    magic_run-Spent token rest _ never.1 (validate-Spent now db token other v)
magic_run-Spent token ((now, cleans) ∷ rest) db never v =
    magic_run-Spent token rest _ never.1 (All-delete token _ db.magic_tokens v)

first-Spent :
    (token : Text) (xs : List MagicToken) (t : MagicToken)
    → All (UsedAt token) xs
    → first_where (λ t. t.token == token) xs ≡ some t
    → t.used ≡ true
unfolding first_where
first-Spent token [] t all h = cc
first-Spent token (x ∷ xs) t all h = elim (Bool-cases (x.token == token)) [
  | inl same ↦ ground (arith, same, all.0 same)
  | inr other ↦ first-Spent token xs t all.1 (rw other at h)
]

usable-Spent :
    (now : ℕ) (db : Db) (token : Text)
    → Spent token db
    → is_ok (usable_magic_token now db token) ≡ false
unfolding usable_magic_token
usable-Spent now db token v =
    elim (Option-cases (first_where (λ t. t.token == token) db.magic_tokens)) [
      | inl missing ↦ rw (missing, is_ok) refl
      | inr found ↦ rw (found.1, first-Spent token db.magic_tokens found.0 v found.1, is_ok) refl
    ]

validate-usable :
    (now : ℕ) (db : Db) (token : Text)
    → is_ok (usable_magic_token now db token) ≡ false
    → is_ok (validate_magic_token now db token).0 ≡ false
validate-usable now db token h = elim (Result-cases (usable_magic_token now db token)) [
  | inr refused ↦ rw (usable_err now db token refused.1) refl
  | inl usable ↦ absurd (cc (h, usable.1))
]

-- A magic token that was validated is refused from then on: whatever calls follow, at whatever
-- times, as long as none of them creates the same token, the next call that validates it fails.
pub magic_token_once :
    (token : Text) (db : Db) (first : ℕ) (cs : List (ℕ × MagicCall)) (second : ℕ)
    → is_ok (validate_magic_token first db token).0 ≡ true
    → NeverCreates token cs
    → is_ok
        (validate_magic_token second (magic_run (validate_magic_token first db token).1 cs) token).0
      ≡ false
magic_token_once token db first cs second worked never =
    let spent : Spent token (validate_magic_token first db token).1 =
      elim (validate-cases first db token) [
        | inl same ↦ absurd (cc (same.1, worked))
        | inr marked ↦ rw marked.1 (All-marked token db.magic_tokens)
      ] in
    let after_run = magic_run-Spent token cs _ never spent in
    validate-usable second _ token (usable-Spent second _ token after_run)
