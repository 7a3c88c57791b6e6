-- ===== src/Db/Tokens/Expiry.antt =====
-- A magic token from its creation to its use (internal/db/queries.go: CreateMagicToken,
-- ValidateMagicToken).
use ussycode.Base.{
  ℕ, ◌*◌, ◌/◌, ◌<◌, ◌≤◌, ◌≡◌, refl, ◌∙◌, ap, Bool, true, false, not, ◌&&◌, some, List, [], ◌∷◌,
  ◌++◌, nat_eq, list_eq, ◌==◌, ok, err, arith, is_ok, beq_iff, Bool-cases, inl, inr, ◌⊎◌,
}
use ussycode.Db.Models.{Text, User, MagicToken, Db, stored, after, token_expired, second}
use ussycode.Db.Vms.{first_where, exists_where, row, user_by_id}
use ussycode.Db.Tokens.Once.{usable_ok, usable_err, user_ok}
use ussycode.Db.Tokens.{create_magic_token, validate_magic_token, usable_magic_token, mark_used}

first_where-exists {ℓ} :
    {A : Type ℓ} (p : A → Bool) (xs : List A)
    → exists_where p xs ≡ true
    → (a : A) × (first_where p xs ≡ some a) × (p a ≡ true)
unfolding exists_where first_where
first_where-exists p [] h = cc
first_where-exists p (x ∷ xs) h = elim (Bool-cases (p x)) [
  | inl found ↦ rw found (x, refl, found)
  | inr later ↦ rw later (first_where-exists p xs (rw later at h))
]

first_where-new {ℓ} :
    {A : Type ℓ} (p : A → Bool) (xs : List A) (a : A)
    → exists_where p xs ≡ false
    → p a ≡ true
    → first_where p (xs ++ a ∷ []) ≡ some a
unfolding exists_where first_where
first_where-new p [] a h k = rw k refl
first_where-new p (x ∷ xs) a h k = ground (arith, first_where-new p xs a)

-- A new token, as it is stored.
abbrev fresh : Text → ℕ → ℕ → MagicToken
fresh token user_id expires_at = record {
  token = token;
  user_id = user_id;
  expires_at = stored expires_at;
  used = false;
}

created :
    (db : Db) (user_id : ℕ) (token : Text) (expires_at : ℕ)
    → is_ok (create_magic_token db user_id token expires_at).0 ≡ true
    → ((create_magic_token db user_id token expires_at).1
        ≡ record db { magic_tokens = db.magic_tokens ++ fresh token user_id expires_at ∷ [] })
      × (exists_where (λ u. u.id == user_id) db.users ≡ true)
      × (exists_where (λ t. t.token == token) db.magic_tokens ≡ false)
unfolding create_magic_token
created db user_id token expires_at h =
    elim (Bool-cases (
      exists_where (λ u. u.id == user_id) db.users
      && not (exists_where (λ t. t.token == token) db.magic_tokens))) [
        | inl new ↦ rw new (refl, ground (arith, new), ground (arith, new))
        | inr broken ↦ absurd (cc (rw broken at h))
      ]

module _ (now : ℕ) (db : Db) (token : Text) (t : MagicToken) where
  usable_fresh :
      first_where (λ t. t.token == token) db.magic_tokens ≡ some t
      → t.used ≡ false
      → after now t.expires_at ≡ false
      → usable_magic_token now db token ≡ ok t
  unfolding usable_magic_token
  usable_fresh found unused live = rw (found, unused, live) refl

  usable_late :
      first_where (λ t. t.token == token) db.magic_tokens ≡ some t
      → t.used ≡ false
      → after now t.expires_at ≡ true
      → usable_magic_token now db token ≡ err token_expired
  unfolding usable_magic_token
  usable_late found unused late = rw (found, unused, late) refl

late-lt : (now e : ℕ) → after now (stored e) ≡ true → e / second * second < now
unfolding after stored
late-lt now e h = ground (arith, h)

live-le : (now e : ℕ) → after now (stored e) ≡ false → now ≤ e / second * second
unfolding after stored
live-le now e h = ground (arith, h)

stored_user :
    (db : Db) (id : ℕ) {u : User}
    → first_where (λ u. u.id == id) db.users ≡ some u
    → user_by_id db id ≡ ok u
unfolding user_by_id
stored_user db id h = ap row h

-- A magic token that CreateMagicToken stored for a user is validated, next, exactly up to its
-- expiry, rounded down to a full second, and gives that user; after that it is refused as expired,
-- and the database is left as it is.
pub magic_token_expiry :
    (now : ℕ) (db : Db) (user_id : ℕ) (token : Text) (expires_at : ℕ)
    → is_ok (create_magic_token db user_id token expires_at).0 ≡ true
    → let db' = (create_magic_token db user_id token expires_at).1 in
      ((expires_at / second * second < now)
        × (validate_magic_token now db' token ≡ (err token_expired, db')))
      ⊎ ((now ≤ expires_at / second * second)
          × ((u : User) × ((u.id ≡ user_id) × ((validate_magic_token now db' token).0 ≡ ok u))))
magic_token_expiry now db user_id token expires_at h =
    let made = created db user_id token expires_at h in
    let t = fresh token user_id expires_at in
    let db' = record db { magic_tokens = db.magic_tokens ++ t ∷ [] } in
    let found =
      first_where-new (λ t. t.token == token) db.magic_tokens t made.2
        ((beq_iff token token).1 refl) in
    let user = first_where-exists (λ u. u.id == user_id) db.users made.1 in
    rw made.0 (elim (Bool-cases (after now (stored expires_at))) [
      | inl late ↦ inl (
        late-lt now expires_at late,
        usable_err now db' token (usable_late now db' token t found refl late),
      )
      | inr live ↦
          let marked = user_ok db' token t (stored_user (mark_used token db') user_id user.1) in
          let answer =
            usable_ok now db' token (usable_fresh now db' token t found refl live) ∙ marked in
          inr (
            live-le now expires_at live,
            (user.0, ((beq_iff user.0.id user_id).0 user.2, ap (λ p. p.0) answer)),
          )
    ])
