-- ===== src/Api/Handler/Branches.antt =====
-- What a token was that the API accepted (internal/api/handler.go: authenticateStateless,
-- authenticateShortToken).
use ussycode.Base.{
  ok-injective, ℕ, ◌≤◌, ◌≡◌, refl, sym, ◌∙◌, ap, subst, Bool, true, false, String, Option, none,
  some, List, [], ◌∷◌, if◌then◌else◌, nat_eq, string_eq, list_eq, ◌==◌, Result, ok, err, bind-ok,
  Text, is_empty, has_prefix, trim_prefix, Mem, here, there, arith, Bool-cases, inl, inr,
}
use ussycode.Db.Models.{User, ApiToken, Db, DbError}
use ussycode.Db.Vms.{user_by_handle, user_by_id}
use ussycode.Db.ApiTokens.{api_token_by_id}
use ussycode.Api.Words.{cut}
use ussycode.Api.Handler.{
  TokenPermissions, Codec, AuthError, Authenticated, unix, dot, bearer, stateless_prefix,
  short_prefix, from_option, from_db, verifying, check_times, authenticate_stateless,
  stored_permissions, authenticate_short, authenticate, missing_ctx, empty_token, revoked,
}

from_option-ok {ℓ} :
    {A : Type ℓ} (e : AuthError) (o : Option A) {a : A} → from_option e o ≡ ok a → o ≡ some a
from_option-ok e none h = cc
from_option-ok e (some b) h = cc

from_db-ok {ℓ} :
    {A : Type ℓ} (e : AuthError) (r : Result DbError A) {a : A} → from_db e r ≡ ok a → r ≡ ok a
from_db-ok e (err d) h = cc
from_db-ok e (ok b) h = cc

guard-ok {ℓ} :
    {A : Type ℓ} (b : Bool) (e : AuthError) (a : A) {a' : A}
    → (if b then err e else ok a) ≡ ok a'
    → (b ≡ false) × (a ≡ a')
guard-ok true e a h = cc
guard-ok false e a h = (refl, cc)

module _ (c : Codec) (now : ℕ) where
  open c use {PublicKey, Signature, decode, permissions, signature, verify, fingerprint}

  -- A token that states its permissions: signed by a key of the user whom it names, and current.
  pub record Stateless (resolver : Option (ℕ → Option (List PublicKey))) (db : Db) (token : Text)
      (user : User) (perms : TokenPermissions) (print : String) : Type 0 where
    pub payload : Text
    pub signed : Text
    pub json : Text
    pub sig_bytes : Text
    pub sig : Signature
    pub resolve : ℕ → Option (List PublicKey)
    pub keys : List PublicKey
    pub key : PublicKey
    pub framed : cut dot (trim_prefix token stateless_prefix) ≡ some (payload, signed)
    pub decoded : decode payload ≡ some json
    pub parsed : permissions json ≡ some perms
    pub started : perms.nbf ≤ unix now
    pub current : unix now ≤ perms.exp
    pub sig_decoded : decode signed ≡ some sig_bytes
    pub sig_parsed : signature sig_bytes ≡ some sig
    pub owner : user_by_handle db perms.ctx ≡ ok user
    pub resolving : resolver ≡ some resolve
    pub resolved : resolve user.id ≡ some keys
    pub key_of_owner : Mem key keys
    pub verified : verify key json sig ≡ true
    pub printed : fingerprint key ≡ print

  verifying-key :
      (json : Text) (sig : Signature) (keys : List PublicKey) {print : String}
      → verifying c json sig keys ≡ some print
      → (key : PublicKey) × Mem key keys × (verify key json sig ≡ true) × (fingerprint key ≡ print)
  unfolding verifying
  verifying-key json sig [] h = cc
  verifying-key json sig (key ∷ keys) {print} h = elim (Bool-cases (verify key json sig)) [
    | inl good ↦ (key, here refl, good, cc (rw good at h))
    | inr bad ↦
        let (found, mem, good, printed) =
          verifying-key json sig keys {print = print} (rw bad at h) in
        (found, there mem, good, printed)
  ]

  check_times-ok :
      (perms : TokenPermissions) {perms' : TokenPermissions}
      → check_times c now perms ≡ ok perms'
      → (perms ≡ perms') × (perms'.nbf ≤ unix now) × (unix now ≤ perms'.exp)
  unfolding check_times
  check_times-ok perms h = ground arith

  carried :
      (resolver : Option (ℕ → Option (List PublicKey))) (db : Db) (token : Text) {user : User}
      (perms : TokenPermissions) {print : String} {who : Authenticated}
      → ◌≡◌ {A = Result AuthError Authenticated} (ok (user, some perms, print)) (ok who)
      → Stateless resolver db token user perms print
      → (perms : TokenPermissions) × (who.1 ≡ some perms)
        × Stateless resolver db token who.0 perms who.2
  carried resolver db token perms e made =
      let same = ok-injective e in
      (
        perms,
        sym (ap (λ (w : Authenticated). w.1) same),
        subst (λ (w : Authenticated). Stateless resolver db token w.0 perms w.2) same made,
      )

  Stateless-ok :
      (resolver : Option (ℕ → Option (List PublicKey))) (db : Db) (token : Text)
      {who : Authenticated}
      → authenticate_stateless c now resolver db token ≡ ok who
      → (perms : TokenPermissions) × (who.1 ≡ some perms)
        × Stateless resolver db token who.0 perms who.2
  unfolding authenticate_stateless
  Stateless-ok resolver db token h =
      let (parts, framed, h1) =
        bind-ok (from_option _ (cut dot (trim_prefix token stateless_prefix))) _ h in
      let (json, decoded, h2) = bind-ok (from_option _ (decode parts.0)) _ h1 in
      let (read, parsed, h3) = bind-ok (from_option _ (permissions json)) _ h2 in
      let (perms, times, h4) = bind-ok (check_times c now read) _ h3 in
      let (sig_bytes, sig_decoded, h5) = bind-ok (from_option _ (decode parts.1)) _ h4 in
      let (sig, sig_parsed, h6) = bind-ok (from_option _ (signature sig_bytes)) _ h5 in
      let (ctx, named, h7) =
        bind-ok (if perms.ctx == "" then err missing_ctx else ok perms.ctx) _ h6 in
      let (user, owner, h8) = bind-ok (from_db _ (user_by_handle db ctx)) _ h7 in
      let (resolve, resolving, h9) = bind-ok (from_option _ resolver) _ h8 in
      let (keys, resolved, h10) = bind-ok (from_option _ (resolve user.id)) _ h9 in
      let (print, verifies, h11) = bind-ok (from_option _ (verifying c json sig keys)) _ h10 in
      let (same, started, current) = check_times-ok read times in
      let (key, mem, verified, printed) =
        verifying-key json sig keys (from_option-ok _ (verifying c json sig keys) verifies) in
      let ctx_same = (guard-ok (perms.ctx == "") missing_ctx perms.ctx named).1 in
      let made : Stateless resolver db token user perms print = record {
        payload = parts.0;
        signed = parts.1;
        json = json;
        sig_bytes = sig_bytes;
        sig = sig;
        resolve = resolve;
        keys = keys;
        key = key;
        framed = from_option-ok _ (cut dot (trim_prefix token stateless_prefix)) framed;
        decoded = from_option-ok _ (decode parts.0) decoded;
        parsed = from_option-ok _ (permissions json) parsed ∙ ap some same;
        started = started;
        current = current;
        sig_decoded = from_option-ok _ (decode parts.1) sig_decoded;
        sig_parsed = from_option-ok _ (signature sig_bytes) sig_parsed;
        owner = ap (user_by_handle db) ctx_same ∙ from_db-ok _ (user_by_handle db ctx) owner;
        resolving = from_option-ok _ resolver resolving;
        resolved = from_option-ok _ (resolve user.id) resolved;
        key_of_owner = mem;
        verified = verified;
        printed = printed;
      } in
      carried resolver db token perms h11 made

  -- A short token: a row that is not revoked, of the user, whose stored permissions, where they
  -- parse, hold and have not expired.
  pub record Short (db : Db) (token : Text) (user : User) (perms : Option TokenPermissions)
      : Type 0 where
    pub found : ApiToken
    pub in_table : api_token_by_id db (trim_prefix token short_prefix) ≡ ok found
    pub not_revoked : found.revoked ≡ false
    pub owner : user_by_id db found.user_id ≡ ok user
    pub stored : stored_permissions c now found.full_token (permissions found.full_token) ≡ ok perms

  Short-carried :
      (db : Db) (token : Text) {user : User} {perms : Option TokenPermissions} {print : String}
      {who : Authenticated}
      → ◌≡◌ {A = Result AuthError Authenticated} (ok (user, perms, print)) (ok who)
      → Short db token user perms
      → Short db token who.0 who.1
  Short-carried db token e made =
      subst (λ (w : Authenticated). Short db token w.0 w.1) (ok-injective e) made

  Short-ok :
      (db : Db) (token : Text) {who : Authenticated}
      → authenticate_short c now db token ≡ ok who
      → Short db token who.0 who.1
  unfolding authenticate_short
  Short-ok db token h =
      let token_id = trim_prefix token short_prefix in
      let (id, named, h1) =
        bind-ok (if is_empty token_id then err empty_token else ok token_id) _ h in
      let (found, in_table, h2) = bind-ok (from_db _ (api_token_by_id db id)) _ h1 in
      let (stored, fresh, h3) = bind-ok (if found.revoked then err revoked else ok found) _ h2 in
      let (perms, kept, h4) =
        bind-ok (stored_permissions c now stored.full_token (permissions stored.full_token)) _ h3 in
      let (user, owner, h5) = bind-ok (from_db _ (user_by_id db stored.user_id)) _ h4 in
      let same_id = (guard-ok (is_empty token_id) empty_token token_id named).1 in
      let valid = guard-ok found.revoked revoked found fresh in
      let made : Short db token user perms = record {
        found = stored;
        in_table =
            ap (api_token_by_id db) same_id
            ∙ from_db-ok _ (api_token_by_id db id) in_table
            ∙ ap ok valid.1;
        not_revoked = ap (λ (t : ApiToken). t.revoked) (sym valid.1) ∙ valid.0;
        owner = from_db-ok _ (user_by_id db stored.user_id) owner;
        stored = kept;
      } in
      Short-carried db token h5 made

  -- The token of a request that was authenticated, and what it was.
  pub data Credential (resolver : Option (ℕ → Option (List PublicKey))) (db : Db) (token : Text)
      : User → Option TokenPermissions → String → Type 0 where
    by_signature :
        {user : User} {perms : TokenPermissions} {print : String}
        → Stateless resolver db token user perms print
        → Credential resolver db token user (some perms) print
    by_row :
        {user : User} {perms : Option TokenPermissions} {print : String}
        → Short db token user perms
        → Credential resolver db token user perms print

  pub authenticate-ok :
      (resolver : Option (ℕ → Option (List PublicKey))) (db : Db) (header : Text)
      {who : Authenticated}
      → authenticate c now resolver db header ≡ ok who
      → (has_prefix header bearer ≡ true)
        × Credential resolver db (trim_prefix header bearer) who.0 who.1 who.2
  unfolding authenticate
  authenticate-ok resolver db header {who} h =
      let token = trim_prefix header bearer in
      elim (Bool-cases (is_empty header)) [
        | inl empty ↦ absurd (cc (rw empty at h))
        | inr some_header ↦ elim (Bool-cases (has_prefix header bearer)) [
          | inr other ↦ absurd (cc (rw (some_header, other) at h))
          | inl framed ↦ elim (Bool-cases (has_prefix token stateless_prefix)) [
            | inl stateless ↦
                let (perms, same, made) =
                  Stateless-ok resolver db token {who = who}
                    (rw (some_header, framed, stateless) at h) in
                (framed, rw same (by_signature made))
            | inr short ↦ elim (Bool-cases (has_prefix token short_prefix)) [
              | inl short_form ↦ (
                framed,
                by_row (
                    Short-ok db token {who = who}
                      (rw (some_header, framed, short, short_form) at h)),
              )
              | inr neither ↦ absurd (cc (rw (some_header, framed, short, neither) at h))
            ]
          ]
        ]
      ]
