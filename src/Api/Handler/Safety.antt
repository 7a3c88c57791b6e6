-- ===== src/Api/Handler/Safety.antt =====
-- What POST /exec runs, and for whom (internal/api/handler.go: handleExec).
use ussycode.Base.{
  ℕ, ◌≡◌, refl, sym, ◌∙◌, subst, true, String, Option, none, some, List, [], ◌∷◌, nat_eq, string_eq,
  ◌==◌, Result, ok, err, Text, is_empty, has_prefix, trim_prefix, beq_iff, Bool-cases, Result-cases,
  ◌⊎◌, inl, inr,
}
use ussycode.Db.Models.{User}
use ussycode.Api.RateLimiter.{allow}
use ussycode.Api.Words.{fields}
use ussycode.Api.Handler.{
  TokenPermissions, Codec, Request, Outcome, BodyError, Server, Authenticated, bearer, executed,
  rate_limited, is_permitted, run_words, read_command, run_command, respond, limit, touch,
  authenticate, handle_exec,
}
use ussycode.Api.Handler.Branches.{Credential, authenticate-ok}

module _ (c : Codec) (now : ℕ) where
  open c use {PublicKey, command_of}

  -- A command that was run: the request holds a credential of the user, which permits the command;
  -- the command with its arguments is what the request says; and the user's first key, where there is
  -- one, had a request left.
  pub record Entitled (resolver : Option (ℕ → Option (List PublicKey))) (server : Server)
      (r : Request) (user : User) (name : Text) (args : List Text) : Type 0 where
    pub perms : Option TokenPermissions
    pub print : String
    pub command : Text
    pub framed : has_prefix r.authorization bearer ≡ true
    pub credential :
        Credential c now resolver server.db (trim_prefix r.authorization bearer) user perms print
    pub permitted : is_permitted perms name ≡ true
    pub read : read_command command_of r ≡ ok command
    pub words : fields command ≡ name ∷ args
    pub in_limit : (print ≡ "") ⊎ ((allow now server.limiter print).0 ≡ true)

  module _ (exec : User → Text → List Text → Outcome) (user : User) (name : Text) (args : List Text)
      (outcome : Outcome) where
    run_words-executed :
        (perms : Option TokenPermissions) (u : User) (words : List Text)
        → run_words c perms u exec words ≡ executed user name args outcome
        → (u ≡ user) × (is_permitted perms name ≡ true) × (words ≡ name ∷ args)
    unfolding run_words
    run_words-executed perms u [] h = absurd (cc)
    run_words-executed perms u (first ∷ rest) h = elim (Bool-cases (is_permitted perms first)) [
      | inl allowed ↦
          let ran = rw allowed at h in
          let same : first ≡ name = cc ran in (cc ran, rw (sym same) allowed, cc ran)
      | inr forbidden ↦ absurd (cc (rw forbidden at h))
    ]

    run_command-executed :
        (perms : Option TokenPermissions) (u : User) (read : Result BodyError Text)
        → run_command c perms u exec read ≡ executed user name args outcome
        → (command : Text) × (read ≡ ok command)
          × (u ≡ user)
          × (is_permitted perms name ≡ true)
          × (fields command ≡ name ∷ args)
    unfolding run_command
    run_command-executed perms u (err e) h = absurd (cc)
    run_command-executed perms u (ok command) h = elim (Bool-cases (is_empty command)) [
      | inl empty ↦ absurd (cc (rw empty at h))
      | inr words ↦
          let ran = run_words-executed perms u (fields command) (rw words at h) in
          (command, refl, ran.0, ran.1, ran.2)
    ]

  -- `limit` leaves the request to the executor, or refuses it.
  pub limit-cases :
      (exec : Option (User → Text → List Text → Outcome)) (r : Request) (server : Server)
      (who : Authenticated)
      → (((limit c now exec r server who).0 ≡ respond c who.1 who.0 exec r)
          × ((who.2 ≡ "") ⊎ ((allow now server.limiter who.2).0 ≡ true)))
        ⊎ ((seconds : ℕ) × ((limit c now exec r server who).0 ≡ rate_limited seconds))
  unfolding limit
  limit-cases exec r server (user, perms, print) = elim (Bool-cases (print == "")) [
    | inl no_key ↦ rw no_key (inl (refl, inl ((beq_iff print "").0 no_key)))
    | inr key ↦ elim (Bool-cases (allow now server.limiter print).0) [
      | inl in_limit ↦ rw (key, in_limit) (inl (refl, inr refl))
      | inr refused ↦ rw (key, refused) (inr (_, refl))
    ]
  ]

  respond-executed :
      (exec : Option (User → Text → List Text → Outcome)) (r : Request)
      (perms : Option TokenPermissions) (u user : User) (name : Text) (args : List Text)
      (outcome : Outcome)
      → respond c perms u exec r ≡ executed user name args outcome
      → (command : Text) × (read_command command_of r ≡ ok command)
        × (u ≡ user)
        × (is_permitted perms name ≡ true)
        × (fields command ≡ name ∷ args)
  unfolding respond
  respond-executed none r perms u user name args outcome h = absurd (cc)
  respond-executed (some exec) r perms u user name args outcome h =
      run_command-executed exec user name args outcome perms u (read_command command_of r) h

  limit-Entitled :
      (resolver : Option (ℕ → Option (List PublicKey)))
      (exec : Option (User → Text → List Text → Outcome)) (server : Server) (r : Request)
      (who : Authenticated) (user : User) (name : Text) (args : List Text) (outcome : Outcome)
      → (has_prefix r.authorization bearer ≡ true)
        × Credential c now resolver server.db (trim_prefix r.authorization bearer) who.0 who.1 who.2
      → (limit c now exec r (record server { db = touch c now server.db r.authorization }) who).0
        ≡ executed user name args outcome
      → Entitled resolver server r user name args
  limit-Entitled resolver exec server r who user name args outcome token h =
      elim (limit-cases exec r (record server { db = touch c now server.db r.authorization }) who) [
        | inr (seconds, refused) ↦ absurd (cc (sym refused ∙ h))
        | inl (reached, in_limit) ↦
            let (command, read, same, permitted, words) =
              respond-executed exec r who.1 who.0 user name args outcome (sym reached ∙ h) in
            record {
              perms = who.1;
              print = who.2;
              command = command;
              framed = token.0;
              credential =
                  subst
                    (λ u.
                      Credential c now resolver server.db (trim_prefix r.authorization bearer) u
                        who.1 who.2)
                    same token.1;
              permitted = permitted;
              read = read;
              words = words;
              in_limit = in_limit;
            }
      ]

  -- A command is run only for a request that is entitled to it: with a bearer token that names the
  -- user, is current and signed by a key of the user or kept and not revoked, and permits the command;
  -- as the request's body states it; and within the rate limit of the user's key.
  pub handle_exec-Entitled :
      (resolver : Option (ℕ → Option (List PublicKey)))
      (exec : Option (User → Text → List Text → Outcome)) (server : Server) (r : Request)
      (user : User) (name : Text) (args : List Text) (outcome : Outcome)
      → (handle_exec c now resolver exec server r).0 ≡ executed user name args outcome
      → Entitled resolver server r user name args
  unfolding handle_exec
  handle_exec-Entitled resolver exec server r user name args outcome h =
      elim (Result-cases (authenticate c now resolver server.db r.authorization)) [
        | inr (e, failed) ↦ absurd (cc (rw (failed, handle_exec) at h))
        | inl (who, known) ↦
            limit-Entitled resolver exec server r who user name args outcome
              (authenticate-ok c now resolver server.db r.authorization {who = who} known)
              (rw (known, handle_exec) at h)
      ]
