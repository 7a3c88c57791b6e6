-- ===== src/Pki/JoinTokens/Use.antt =====
-- How often, and how long, a token lets a node join (internal/pki/ca.go: ValidateJoinToken).
use ussycode.Base.{
  ℕ, ◌+◌, ◌/◌, ◌≡◌, ◌≢◌, refl, ◌∙◌, sym, ap, true, false, none, some, List, [], ◌∷◌, ◌++◌, ◌⊎◌, inl,
  inr, if◌then◌else◌, nat_eq, list_eq, ◌==◌, beq_iff, ltb, Bool-cases, ok, err, is_ok, lookup,
  insert, lookup-insert_self, lookup-insert_ne, Text, decimal,
}
use ussycode.Db.Models.{second}
use ussycode.Pki.JoinTokens.{
  Signer, JoinToken, UsedTokens, already_used, expired, join_message, generate_join_token, is_used,
  validate_join_token,
}

some_injective {ℓ} : {A : Type ℓ} {a b : A} → some a ≡ some b → a ≡ b
some_injective h = cc

module _ (signer : Signer) where
  -- A call at a time.
  unfoldable pub validate_all : UsedTokens → List (ℕ × JoinToken) → UsedTokens
  validate_all used [] = used
  validate_all used ((now, jt) ∷ calls) =
      validate_all (validate_join_token signer now used jt).1 calls

  -- A call refuses the token and changes nothing, or marks its text as used.
  validated-cases :
      (now : ℕ) (used : UsedTokens) (jt : JoinToken)
      → ((is_ok (validate_join_token signer now used jt).0 ≡ false)
          × ((validate_join_token signer now used jt).1 ≡ used))
        ⊎ ((validate_join_token signer now used jt).1 ≡ insert jt.token true used)
  unfolding validate_join_token
  validated-cases now used jt = elim (Bool-cases (is_used (lookup jt.token used))) [
    | inl old ↦ rw (old, validate_join_token) (inl (refl, refl))
    | inr fresh ↦ elim (Bool-cases (ltb jt.expires_at now)) [
      | inl late ↦ rw (fresh, late, validate_join_token) (inl (refl, refl))
      | inr early ↦
          elim (Bool-cases (signer.verify (join_message jt.token jt.expires_at) jt.signature)) [
            | inr forged ↦ rw (fresh, early, forged, validate_join_token) (inl (refl, refl))
            | inl signed ↦ rw (fresh, early, signed, validate_join_token) (inr refl)
          ]
    ]
  ]

  -- A text that is used stays used.
  still_used :
      (calls : List (ℕ × JoinToken)) (used : UsedTokens) (token : Text)
      → lookup token used ≡ some true
      → lookup token (validate_all used calls) ≡ some true
  unfolding validate_all
  still_used [] used token h = h
  still_used ((now, jt) ∷ calls) used token h =
      still_used calls (validate_join_token signer now used jt).1 token
        (elim (validated-cases now used jt) [
          | inl refused ↦ ap (lookup token) refused.1 ∙ h
          | inr marked ↦ ap (lookup token) marked ∙ elim (Bool-cases (jt.token == token)) [
            | inl same ↦
                ap (λ t. lookup token (insert t true used)) ((beq_iff jt.token token).0 same)
                ∙ lookup-insert_self token true used
            | inr other ↦
                lookup-insert_ne jt.token token true used
                  (λ e. let same = (beq_iff jt.token token).1 e in cc)
                ∙ h
          ]
        ])

  -- A token that was accepted is refused as used from then on, whatever expiry and signature its text
  -- is shown with, whatever tokens are validated in between, and at whatever time.
  pub join_token_once :
      (now : ℕ) (used : UsedTokens) (jt : JoinToken) (calls : List (ℕ × JoinToken)) (later : ℕ)
      (again : JoinToken)
      → is_ok (validate_join_token signer now used jt).0 ≡ true
      → again.token ≡ jt.token
      → (validate_join_token signer later
          (validate_all (validate_join_token signer now used jt).1 calls)
          again).0
        ≡ err already_used
  unfolding validate_join_token
  join_token_once now used jt calls later again accepted same =
      let marked : lookup jt.token (validate_join_token signer now used jt).1 ≡ some true =
        elim (validated-cases now used jt) [
          | inl refused ↦ absurd (cc (sym refused.0 ∙ accepted))
          | inr new ↦ ap (lookup jt.token) new ∙ lookup-insert_self jt.token true used
        ] in
      let kept = still_used calls _ jt.token marked in
      let old : is_used
            (lookup again.token (validate_all (validate_join_token signer now used jt).1 calls))
          ≡ true =
        ap is_used (
          ap (λ t. lookup t (validate_all (validate_join_token signer now used jt).1 calls)) same
          ∙ kept) in
      rw (old, validate_join_token) refl

  -- The calls are for other tokens.
  abbrev pub NotFor : Text → List (ℕ × JoinToken) → Type 0
  NotFor token [] = Unit
  NotFor token ((now, jt) ∷ calls) = (jt.token ≢ token) × NotFor token calls

  still_unused :
      (calls : List (ℕ × JoinToken)) (used : UsedTokens) (token : Text)
      → NotFor token calls
      → lookup token used ≡ none
      → lookup token (validate_all used calls) ≡ none
  unfolding validate_all
  still_unused [] used token others h = h
  still_unused ((now, jt) ∷ calls) used token (ne, others) h =
      still_unused calls (validate_join_token signer now used jt).1 token others
        (elim (validated-cases now used jt) [
          | inl refused ↦ ap (lookup token) refused.1 ∙ h
          | inr marked ↦ ap (lookup token) marked ∙ lookup-insert_ne jt.token token true used ne ∙ h
        ])

  -- The signature of a generated token fits any expiry of the same second.
  signed_same :
      (issued validity : ℕ) (text : Text) (jt : JoinToken) (shown : ℕ)
      → ((m : Text) → signer.verify m (signer.sign m) ≡ true)
      → generate_join_token signer issued (some text) validity ≡ some jt
      → shown / second ≡ jt.expires_at / second
      → signer.verify (join_message jt.token shown) jt.signature ≡ true
  unfolding generate_join_token join_message
  signed_same issued validity text jt shown accepts made same =
      let equal = some_injective made in
      let texts : text ≡ jt.token = ap (λ (t : JoinToken). t.token) equal in
      let ends : issued + validity ≡ jt.expires_at = ap (λ (t : JoinToken). t.expires_at) equal in
      let signature = ap (λ (t : JoinToken). t.signature) equal in
      let seconds : shown / second ≡ (issued + validity) / second =
        same ∙ ap (λ n. n / second) (sym ends) in
      let message : join_message jt.token shown ≡ join_message text (issued + validity) =
        ap (λ t. t ++ 58 ∷ decimal (shown / second)) (sym texts)
        ∙ ap (λ n. text ++ 58 ∷ decimal n) seconds in
      ap (λ m. signer.verify m jt.signature) message
      ∙ ap (signer.verify (join_message text (issued + validity))) (sym signature)
      ∙ accepts (join_message text (issued + validity))

  -- A token that was generated and not used lets a node join, whatever other tokens were validated
  -- since, exactly up to the expiry that it is shown with; and that expiry may be any other time of the
  -- same second, since the signature covers full seconds only. The signer accepts what it signs.
  pub generated_token_accepted :
      (issued validity : ℕ) (text : Text) (jt : JoinToken) (used : UsedTokens)
      (calls : List (ℕ × JoinToken)) (now shown : ℕ)
      → ((m : Text) → signer.verify m (signer.sign m) ≡ true)
      → generate_join_token signer issued (some text) validity ≡ some jt
      → lookup text used ≡ none
      → NotFor text calls
      → shown / second ≡ jt.expires_at / second
      → (validate_join_token signer now
          (validate_all used calls)
          (record jt { expires_at = shown })).0
        ≡ (if ltb shown now then err expired else ok tt)
  unfolding validate_join_token generate_join_token join_message
  generated_token_accepted issued validity text jt used calls now shown accepts made fresh others
        same =
      let same_text : text ≡ jt.token = ap (λ (t : JoinToken). t.token) (some_injective made) in
      let unused = still_unused calls used text others fresh in
      let new : is_used (lookup jt.token (validate_all used calls)) ≡ false =
        ap is_used (ap (λ t. lookup t (validate_all used calls)) (sym same_text) ∙ unused) in
      let signed : signer.verify (join_message jt.token shown) jt.signature ≡ true =
        signed_same issued validity text jt shown accepts made same in
      elim (Bool-cases (ltb shown now)) [
        | inl late ↦ rw (new, late, validate_join_token) refl
        | inr early ↦ rw (new, early, signed, validate_join_token) refl
      ]
