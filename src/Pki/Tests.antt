-- ===== src/Pki/Tests.antt =====
-- The theorems on join tokens at concrete tokens.
use ussycode.Base.{
  ◌≡◌, refl, [], ◌∷◌, if◌then◌else◌, ltb, nat_eq, list_eq, ◌==◌, list_beq, beq_iff, ok, err, lookup,
  bytes, decimal,
}
use ussycode.Pki.JoinTokens.{
  Signer, JoinToken, already_used, expired, generate_join_token, validate_join_token, join_message,
}
use ussycode.Pki.JoinTokens.Use.{validate_all, join_token_once, generated_token_accepted}

-- A signature that is the message with a mark.
abbrev marker : Signer
marker = record { sign = λ m. 7 ∷ m; verify = λ m signature. signature == 7 ∷ m }

abbrev issued : JoinToken
issued = record { token = bytes "a1"; expires_at = 2_000_000_007; signature = 7 ∷ bytes "a1:2" }

abbrev other : JoinToken
other = record { token = []; expires_at = 9; signature = [] }

-- The token is accepted, and then refused, with another token in between.
join_token_once_example :
    (validate_join_token marker 12
      (validate_all marker (validate_join_token marker 5 [] issued).1 ((11, other) ∷ []))
      issued).0
    ≡ err already_used
unfolding validate_join_token join_message decimal list_beq lookup
join_token_once_example = join_token_once marker 5 [] issued ((11, other) ∷ []) 12 issued refl refl

-- Shown with a later nanosecond of its last second, the token is accepted after its expiry.
generated_token_accepted_example :
    (validate_join_token marker 2_000_000_500
      (validate_all marker [] ((11, other) ∷ []))
      (record issued { expires_at = 2_999_999_999 })).0
    ≡ (if ltb 2_999_999_999 2_000_000_500 then err expired else ok tt)
unfolding generate_join_token join_message decimal lookup
generated_token_accepted_example =
    generated_token_accepted marker 7 2_000_000_000 (bytes "a1") issued [] ((11, other) ∷ [])
      2_000_000_500 2_999_999_999 (λ m. (beq_iff (7 ∷ m) (7 ∷ m)).1 refl) refl refl
      ((λ h. cc h), tt) refl
