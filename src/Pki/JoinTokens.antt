-- ===== src/Pki/JoinTokens.antt =====
-- The tokens with which a node joins the pool (internal/pki/ca.go: JoinToken, GenerateJoinToken,
-- ValidateJoinToken, and the map usedTokens of struct CA). The signature of ed25519 is a parameter.
-- The mutex makes a call one step. A token is valid for a time that is not negative.
pub mod Use
use ussycode.Base.{
  ℕ, ◌+◌, ◌/◌, Bool, true, false, not, Option, none, some, List, [], ◌∷◌, ◌++◌, if◌then◌else◌,
  nat_eq, list_eq, ltb, Result, ok, err, GoMap, lookup, insert, Text, bytes, decimal,
}
use ussycode.Db.Models.{second}

-- ed25519 with the root key.
pub record Signer : Type 0 where
  pub sign : Text → Text
  pub verify : Text → Text → Bool

pub record JoinToken : Type 0 where
  pub token : Text
  pub expires_at : ℕ
  pub signature : Text

-- `usedTokens`.
abbrev pub UsedTokens : Type 0
UsedTokens = GoMap Text Bool

pub data JoinError : Type 0 where
  already_used expired invalid_signature : JoinError

-- `fmt.Sprintf("%s:%d", token, expiresAt.Unix())`.
unfoldable pub join_message : Text → ℕ → Text
join_message token expires_at = token ++ 58 ∷ decimal (expires_at / second)

-- `token` is the hexadecimal text of the random bytes, `none` where there are none.
unfoldable pub generate_join_token : Signer → ℕ → Option Text → ℕ → Option JoinToken
generate_join_token signer now none validity = none
generate_join_token signer now (some token) validity = some (record {
  token = token;
  expires_at = now + validity;
  signature = signer.sign (join_message token (now + validity));
})

-- A key that is missing reads as false.
abbrev pub is_used : Option Bool → Bool
is_used none = false
is_used (some b) = b

unfoldable pub validate_join_token :
    Signer → ℕ → UsedTokens → JoinToken → Result JoinError (Unit {0}) × UsedTokens
validate_join_token signer now used jt =
    if is_used (lookup jt.token used)
    then (err already_used, used)
    else if ltb jt.expires_at now
    then (err expired, used)
    else if not (signer.verify (join_message jt.token jt.expires_at) jt.signature)
    then (err invalid_signature, used)
    else (ok tt, insert jt.token true used)
