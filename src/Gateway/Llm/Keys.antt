-- ===== src/Gateway/Llm/Keys.antt =====
-- Storing and reading the users' keys (internal/gateway/llm.go: SetUserKey, GetUserKey,
-- internal/db/queries.go: SetLLMKey, GetLLMKey).
use ussycode.Base.{
  ℕ, ◌≡◌, refl, sym, ◌∙◌, ap, Bool, true, false, ◌&&◌, Option, none, some, List, [], ◌∷◌, ◌++◌,
  if◌then◌else◌, nat_eq, list_eq, ◌==◌, Result, ok, err, lookup, Text, arith, beq_iff, Bool-cases,
  Option-cases, inl, inr,
}
use ussycode.Db.Vms.{first_where, update_where, exists_where}
use ussycode.Gateway.Llm.{
  not_configured, no_api_key, opened, LlmKey, LlmError, Encryptor, Gateway, Provider, is_key,
  set_llm_key, get_llm_key, store_encrypted, store_key, open_key, set_user_key, get_user_key,
}

abbrev text_of : Option LlmKey → Option Text
text_of none = none
text_of (some k) = some k.encrypted_key

abbrev pub same : ℕ → Text → ℕ → Text → Bool
same user provider other_user other_provider = user == other_user && provider == other_provider

-- A row of one user and provider is a row of another if these are the same.
is_key-same :
    (user : ℕ) (provider : Text) (reader : ℕ) (read : Text) (k : LlmKey)
    → is_key user provider k ≡ true
    → is_key reader read k ≡ same user provider reader read
is_key-same user provider reader read k h =
    let who : k.user_id ≡ user = ground (arith, beq_iff k.user_id user) in
    let what : k.provider ≡ provider = ground (arith, beq_iff k.provider provider) in
    ap (λ (id : ℕ). id == reader && k.provider == read) who
    ∙ ap (λ (name : Text). user == reader && name == read) what

is_key-same_back :
    (user : ℕ) (provider : Text) (reader : ℕ) (read : Text) (k : LlmKey)
    → same user provider reader read ≡ true
    → is_key reader read k ≡ true
    → is_key user provider k ≡ true
is_key-same_back user provider reader read k h m = ground (
  arith,
  beq_iff user reader,
  beq_iff provider read,
  beq_iff k.user_id user,
  beq_iff k.provider provider,
  beq_iff k.user_id reader,
  beq_iff k.provider read,
)

some-injective {ℓ} : {A : Type ℓ} {a b : A} → some a ≡ some b → a ≡ b
some-injective h = cc

module _ (user : ℕ) (provider encrypted : Text) (reader : ℕ) (read : Text) where
  abbrev found : List LlmKey → Option Text
  found keys = text_of (first_where (is_key reader read) keys)

  abbrev written : LlmKey → LlmKey
  written k = record k { encrypted_key = encrypted }

  untouched :
      (keys : List LlmKey)
      → same user provider reader read ≡ false
      → found (update_where (is_key user provider) written keys) ≡ found keys
  unfolding first_where update_where
  untouched [] h = refl
  untouched (k ∷ keys) h = elim (Bool-cases (is_key user provider k)) [
    | inl mine ↦
        let other = is_key-same user provider reader read k mine ∙ h in
        rw (mine, other) (untouched keys h)
    | inr not_mine ↦ elim (Bool-cases (is_key reader read k)) [
      | inl yours ↦ rw (not_mine, yours) refl
      | inr neither ↦ rw (not_mine, neither) (untouched keys h)
    ]
  ]

  replaced :
      (keys : List LlmKey)
      → same user provider reader read ≡ true
      → exists_where (is_key user provider) keys ≡ true
      → found (update_where (is_key user provider) written keys) ≡ some encrypted
  unfolding exists_where first_where update_where
  replaced [] h m = absurd (cc)
  replaced (k ∷ keys) h m = elim (Bool-cases (is_key user provider k)) [
    | inl mine ↦ rw (mine, is_key-same user provider reader read k mine ∙ h) refl
    | inr not_mine ↦ elim (Bool-cases (is_key reader read k)) [
      | inl yours ↦
          absurd (cc (sym not_mine ∙ is_key-same_back user provider reader read k h yours))
      | inr neither ↦ rw (not_mine, neither) (replaced keys h (rw not_mine at m))
    ]
  ]

  appended :
      (keys : List LlmKey)
      → exists_where (is_key user provider) keys ≡ false
      → found
          (keys ++ record { user_id = user; provider = provider; encrypted_key = encrypted } ∷ [])
        ≡ (if same user provider reader read then some encrypted else found keys)
  unfolding exists_where first_where
  appended [] h = ground arith
  appended (k ∷ keys) h = elim (Bool-cases (is_key user provider k)) [
    | inl mine ↦ absurd (cc (rw mine at h))
    | inr not_mine ↦ elim (Bool-cases (is_key reader read k)) [
      | inr neither ↦ rw neither (appended keys (rw not_mine at h))
      | inl yours ↦ elim (Bool-cases (same user provider reader read)) [
        | inr other ↦ rw (yours, other) refl
        | inl equal ↦
            absurd (cc (sym not_mine ∙ is_key-same_back user provider reader read k equal yours))
      ]
    ]
  ]

  get_llm_key-set_llm_key :
      (users : List ℕ) (keys after : List LlmKey)
      → set_llm_key users keys user provider encrypted ≡ some after
      → text_of (get_llm_key after reader read) ≡ (
          if same user provider reader read
          then some encrypted
          else text_of (get_llm_key keys reader read))
  unfolding get_llm_key set_llm_key
  get_llm_key-set_llm_key users keys after h =
      elim (Bool-cases (exists_where (λ id. id == user) users)) [
        | inr unknown ↦ absurd (cc (rw unknown at h))
        | inl known ↦ elim (Bool-cases (exists_where (is_key user provider) keys)) [
          | inr absent ↦ rw (some-injective (sym (rw (known, absent) at h))) (appended keys absent)
          | inl present ↦
              let stored = some-injective (sym (rw (known, present) at h)) in
              elim (Bool-cases (same user provider reader read)) [
                | inl equal ↦ rw (stored, equal) (replaced keys equal present)
                | inr other ↦ rw (stored, other) (untouched keys other)
              ]
        ]
      ]

-- What is known of the encryption: what was encrypted decrypts to itself.
abbrev pub Opens : Option Encryptor → Type 0
Opens none = Unit
Opens (some e) =
    (text encrypted : Text) → e.encrypt text ≡ some encrypted → e.decrypt encrypted ≡ some text

abbrev open_text : Option Encryptor → Option Text → Result LlmError Text
open_text none t = err not_configured
open_text (some e) none = err no_api_key
open_text (some e) (some t) = opened (e.decrypt t)

open_key-open_text :
    (e : Option Encryptor) (k : Option LlmKey) → open_key e k ≡ open_text e (text_of k)
open_key-open_text none k = refl
open_key-open_text (some e) none = refl
open_key-open_text (some e) (some k) = refl

module _ (user : ℕ) (provider key : Text) (reader : ℕ) (read : Text) where
  stored_key :
      (g g' : Gateway) (o : Option Encryptor) (p : Option Provider)
      → Opens o
      → store_key g user provider key o p ≡ (ok tt, g')
      → open_key o (get_llm_key g'.keys reader read) ≡ (
          if same user provider reader read
          then ok key
          else open_key o (get_llm_key g.keys reader read))
  stored_key g g' none p opens h = absurd (cc)
  stored_key g g' (some e) none opens h = absurd (cc)
  stored_key g g' (some e) (some p) opens h = elim (Option-cases (e.encrypt key)) [
    | inl failed ↦ absurd (cc (rw failed at h))
    | inr (encrypted, made) ↦
        elim (Option-cases (set_llm_key g.users g.keys user provider encrypted)) [
          | inl refused ↦ absurd (cc (rw (made, refused, store_encrypted) at h))
          | inr (after, kept) ↦
              let keys : after ≡ g'.keys =
                ap (λ (x : Result LlmError (Unit {0}) × Gateway). x.1.keys)
                  (rw (made, kept, store_encrypted) at h) in
              let read_back =
                get_llm_key-set_llm_key user provider encrypted reader read g.users g.keys after
                  kept in
              rw (sym keys, open_key-open_text (some e) (get_llm_key after reader read), read_back)
                (elim (Bool-cases (same user provider reader read)) [
                  | inl equal ↦ rw equal (ap opened (opens key encrypted made))
                  | inr other ↦
                      rw other (sym (open_key-open_text (some e) (get_llm_key g.keys reader read)))
                ])
        ]
  ]

  store_key-encryptor :
      (g g' : Gateway) (o : Option Encryptor) (p : Option Provider)
      → store_key g user provider key o p ≡ (ok tt, g')
      → g'.encryptor ≡ g.encryptor
  store_key-encryptor g g' none p h = absurd (cc)
  store_key-encryptor g g' (some e) none h = absurd (cc)
  store_key-encryptor g g' (some e) (some p) h = elim (Option-cases (e.encrypt key)) [
    | inl failed ↦ absurd (cc (rw failed at h))
    | inr (encrypted, made) ↦
        elim (Option-cases (set_llm_key g.users g.keys user provider encrypted)) [
          | inl refused ↦ absurd (cc (rw (made, refused, store_encrypted) at h))
          | inr (after, kept) ↦ sym (
              ap (λ (x : Result LlmError (Unit {0}) × Gateway). x.1.encryptor)
                (rw (made, kept, store_encrypted) at h))
        ]
  ]

  -- After a key is stored, its user reads that key for its provider, where encryption can be undone;
  -- what any other user, or the same user for another provider, reads is what it was.
  pub get_user_key-set_user_key :
      (g g' : Gateway)
      → Opens g.encryptor
      → set_user_key g user provider key ≡ (ok tt, g')
      → get_user_key g' reader read
        ≡ (if same user provider reader read then ok key else get_user_key g reader read)
  unfolding get_user_key set_user_key
  get_user_key-set_user_key g g' opens h =
      rw (store_key-encryptor g g' g.encryptor (lookup provider g.providers) h)
        (stored_key g g' g.encryptor (lookup provider g.providers) opens h)
