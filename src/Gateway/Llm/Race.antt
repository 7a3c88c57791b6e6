-- ===== src/Gateway/Llm/Race.antt =====
-- Whose key a forwarded request carries (internal/gateway/llm.go: Proxy).
use ussycode.Base.{
  ℕ, ◌≡◌, refl, sym, ◌∙◌, ap, subst, true, false, some, [], ◌++◌, nat_eq, list_eq, Result, ok, err,
  list_beq, lookup, Text, bytes, is_empty, Bool-cases, Option-cases, ◌⊎◌, inl, inr,
  lookup-insert_self, ◌==◌, ◌||◌, if◌then◌else◌, Option, none,
}
use ussycode.Gateway.Limiter.{RateLimiterMap, allow}
use ussycode.Gateway.Llm.{
  Provider, LlmError, Director, Gateway, HttpRequest, get_user_key, direct, with_key, admit, begin,
  inject_key, apply_director, forward,
}

-- The key that a user's request to a provider is to carry: the user's own, where the provider wants
-- one, and none otherwise.
abbrev pub Own : Gateway → ℕ → Text → Provider → Text → Type 0
Own g user provider p key =
    ((p.byok ≡ true) × (get_user_key g user provider ≡ ok key)) ⊎ ((p.byok ≡ false) × (key ≡ []))

-- The value that a header is to have because of the key.
abbrev pub key_header : Text → Text → Text → Option Text
key_header provider key name =
    if is_empty key
    then none
    else if provider == bytes "anthropic"
    then (if bytes "Anthropic-Version" == name
        then some (bytes "2023-06-01")
        else if bytes "X-Api-Key" == name
        then some key
        else none)
    else if provider == bytes "openai" || provider == bytes "fireworks"
    then (if bytes "Authorization" == name then some (bytes "Bearer " ++ key) else none)
    else none

abbrev pub or_else : Option Text → Option Text → Option Text
or_else (some value) rest = some value
or_else none rest = rest

-- What the request is to be made into: at the provider's host, and with the key.
abbrev pub Carries : Provider → Text → Text → HttpRequest → HttpRequest → Type 0
Carries p provider key r out =
    (out.url.host ≡ p.target.host)
    × (out.url.scheme ≡ p.target.scheme)
    × ((name : Text)
        → lookup name out.headers
          ≡ or_else (key_header provider key name)
              (if bytes "X-Forwarded-For" == name then none else lookup name r.headers))

module _ (now : ℕ) (user : ℕ) (provider : Text) (r : HttpRequest) where
  -- A request that passed the first step left its director, with its user's own key.
  record Begun (g g' : Gateway) : Type 0 where
    p : Provider
    key : Text
    known : lookup provider g.providers ≡ some p
    own : Own g user provider p key
    director :
        lookup provider g'.directors
        ≡ some (record { provider = provider; target = p.target; api_key = key })
    same_providers : g'.providers ≡ g.providers
    same_key : (other : ℕ) → get_user_key g' other provider ≡ get_user_key g other provider

  begun :
      (g : Gateway) (limiters : RateLimiterMap) (p : Provider) (key : Text)
      → lookup provider g.providers ≡ some p
      → Own g user provider p key
      → Begun g (direct now (record g { limiters = limiters }) user provider p r key)
  unfolding direct get_user_key
  begun g limiters p key known own = record {
    p = p;
    key = key;
    known = known;
    own = own;
    director = lookup-insert_self provider _ g.directors;
    same_providers = refl;
    same_key = λ other. refl;
  }

  -- The two ends of the first step.
  with_key-Begun :
      (g g' : Gateway) (limiters : RateLimiterMap) (p : Provider) (found : Result LlmError Text)
      → lookup provider g.providers ≡ some p
      → p.byok ≡ true
      → get_user_key g user provider ≡ found
      → with_key now (record g { limiters = limiters }) user provider p r found ≡ (ok tt, g')
      → Begun g g'
  with_key-Begun g g' limiters p (err e) known byok own h = absurd (cc)
  with_key-Begun g g' limiters p (ok key) known byok own h =
      subst (Begun g) (ap (λ (x : Result LlmError (Unit {0}) × Gateway). x.1) h)
        (begun g limiters p key known (inl (byok, own)))

  admit-Begun :
      (g g' : Gateway) (p : Provider)
      → lookup provider g.providers ≡ some p
      → admit now g user provider r p ≡ (ok tt, g')
      → Begun g g'
  unfolding admit get_user_key direct
  admit-Begun g g' p known h = elim (Bool-cases (allow now g.limiters user).0) [
    | inr refused ↦ absurd (cc (rw refused at h))
    | inl passed ↦ elim (Bool-cases p.byok) [
      | inl byok ↦
          with_key-Begun g g' (allow now g.limiters user).1 p (get_user_key g user provider) known
            byok refl (rw (passed, byok) at h)
      | inr free ↦
          subst (Begun g)
            (ap (λ (x : Result LlmError (Unit {0}) × Gateway). x.1) (rw (passed, free) at h))
            (begun g (allow now g.limiters user).1 p [] known (inr (free, refl)))
    ]
  ]

  begin-Begun : (g g' : Gateway) → begin now g (some user) provider r ≡ (ok tt, g') → Begun g g'
  unfolding begin
  begin-Begun g g' h = elim (Option-cases (lookup provider g.providers)) [
    | inl unknown ↦ absurd (cc (rw unknown at h))
    | inr (p, known) ↦ admit-Begun g g' p known (rw known at h)
  ]

Own-key :
    (g : Gateway) (user : ℕ) (provider : Text) (p : Provider) {key other : Text}
    → Own g user provider p key
    → p.byok ≡ true
    → get_user_key g user provider ≡ ok other
    → key ≡ other
Own-key g user provider p (inl (byok, own)) h k = cc
Own-key g user provider p (inr (free, none_needed)) h k = cc

some-injective {ℓ} : {A : Type ℓ} {a b : A} → some a ≡ some b → a ≡ b
some-injective h = cc

-- The header that a key is put in.
abbrev authorization : Text
authorization = bytes "Authorization"

apply_director-authorization :
    (d : Director) (r : HttpRequest)
    → d.provider ≡ bytes "openai"
    → is_empty d.api_key ≡ false
    → lookup authorization (apply_director d r).headers ≡ some (bytes "Bearer " ++ d.api_key)
unfolding apply_director inject_key list_beq
apply_director-authorization d r named key = rw (key, named) (lookup-insert_self authorization _ _)

-- Two requests at once: where a second user's request to OpenAI begins before the first user's is
-- forwarded, the first user's request is forwarded with the second user's key.
pub keys_cross :
    (now later first second : ℕ) (mine theirs : HttpRequest) (g g' g'' : Gateway) (p : Provider)
    (key : Text)
    → begin now g (some first) (bytes "openai") mine ≡ (ok tt, g')
    → begin later g' (some second) (bytes "openai") theirs ≡ (ok tt, g'')
    → lookup (bytes "openai") g.providers ≡ some p
    → p.byok ≡ true
    → get_user_key g second (bytes "openai") ≡ ok key
    → is_empty key ≡ false
    → lookup authorization (forward g'' (bytes "openai") mine).headers
      ≡ some (bytes "Bearer " ++ key)
unfolding forward
keys_cross now later first second mine theirs g g' g'' p key h k known byok own some_key =
    let b = begin-Begun now first (bytes "openai") mine g g' h in
    let b' = begin-Begun later second (bytes "openai") theirs g' g'' k in
    let same_p : some b'.p ≡ some p =
      sym b'.known ∙ ap (lookup (bytes "openai")) b.same_providers ∙ known in
    let same_key : b'.key ≡ key =
      Own-key g' second (bytes "openai") b'.p b'.own
        (ap (λ (q : Provider). q.byok) (some-injective same_p) ∙ byok) (b.same_key second ∙ own) in
    rw (b'.director, same_key)
      (apply_director-authorization
        (record { provider = bytes "openai"; target = b'.p.target; api_key = key }) mine refl
        some_key)
