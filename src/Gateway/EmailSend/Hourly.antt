-- ===== src/Gateway/EmailSend/Hourly.antt =====
-- How many mails go out for one VM name within an hour (internal/gateway/email_send.go:
-- HandleEmailSend, checkSendRate).
use ussycode.Base.{
  ℕ, suc, ◌+◌, ◌-◌, ◌≤◌, ◌≡◌, ◌≢◌, refl, sym, ◌∙◌, ap, Bool, ◌&&◌, Option, none, some, List, [],
  ◌∷◌, if◌then◌else◌, nat_eq, list_eq, ◌==◌, lookup, Text, All, arith, beq_iff, Bool-cases, inl,
  inr, lookup-insert_self, lookup-insert_ne,
}
use ussycode.Db.Models.{Db}
use ussycode.Gateway.Registry.{VmMetadata}
use ussycode.Gateway.Llm.{hour_of}
use ussycode.Gateway.EmailSend.{
  SendBucket, EmailSender, EmailRequest, Answer, count_send, check_send_rate, handle_email_send,
}
use ussycode.Gateway.EmailSend.Owner.{has_mail, handle_email_send-Settled}

-- A request of a VM, with what comes from outside.
pub record Send : Type 0 where
  pub fold : ℕ → ℕ
  pub now : ℕ
  pub date : Text
  pub delivered : Bool
  pub db : Db
  pub meta : VmMetadata
  pub is_post : Bool
  pub request : Option EmailRequest

abbrev pub handle : EmailSender → Send → Answer
handle e s = handle_email_send s.fold s.now s.date s.delivered s.db e s.meta s.is_post s.request

-- The mails that are handed out for a VM name.
unfoldable pub mails : Text → EmailSender → List Send → ℕ
mails name e [] = 0
mails name e (s ∷ sends) =
    let rest = mails name (handle e s).1 sends in
    if s.meta.vm_name == name && has_mail (handle e s).0.1 then suc rest else rest

-- The mails that a name has left in an hour.
abbrev left_of : ℕ → ℕ → Option SendBucket → ℕ
left_of rate window none = rate
left_of rate window (some b) = if b.window_at == window then rate - b.count else rate

abbrev left : EmailSender → ℕ → Text → ℕ
left e window name = left_of e.rate_per_hour window (lookup name e.vm_rates)

left-le : (rate window : ℕ) (o : Option SendBucket) → left_of rate window o ≤ rate
left-le rate window none = omega arith
left-le rate window (some b) = ground arith

counted :
    (rate window : ℕ) (o : Option SendBucket)
    → 1 ≤ rate
    → (if (count_send rate window o).0 then 1 else 0)
        + left_of rate window (some (count_send rate window o).1)
      ≤ left_of rate window o
unfolding count_send
counted rate window none h = ground arith
counted rate window (some b) h = ground arith

module _ (now : ℕ) (e : EmailSender) (asker name : Text) where
  check-own :
      asker ≡ name
      → 1 ≤ e.rate_per_hour
      → (if (check_send_rate now e asker).0 then 1 else 0)
          + left (check_send_rate now e asker).1 (hour_of now) name
        ≤ left e (hour_of now) name
  unfolding check_send_rate
  check-own same h =
      rw
        (
          same,
          lookup-insert_self name
              (count_send e.rate_per_hour (hour_of now) (lookup name e.vm_rates)).1 e.vm_rates,
        )
        (counted e.rate_per_hour (hour_of now) (lookup name e.vm_rates) h)

  check-other :
      (window : ℕ)
      → asker ≢ name
      → left (check_send_rate now e asker).1 window name ≡ left e window name
  unfolding check_send_rate
  check-other window other = ap (left_of e.rate_per_hour window) (
      lookup-insert_ne asker name
        (count_send e.rate_per_hour (hour_of now) (lookup asker e.vm_rates)).1 e.vm_rates other)

  check-rate : (check_send_rate now e asker).1.rate_per_hour ≡ e.rate_per_hour
  unfolding check_send_rate
  check-rate = refl

module _ (name : Text) (window : ℕ) (e : EmailSender) (s : Send) (h : 1 ≤ e.rate_per_hour) where
  handle-rate : (handle e s).1.rate_per_hour ≡ e.rate_per_hour
  handle-rate =
      elim (handle_email_send-Settled s.fold s.now s.date s.delivered e s.meta s.db s.is_post
        s.request) [
          | inl (no_mail, same) ↦ ap (λ (x : EmailSender). x.rate_per_hour) same
          | inr (mail, same) ↦
              ap (λ (x : EmailSender). x.rate_per_hour) same
              ∙ check-rate s.now e s.meta.vm_name name
        ]

  handle-own :
      s.meta.vm_name ≡ name
      → hour_of s.now ≡ window
      → (if has_mail (handle e s).0.1 then 1 else 0) + left (handle e s).1 window name
        ≤ left e window name
  handle-own own hour =
      elim (handle_email_send-Settled s.fold s.now s.date s.delivered e s.meta s.db s.is_post
        s.request) [
          | inl (no_mail, same) ↦ rw (no_mail, same) (omega arith)
          | inr (mail, same) ↦
              rw (mail, same, sym hour) (check-own s.now e s.meta.vm_name name own h)
        ]

  handle-other : s.meta.vm_name ≢ name → left (handle e s).1 window name ≡ left e window name
  handle-other other =
      elim (handle_email_send-Settled s.fold s.now s.date s.delivered e s.meta s.db s.is_post
        s.request) [
          | inl (no_mail, same) ↦ ap (λ x. left x window name) same
          | inr (mail, same) ↦
              ap (λ x. left x window name) same
              ∙ check-other s.now e s.meta.vm_name name window other
        ]

mails-le-left :
    (name : Text) (window : ℕ) (e : EmailSender) (sends : List Send)
    → 1 ≤ e.rate_per_hour
    → All (λ s. hour_of s.now ≡ window) sends
    → mails name e sends ≤ left e window name
unfolding mails
mails-le-left name window e [] h hours = omega arith
mails-le-left name window e (s ∷ sends) h hours =
    let rest =
      mails-le-left name window (handle e s).1 sends (rw (handle-rate name window e s h) h)
        hours.1 in
    elim (Bool-cases (s.meta.vm_name == name)) [
      | inl same ↦
          let own = handle-own name window e s h ((beq_iff s.meta.vm_name name).0 same) hours.0 in
          elim (Bool-cases (has_mail (handle e s).0.1)) [
            | inl mail ↦ rw (same, mail) (omega (arith, rest, rw mail at own))
            | inr no_mail ↦ rw (same, no_mail) (omega (arith, rest, rw no_mail at own))
          ]
      | inr different ↦
          let kept =
            handle-other name window e s h
              (λ eq. absurd (cc ((beq_iff s.meta.vm_name name).1 eq))) in
          rw different (omega (arith, rest, kept))
    ]

-- Whatever requests come within one hour, and whatever came before it, the mails that are handed out
-- for one VM name are no more than the rate per hour, where that is not 0.
pub mails-le-rate :
    (name : Text) (window : ℕ) (e : EmailSender) (sends : List Send)
    → 1 ≤ e.rate_per_hour
    → All (λ s. hour_of s.now ≡ window) sends
    → mails name e sends ≤ e.rate_per_hour
mails-le-rate name window e sends h hours = omega (
  arith,
  mails-le-left name window e sends h hours,
  left-le e.rate_per_hour window (lookup name e.vm_rates),
)
