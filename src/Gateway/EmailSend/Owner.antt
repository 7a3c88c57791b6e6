-- ===== src/Gateway/EmailSend/Owner.antt =====
-- Whom a mail goes to (internal/gateway/email_send.go: HandleEmailSend).
use ussycode.Base.{
  ℕ, ◌≡◌, refl, sym, ap, Bool, true, false, ◌||◌, Option, none, some, Result, ok, err, Text, bytes,
  is_empty, Bool-cases, ◌⊎◌, inl, inr,
}
use ussycode.Db.Models.{User, Db, DbError}
use ussycode.Db.Vms.{user_by_id}
use ussycode.Gateway.Registry.{VmMetadata}
use ussycode.Gateway.EmailSend.{
  EmailSender, EmailRequest, Mail, Answer, check_send_rate, equal_fold, email_of, get_user_email,
  send_limited, send_to_owner, decoded, handle_email_send,
}

-- A mail goes to the address of the VM's owner, up to case, from the sender's address, and the VM's
-- name had a mail left.
pub record ToOwner (fold : ℕ → ℕ) (now : ℕ) (db : Db) (e : EmailSender) (meta : VmMetadata)
    (mail : Mail) : Type 0 where
  pub owner : User
  pub of_vm : user_by_id db meta.user_id ≡ ok owner
  pub has_email : is_empty (bytes owner.email) ≡ false
  pub addressed : equal_fold fold mail.recipient (bytes owner.email) ≡ true
  pub in_rate : (check_send_rate now e meta.vm_name).0 ≡ true
  pub from_sender : mail.from ≡ e.from_address

-- No mail, and the counts as they were; or what the rate limit made of the request.
abbrev pub has_mail : Option Mail → Bool
has_mail none = false
has_mail (some mail) = true

abbrev pub Settled : ℕ → EmailSender → VmMetadata → Answer → Type 0
Settled now e meta ((response, mail), e') =
    ((mail ≡ none) × (e' ≡ e))
    ⊎ ((has_mail mail ≡ (check_send_rate now e meta.vm_name).0)
        × (e' ≡ (check_send_rate now e meta.vm_name).1))

some-injective {ℓ} : {A : Type ℓ} {a b : A} → some a ≡ some b → a ≡ b
some-injective h = cc

module _ (fold : ℕ → ℕ) (now : ℕ) (date : Text) (delivered : Bool) (e : EmailSender)
    (meta : VmMetadata) where
  send_limited-Settled :
      (r : EmailRequest) → Settled now e meta (send_limited now date delivered e meta r)
  unfolding send_limited
  send_limited-Settled r = elim (Bool-cases (check_send_rate now e meta.vm_name).0) [
    | inl allowed ↦ rw allowed (inr (refl, refl))
    | inr refused ↦ rw refused (inr (refl, refl))
  ]

  send_to_owner-Settled :
      (r : EmailRequest) (found : Result DbError Text)
      → Settled now e meta (send_to_owner fold now date delivered e meta r found)
  unfolding send_to_owner
  send_to_owner-Settled r (err d) = inl (refl, refl)
  send_to_owner-Settled r (ok owner) = elim (Bool-cases (is_empty owner)) [
    | inl none_set ↦ rw none_set (inl (refl, refl))
    | inr set ↦ elim (Bool-cases (equal_fold fold r.recipient owner)) [
      | inr other ↦ rw (set, other) (inl (refl, refl))
      | inl same ↦ rw (set, same) (send_limited-Settled r)
    ]
  ]

  decoded-Settled :
      (db : Db) (request : Option EmailRequest)
      → Settled now e meta (decoded fold now date delivered db e meta request)
  decoded-Settled db none = inl (refl, refl)
  decoded-Settled db (some r) =
      elim (Bool-cases (is_empty r.recipient || is_empty r.subject || is_empty r.body)) [
        | inl missing ↦ rw missing (inl (refl, refl))
        | inr complete ↦ rw complete (send_to_owner-Settled r (get_user_email db meta.user_id))
      ]

  pub handle_email_send-Settled :
      (db : Db) (is_post : Bool) (request : Option EmailRequest)
      → Settled now e meta (handle_email_send fold now date delivered db e meta is_post request)
  unfolding handle_email_send
  handle_email_send-Settled db false request = inl (refl, refl)
  handle_email_send-Settled db true request = decoded-Settled db request

  -- The answer to one request, read backwards from the mail.
  module _ (mail : Mail) where
    limited-ToOwner :
        (db : Db) (r : EmailRequest) (owner : User)
        → user_by_id db meta.user_id ≡ ok owner
        → is_empty (bytes owner.email) ≡ false
        → equal_fold fold r.recipient (bytes owner.email) ≡ true
        → (send_limited now date delivered e meta r).0.1 ≡ some mail
        → ToOwner fold now db e meta mail
    unfolding send_limited
    limited-ToOwner db r owner of_vm has_email addressed h =
        elim (Bool-cases (check_send_rate now e meta.vm_name).0) [
          | inr refused ↦ absurd (cc (rw refused at h))
          | inl allowed ↦
              let sent = rw allowed at h in
              record {
                owner = owner;
                of_vm = of_vm;
                has_email = has_email;
                addressed =
                    rw (sym (ap (λ (m : Mail). m.recipient) (some-injective sent))) addressed;
                in_rate = allowed;
                from_sender = sym (ap (λ (m : Mail). m.from) (some-injective sent));
              }
        ]

    checked-ToOwner :
        (db : Db) (r : EmailRequest) (found : Result DbError User)
        → user_by_id db meta.user_id ≡ found
        → (send_to_owner fold now date delivered e meta r (email_of found)).0.1 ≡ some mail
        → ToOwner fold now db e meta mail
    unfolding send_to_owner
    checked-ToOwner db r (err d) of_vm h = absurd (cc)
    checked-ToOwner db r (ok owner) of_vm h = elim (Bool-cases (is_empty (bytes owner.email))) [
      | inl none_set ↦ absurd (cc (rw none_set at h))
      | inr set ↦ elim (Bool-cases (equal_fold fold r.recipient (bytes owner.email))) [
        | inr other ↦ absurd (cc (rw (set, other) at h))
        | inl same ↦ limited-ToOwner db r owner of_vm set same (rw (set, same) at h)
      ]
    ]

    decoded-ToOwner :
        (db : Db) (request : Option EmailRequest)
        → (decoded fold now date delivered db e meta request).0.1 ≡ some mail
        → ToOwner fold now db e meta mail
    unfolding get_user_email
    decoded-ToOwner db none h = absurd (cc)
    decoded-ToOwner db (some r) h =
        elim (Bool-cases (is_empty r.recipient || is_empty r.subject || is_empty r.body)) [
          | inl missing ↦ absurd (cc (rw missing at h))
          | inr complete ↦ checked-ToOwner db r (user_by_id db meta.user_id) refl (rw complete at h)
        ]

    -- A mail is handed to the relay only for the address of the VM's owner, up to the case of its
    -- runes, and only if the VM's name has a mail left in this hour.
    pub handle_email_send-ToOwner :
        (db : Db) (is_post : Bool) (request : Option EmailRequest)
        → (handle_email_send fold now date delivered db e meta is_post request).0.1 ≡ some mail
        → ToOwner fold now db e meta mail
    unfolding handle_email_send
    handle_email_send-ToOwner db false request h = absurd (cc)
    handle_email_send-ToOwner db true request h = decoded-ToOwner db request h
