-- ===== src/Gateway/EmailSend.antt =====
-- The mail that a VM sends to its owner (internal/gateway/email_send.go). What the JSON decoder and the SMTP relay answer are arguments, and the date
-- that the message states is one; so is the table of Unicode by which cases are ignored.
pub mod Owner
pub mod Hourly
mod Tests
use ussycode.Base.{
  ℕ, zero, suc, ◌+◌, Bool, true, false, not, ◌&&◌, ◌||◌, String, Option, none, some, List, [], ◌∷◌,
  ◌++◌, map, leb, if◌then◌else◌, nat_eq, list_eq, ◌==◌, Result, ok, err, GoMap, lookup, insert,
  Text, bytes, runes, take, is_empty, length, ltb,
}
use ussycode.Db.Models.{User, Db, DbError}
use ussycode.Db.Vms.{user_by_id}
use ussycode.Api.Words.{cut}
use ussycode.Gateway.Registry.{VmMetadata}
use ussycode.Gateway.Llm.{hour_of}

pub record SendBucket : Type 0 where
  pub count : ℕ
  pub window_at : ℕ

pub record EmailSender : Type 0 where
  pub rate_per_hour : ℕ
  pub from_address : Text
  pub vm_rates : GoMap Text SendBucket

pub record EmailRequest : Type 0 where
  pub recipient : Text
  pub subject : Text
  pub body : Text

-- What is handed to the SMTP relay.
pub record Mail : Type 0 where
  pub from : Text
  pub recipient : Text
  pub message : Text

-- The responses: 405, 400, 400, 500, 403, 403 with the owner's masked address, 429, and what follows
-- the relay's answer, 502 or 200.
pub data EmailResponse : Type 0 where
  method_not_allowed invalid_json missing_fields lookup_failed no_owner_email : EmailResponse
  not_the_owner : Text → EmailResponse
  rate_exceeded relay_failed sent : EmailResponse

-- `NewEmailSender`, where a rate that is not positive stands for the default.
unfoldable pub new_email_sender : ℕ → Text → EmailSender
new_email_sender rate_per_hour from_address = record {
  rate_per_hour = if rate_per_hour == 0 then 10 else rate_per_hour;
  from_address = if is_empty from_address then bytes "noreply@ussy.host" else from_address;
  vm_rates = [];
}

-- The answer of `checkSendRate`, and the bucket that it leaves.
unfoldable pub count_send : ℕ → ℕ → Option SendBucket → Bool × SendBucket
count_send rate window none = (true, record { count = 1; window_at = window })
count_send rate window (some b) =
    if not (b.window_at == window)
    then (true, record { count = 1; window_at = window })
    else if leb rate b.count
    then (false, b)
    else (true, record b { count = b.count + 1 })

unfoldable pub check_send_rate : ℕ → EmailSender → Text → Bool × EmailSender
unfolding count_send hour_of
check_send_rate now e vm_name =
    let (allowed, b) = count_send e.rate_per_hour (hour_of now) (lookup vm_name e.vm_rates) in
    (allowed, record e { vm_rates = insert vm_name b e.vm_rates })

-- `strings.EqualFold`, where `fold` gives the same rune for the runes that Unicode's simple folding
-- takes for one.
unfoldable pub equal_fold : (ℕ → ℕ) → Text → Text → Bool
unfolding runes
equal_fold fold a b = map fold (runes a) == map fold (runes b)

abbrev at_sign : ℕ
at_sign = 64

abbrev masked : Option (Text × Text) → Text
masked none = bytes "***"
masked (some (local, domain)) =
    let shown = if ltb 1 (length local) then take 1 local ++ bytes "***" else local in
    shown ++ at_sign ∷ domain

unfoldable pub mask_email : Text → Text
mask_email email = masked (cut at_sign email)

abbrev crlf : Text
crlf = 13 ∷ 10 ∷ []

abbrev header : String → Text → Text
header name value = bytes name ++ (value ++ crlf)

unfoldable pub build_email_message : Text → Text → EmailRequest → VmMetadata → Text
build_email_message date from r meta =
    header "From: " from
    ++ (header "To: " r.recipient
        ++ (header "Subject: " r.subject
            ++ (header "Date: " date
                ++ (header "MIME-Version: " (bytes "1.0")
                    ++ (header "Content-Type: " (bytes "text/plain; charset=utf-8")
                        ++ (header "X-Ussycode-VM: " meta.vm_name
                            ++ (header "X-Ussycode-User: " meta.user_handle
                                ++ (crlf ++ r.body))))))))

-- `GetUserEmail`.
abbrev pub email_of : Result DbError User → Result DbError Text
email_of (err e) = err e
email_of (ok user) = ok (bytes user.email)

unfoldable pub get_user_email : Db → ℕ → Result DbError Text
get_user_email db user_id = email_of (user_by_id db user_id)

abbrev pub Answer : Type 0
Answer = (EmailResponse × Option Mail) × EmailSender

-- The rate limit, and the relay.
unfoldable pub send_limited : ℕ → Text → Bool → EmailSender → VmMetadata → EmailRequest → Answer
send_limited now date delivered e meta r =
    let (allowed, e') = check_send_rate now e meta.vm_name in
    let mail : Mail = record {
      from = e.from_address;
      recipient = r.recipient;
      message = build_email_message date e.from_address r meta;
    } in
    if not allowed
    then ((rate_exceeded, none), e')
    else ((if delivered then sent else relay_failed, some mail), e')

-- The checks against the owner's address.
unfoldable pub send_to_owner :
    (ℕ → ℕ)
    → ℕ
    → Text
    → Bool
    → EmailSender
    → VmMetadata
    → EmailRequest
    → Result DbError Text
    → Answer
send_to_owner fold now date delivered e meta r (err d) = ((lookup_failed, none), e)
send_to_owner fold now date delivered e meta r (ok owner) =
    if is_empty owner
    then ((no_owner_email, none), e)
    else if not (equal_fold fold r.recipient owner)
    then ((not_the_owner (mask_email owner), none), e)
    else send_limited now date delivered e meta r

abbrev pub decoded :
    (ℕ → ℕ) → ℕ → Text → Bool → Db → EmailSender → VmMetadata → Option EmailRequest → Answer
decoded fold now date delivered db e meta none = ((invalid_json, none), e)
decoded fold now date delivered db e meta (some r) =
    if is_empty r.recipient || is_empty r.subject || is_empty r.body
    then ((missing_fields, none), e)
    else send_to_owner fold now date delivered e meta r (get_user_email db meta.user_id)

unfoldable pub handle_email_send :
    (ℕ → ℕ) → ℕ → Text → Bool → Db → EmailSender → VmMetadata → Bool → Option EmailRequest → Answer
handle_email_send fold now date delivered db e meta is_post request =
    if not is_post
    then ((method_not_allowed, none), e)
    else decoded fold now date delivered db e meta request
