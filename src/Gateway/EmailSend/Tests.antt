-- ===== src/Gateway/EmailSend/Tests.antt =====
-- The mail gateway's theorems at concrete requests.
use ussycode.Base.{
  ℕ, ◌+◌, ◌&&◌, leb, if◌then◌else◌, runes, ◌≤◌, ◌≡◌, refl, true, some, [], ◌∷◌, ◌++◌, nat_eq,
  list_eq, list_beq, bytes, arith, lookup, insert, is_empty,
}
use ussycode.Db.Models.{User, Db}
use ussycode.Db.Vms.{first_where, user_by_id}
use ussycode.Api.Words.{cut}
use ussycode.Gateway.Registry.{VmMetadata}
use ussycode.Gateway.Llm.{hour_of}
use ussycode.Gateway.EmailSend.{
  EmailSender, EmailRequest, Mail, check_send_rate, equal_fold, mask_email, build_email_message,
  get_user_email, send_limited, send_to_owner, handle_email_send,
}
use ussycode.Gateway.EmailSend.Owner.{ToOwner, handle_email_send-ToOwner}
use ussycode.Gateway.EmailSend.Hourly.{Send, mails, mails-le-rate}

abbrev ann : User
ann = record { id = 1; handle = "ann"; email = "Ann@example.org"; trust_level = "newbie" }

abbrev database : Db
database = record {
  users = ann ∷ [];
  vms = [];
  shares = [];
  tokens = [];
  magic_tokens = [];
  ssh_keys = [];
  api_tokens = [];
  tags = [];
  domains = [];
  next_vm_id = 1;
  next_share_id = 1;
  next_token_id = 1;
  next_key_id = 1;
}

abbrev sender : EmailSender
sender = record { rate_per_hour = 1; from_address = bytes "noreply@ussy.host"; vm_rates = [] }

abbrev box : VmMetadata
box = record {
  instance_id = bytes "vm-1";
  local_ipv4 = bytes "10.0.0.2";
  hostname = bytes "box";
  user_id = 1;
  user_handle = bytes "ann";
  vm_name = bytes "box";
  image = bytes "ussyuntu";
  ssh_keys = [];
  gateway = bytes "10.0.0.1";
  env_vars = [];
}

abbrev to_ann : EmailRequest
to_ann = record { recipient = bytes "ann@EXAMPLE.org"; subject = bytes "hi"; body = bytes "text" }

-- The folding of the letters of ASCII.
abbrev fold : ℕ → ℕ
fold c = if leb 65 c && leb c 90 then c + 32 else c

abbrev mail : Mail
mail = record {
  from = bytes "noreply@ussy.host";
  recipient = bytes "ann@EXAMPLE.org";
  message = build_email_message (bytes "today") (bytes "noreply@ussy.host") to_ann box;
}

mailed :
    (handle_email_send fold 5 (bytes "today") true database sender box true (some to_ann)).0.1
    ≡ some mail
unfolding handle_email_send is_empty get_user_email user_by_id first_where send_to_owner equal_fold
    runes list_beq send_limited check_send_rate lookup insert
mailed = refl

handle_email_send-ToOwner_example : ToOwner fold 5 database sender box mail
handle_email_send-ToOwner_example =
    handle_email_send-ToOwner fold 5 (bytes "today") true sender box mail database true
      (some to_ann) mailed

-- One rune of two bytes is read whole, and a byte alone is U+FFFD.
read_runes : runes (197 ∷ 191 ∷ 255 ∷ 97 ∷ []) ≡ 383 ∷ 65533 ∷ 97 ∷ []
unfolding runes
read_runes = refl

abbrev send : Send
send = record {
  fold = fold;
  now = 5;
  date = bytes "today";
  delivered = true;
  db = database;
  meta = box;
  is_post = true;
  request = some to_ann;
}

one_mail : mails (bytes "box") sender (send ∷ send ∷ []) ≡ 1
unfolding mails handle_email_send is_empty get_user_email user_by_id first_where send_to_owner
    equal_fold runes list_beq send_limited check_send_rate lookup insert
one_mail = refl

same_hour : hour_of 5 ≡ 0
unfolding hour_of
same_hour = refl

mails-le-rate_example : mails (bytes "box") sender (send ∷ send ∷ []) ≤ 1
mails-le-rate_example =
    mails-le-rate (bytes "box") 0 sender (send ∷ send ∷ []) (omega arith)
      (same_hour, (same_hour, tt))

masked_address : mask_email (bytes "ann@example.org") ≡ bytes "a***@example.org"
unfolding mask_email cut
masked_address = refl

-- A line break in the subject starts a header of its own.
broken_subject :
    build_email_message [] []
      (record { recipient = []; subject = bytes "hi\r\nBcc: eve@x"; body = [] })
      box
    ≡ bytes "From: \r\nTo: \r\nSubject: hi\r\nBcc: eve@x\r\nDate: \r\nMIME-Version: 1.0\r\n"
      ++ bytes
          "Content-Type: text/plain; charset=utf-8\r\nX-Ussycode-VM: box\r\nX-Ussycode-User: ann\r\n\r\n"
unfolding build_email_message
broken_subject = refl
