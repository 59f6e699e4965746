-- ===== src/Tasks/Mail.antt =====
-- internal/tasks/email.go: the sending of an email. `smtp.SendMail`, with its timeout, is what `Sender.send`
-- answers.
pub mod Headers
use hen_kai_pan.Prelude.{
  ℕ, Bool, true, false, List, [], ◌∷◌, ◌++◌, Option, none, some, if◌then◌else◌, ◌||◌, not, ◌==◌,
  map,
}
use hen_kai_pan.Strings.{Text, lit, is_empty, trim_space, join}

-- `strings.ReplaceAll` of one byte by a space
pub replace_byte : ℕ → Text → Text
replace_byte b s = map (λ c. if c == b then b' ' else c) s

unfoldable pub sanitize_email_header : Text → Text
unfolding replace_byte trim_space
sanitize_email_header value = trim_space (replace_byte b'\n' (replace_byte b'\r' value))

unfoldable pub build_email_message : Text → List Text → Text → Text → Text
unfolding sanitize_email_header
build_email_message from to subject body =
    join
      ((lit "From: " ++ from)
        ∷ (lit "To: " ++ join to (lit ", "))
        ∷ (lit "Subject: " ++ sanitize_email_header subject)
        ∷ lit "MIME-Version: 1.0"
        ∷ lit "Content-Type: text/plain; charset=UTF-8"
        ∷ [])
      (lit "\r\n")
    ++ lit "\r\n\r\n"
    ++ trim_space body
    ++ lit "\r\n"

pub record EmailSendPayload : Type 0 where
  pub subject : Text
  pub body : Text
  pub to : List Text

pub data EmailError : Type 0 where
  bad_payload incomplete : EmailError
  send_failed : Text → EmailError

-- `EmailConfig`, and what the server answers to a message for its recipients.
pub record Sender : Type 0 where
  pub enabled : Bool
  pub from : Text
  pub send_mail : List Text → Text → Option Text

-- What was given to the server, if anything, and the error.
pub record Sent : Type 0 where
  pub message : Option Text
  pub failure : Option EmailError

send_failure : Option Text → Option EmailError
send_failure none = none
send_failure (some e) = some (send_failed e)

-- `SMTPEmailSender.Send`
unfoldable pub send : Sender → List Text → Text → Text → Sent
unfolding build_email_message send_failure
send sender to subject body =
    if not sender.enabled then record { message = none; failure = none } else record {
      message = some (build_email_message sender.from to subject body);
      failure =
          send_failure (sender.send_mail to (build_email_message sender.from to subject body));
    }

no_recipients : List Text → Bool
no_recipients [] = true
no_recipients (t ∷ ts) = false

send_payload : Sender → Option EmailSendPayload → Sent
unfolding send no_recipients
send_payload sender none = record { message = none; failure = some bad_payload }
send_payload sender (some p) =
    if is_empty (trim_space p.subject) || is_empty (trim_space p.body) || no_recipients p.to
    then record { message = none; failure = some incomplete }
    else send sender p.to p.subject p.body

-- `decode` is `json.Unmarshal` of the task's payload.
unfoldable pub handle_email_send : Sender → (Text → Option EmailSendPayload) → Text → Sent
unfolding send_payload
handle_email_send sender decode task =
    if not sender.enabled
    then record { message = none; failure = none }
    else send_payload sender (decode task)
