-- ===== src/Tests/Deliveries.antt =====
-- A signed delivery, an email's subject and a schedule.
use hen_kai_pan.Prelude.{ℕ, ◌+◌, ◌≤◌, false, [], ◌∷◌, ◌++◌, Option, none, some, ◌≡◌, refl, arith}
use hen_kai_pan.Strings.{Text, lit, is_empty}
use hen_kai_pan.Tasks.Effects.{count}
use hen_kai_pan.Tests.Worker.{env, no_events}
use hen_kai_pan.Webhook.Signature.{
  Codec, IsCodec, sign_payload, verify_signature, verify_signature-sign_payload,
  verify_signature_sound, max_age,
}
use hen_kai_pan.Tasks.Mail.{sanitize_email_header}
use hen_kai_pan.Tasks.Mail.Headers.{breaks, sanitize_email_header_unbroken}
use hen_kai_pan.Tasks.Scheduler.{Schedule, SchedulerDeps, run_due_schedules}
use hen_kai_pan.Tasks.Scheduler.Marks.{moves, times, count-run_due_schedules}

-- A time is written as its only byte.
abbrev write : ℕ → Text
write t = t ∷ []

abbrev read : Text → Option ℕ
read [] = none
read (c ∷ s) = some c

abbrev codec : Codec
codec = record { mac = λ k m. 1 ∷ k ++ m; format = write; parse = read }

codec-IsCodec : IsCodec codec
unfolding is_empty
codec-IsCodec = record { signs = λ k m. refl; writes = λ t. refl; reads = λ t. refl }

verify_signature-sign_payload_example :
    verify_signature codec
      (sign_payload codec (lit "{}") (lit "key") 1000)
      (write 1000)
      (lit "{}")
      (lit "key")
      1200
    ≡ none
verify_signature-sign_payload_example =
    verify_signature-sign_payload codec (lit "{}") (lit "key") 1000 1200 codec-IsCodec
      (ground arith)

-- The accepted delivery, read the other way round.
verify_signature_sound_example :
    (t : ℕ) × (read (write 1000) ≡ some t)
    × (1200 ≤ t + max_age)
    × (sign_payload codec (lit "{}") (lit "key") 1000 ≡ sign_payload codec (lit "{}") (lit "key") t)
verify_signature_sound_example =
    verify_signature_sound codec (sign_payload codec (lit "{}") (lit "key") 1000) (write 1000)
      (lit "{}") (lit "key") 1200
      (verify_signature-sign_payload codec (lit "{}") (lit "key") 1000 1200 codec-IsCodec
        (ground arith))

sanitize_email_header_unbroken_example : breaks (sanitize_email_header (lit "hi\r\nBcc: x")) ≡ false
sanitize_email_header_unbroken_example = sanitize_email_header_unbroken (lit "hi\r\nBcc: x")

abbrev nightly : Schedule
nightly = record {
  id = lit "n1";
  project_id = lit "p1";
  app_id = none;
  scanner = lit "semgrep";
  scanner_type = some (lit "sast");
  cron_expr = lit "0 3 * * *";
}

abbrev deps : SchedulerDeps
deps = record {
  list_due = λ tr. some (nightly ∷ []);
  get_project = λ tr id. some (record { id = id; repo_url = some (lit "https://git/x") });
  get_app = λ tr id. none;
  insert = λ tr target scanner batch id. some (lit "s1");
  parse_cron = λ s. none;
}

count-run_due_schedules_example :
    count (moves (lit "n1")) (run_due_schedules env deps no_events).1
    ≡ times (lit "n1") (nightly ∷ []) + count (moves (lit "n1")) no_events
count-run_due_schedules_example =
    count-run_due_schedules env deps (lit "n1") (nightly ∷ []) no_events refl
