-- ===== src/Tasks/Email.antt =====
-- The bodies and subjects of the emails, internal/tasks/scan_run.go. The decimal form of an int and the
-- RFC 3339 form of a time are parameters, fields of `Env`.
use hen_kai_pan.Prelude.{List, [], ◌∷◌, ◌++◌, if◌then◌else◌}
use hen_kai_pan.Prelude.Int.{ℤ, pos, lt_int}
use hen_kai_pan.Strings.{Text, lit, text_eq, is_empty, trim_space, to_upper, join}
use hen_kai_pan.Tasks.World.{Env, FindingCreatedPayload, ScanNotificationPayload, SlaBreachPayload}

format_located : Env → Text → ℤ → Text
format_located env path line =
    if is_empty path
    then lit "n/a"
    else if lt_int (pos 0) line
    then path ++ lit ":" ++ env.itoa line
    else path

unfoldable pub format_location : Env → Text → ℤ → Text
unfolding format_located
format_location env path line = format_located env (trim_space path) line

-- The lines of an AI summary, where there is one.
summary_lines : Text → List Text
summary_lines summary =
    if is_empty (trim_space summary) then [] else [] ∷ lit "AI Summary:" ∷ summary ∷ []

unfoldable pub build_finding_email_body : Env → Text → FindingCreatedPayload → Text
unfolding summary_lines format_location
build_finding_email_body env event_type payload =
    join
      ((lit "HenKaiPan finding notification"
          ∷ []
          ∷ (lit "Event: " ++ event_type)
          ∷ (lit "Finding ID: " ++ payload.finding_id)
          ∷ (lit "Repository: " ++ payload.repository)
          ∷ (lit "Severity: " ++ to_upper payload.severity)
          ∷ (lit "Scanner: " ++ payload.scanner)
          ∷ (lit "Rule ID: " ++ payload.rule_id)
          ∷ (lit "Location: " ++ format_location env payload.file_path payload.line)
          ∷ (lit "Title: " ++ payload.title)
          ∷ [])
        ++ summary_lines payload.ai_summary)
      (lit "\n")

unfoldable pub build_scan_email_body : Env → Text → ScanNotificationPayload → Text
build_scan_email_body env event_type payload =
    join
      ((lit "HenKaiPan scan notification"
          ∷ []
          ∷ (lit "Event: " ++ event_type)
          ∷ (lit "Scan ID: " ++ payload.scan_id)
          ∷ (lit "Target: " ++ payload.target)
          ∷ (lit "Scanner: " ++ payload.scanner)
          ∷ (lit "Status: " ++ to_upper payload.status)
          ∷ (lit "Findings: " ++ env.itoa payload.finding_count)
          ∷ [])
        ++ (if is_empty (trim_space payload.error)
            then []
            else (lit "Error: " ++ payload.error) ∷ []))
      (lit "\n")

unfoldable pub build_sla_breach_email_body : Env → SlaBreachPayload → Text
unfolding summary_lines format_location
build_sla_breach_email_body env payload =
    join
      ((lit "HenKaiPan SLA breach notification"
          ∷ []
          ∷ (lit "Finding ID: " ++ payload.finding_id)
          ∷ (lit "Scan ID: " ++ payload.scan_id)
          ∷ (lit "Repository: " ++ payload.repository)
          ∷ (lit "Severity: " ++ to_upper payload.severity)
          ∷ (lit "Scanner: " ++ payload.scanner)
          ∷ (lit "Rule ID: " ++ payload.rule_id)
          ∷ (lit "Location: " ++ format_location env payload.file_path payload.line)
          ∷ (lit "SLA deadline: " ++ env.format_rfc3339 payload.sla_deadline)
          ∷ (lit "Title: " ++ payload.title)
          ∷ [])
        ++ summary_lines payload.ai_summary)
      (lit "\n")

unfoldable pub scan_email_subject : Text → Text
scan_email_subject event_type =
    if text_eq event_type (lit "scan.failed")
    then lit "HenKaiPan scan failed"
    else lit "HenKaiPan scan completed"
