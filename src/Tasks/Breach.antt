-- ===== src/Tasks/Breach.antt =====
-- `CheckSLABreaches` of internal/tasks/scan_run.go: one round of the SLA monitor.
pub mod Attempts
use hen_kai_pan.Prelude.{
  ℕ, Bool, true, false, List, [], ◌∷◌, Option, none, some, if◌then◌else◌, ltb, ◌||◌,
}
use hen_kai_pan.Strings.{Text, lit}
use hen_kai_pan.Tasks.World.{
  Env, Event, Act, NotificationSettings, NotificationContext, PendingBreach, SlaBreachPayload,
  sla_breach, marked_breaches, pure, asks, emit, ◌>>=◌, ◌>>◌,
}
use hen_kai_pan.Tasks.Email.{build_sla_breach_email_body}
use hen_kai_pan.Tasks.Notify.{enqueue_webhook_event, enqueue_email_event}

breach_context : PendingBreach → NotificationContext
breach_context b = record {
  severity = b.severity;
  title = b.title;
  rule_id = b.rule_id;
  scanner = b.scanner;
  description = [];
  repository = b.repository;
  file_path = b.file_path;
  line = b.line;
  event_type = lit "finding.sla_breach";
}

breach_payload : PendingBreach → Text → SlaBreachPayload
breach_payload b summary = record {
  finding_id = b.finding_id;
  scan_id = b.scan_id;
  repository = b.repository;
  severity = b.severity;
  title = b.title;
  rule_id = b.rule_id;
  file_path = b.file_path;
  line = b.line;
  scanner = b.scanner;
  sla_deadline = b.sla_deadline;
  created_at = b.created_at;
  ai_summary = summary;
}

-- `marked` with the breach, where something was queued for it.
abbrev pub cons_if : Bool → Text → List Text → List Text
cons_if true id ids = id ∷ ids
cons_if false id ids = ids

module _ (env : Env) where
  -- Whether a notification of the breach was queued: `webhookCount > 0 || emailQueued`.
  pub announce_breach : List Text → PendingBreach → Act Bool
  unfolding breach_payload breach_context enqueue_webhook_event enqueue_email_event
      build_sla_breach_email_body
  announce_breach recipients breach = do
    summary ← asks (λ tr. env.generate_summary tr (breach_context breach))
    webhook_count ←
        enqueue_webhook_event env (lit "finding.sla_breach")
          (sla_breach (breach_payload breach summary))
    email_queued ←
        enqueue_email_event env recipients (lit "SLA breach detected")
          (build_sla_breach_email_body env (breach_payload breach summary))
    pure (ltb 0 webhook_count || email_queued)

  -- The loop, with the ids that it marks.
  pub announce_each : List Text → List PendingBreach → Act (List Text)
  unfolding announce_breach
  announce_each recipients [] = pure []
  announce_each recipients (b ∷ bs) = do
    queued ← announce_breach recipients b
    marked ← announce_each recipients bs
    pure (cons_if queued b.finding_id marked)

  pub announce_pending : List Text → Option (List PendingBreach) → Act (Unit {0})
  unfolding announce_each
  announce_pending recipients none = pure tt
  announce_pending recipients (some []) = pure tt
  announce_pending recipients (some (b ∷ bs)) = do
    marked ← announce_each recipients (b ∷ bs)
    emit (marked_breaches marked)

  pub check_with : Option NotificationSettings → Act (Unit {0})
  unfolding announce_pending
  check_with none = pure tt
  check_with (some settings) =
      if settings.alert_sla_breach
      then (do
        breaches ← asks (λ tr. env.pending_breaches tr 100)
        announce_pending settings.email_recipients breaches)
      else pure tt

  unfoldable pub check_sla_breaches : Act (Unit {0})
  unfolding check_with
  check_sla_breaches = do settings ← asks env.notification_settings; check_with settings
