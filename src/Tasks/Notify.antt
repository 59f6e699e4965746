-- ===== src/Tasks/Notify.antt =====
-- What the handlers put on the queue: webhook deliveries, emails and the enrichment of snippets;
-- `enqueueWebhookEvent`, `enqueueEmailEvent`, `enqueueFindingNotification`, `enqueueScanNotification` and
-- `enqueueSnippetEnrich` of internal/tasks/scan_run.go.
pub mod Effects
pub mod Tally
use hen_kai_pan.Prelude.{
  ℕ, suc, Bool, true, false, List, [], ◌∷◌, Option, none, some, if◌then◌else◌, ◌&&◌, ◌||◌, not, any,
}
use hen_kai_pan.Strings.{Text, lit, text_eq}
use hen_kai_pan.Tasks.World.{
  Env, Event, Act, Task, Payload, Webhook, NotificationSettings, NotificationContext,
  FindingCreatedPayload, ScanNotificationPayload, ScanRow, webhook_send, email_send, snippet_enrich,
  enqueued, finding_created, scan_notification, pure, asks, emit, ◌>>=◌, ◌>>◌,
}
use hen_kai_pan.Tasks.Email.{build_finding_email_body, build_scan_email_body, scan_email_subject}

-- `!cfg.Enabled || len(recipients) == 0`
no_email : Bool → List Text → Bool
no_email enabled [] = true
no_email enabled (r ∷ rs) = not enabled

-- Whether a webhook that listens to `events` is sent `event_type`.
unfoldable pub contains_event : Text → List Text → Bool
contains_event event_type events =
    any
      (λ event.
        text_eq event event_type
        || (text_eq event (lit "finding.created")
            && (text_eq event_type (lit "finding.critical")
                || text_eq event_type (lit "finding.high"))))
      events

abbrev pub count_if : Bool → ℕ → ℕ
count_if true n = suc n
count_if false n = n

module _ (env : Env) where
  -- The marshalling of a task and `EnqueueContext`: whether both succeed.
  unfoldable pub enqueue : Task → Act Bool
  enqueue task = do
    accepted ← asks (λ tr. env.marshals task && env.accepts tr task)
    if accepted then emit (enqueued task) >> pure true else pure false

  -- The loop over the enabled webhooks.
  pub send_each : Text → Text → List Webhook → Act ℕ
  unfolding contains_event enqueue
  send_each event_type bytes [] = pure 0
  send_each event_type bytes (webhook ∷ webhooks) =
      let rest = send_each event_type bytes webhooks in
      if contains_event event_type webhook.events
      then (do
        sent ← enqueue (webhook_send webhook.id event_type bytes)
        n ← rest
        pure (count_if sent n))
      else rest

  pub send_marshalled : Text → List Webhook → Option Text → Act ℕ
  unfolding send_each
  send_marshalled event_type webhooks none = pure 0
  send_marshalled event_type webhooks (some bytes) = send_each event_type bytes webhooks

  pub send_listed : Text → Payload → Option (List Webhook) → Act ℕ
  unfolding send_marshalled
  send_listed event_type payload none = pure 0
  send_listed event_type payload (some webhooks) = do
    bytes ← asks (λ tr. env.marshal_event event_type payload (env.now tr))
    send_marshalled event_type webhooks bytes

  unfoldable pub enqueue_webhook_event : Text → Payload → Act ℕ
  unfolding send_listed
  enqueue_webhook_event event_type payload = do
    webhooks ← asks env.list_enabled
    send_listed event_type payload webhooks

  unfoldable pub enqueue_email_event : List Text → Text → Text → Act Bool
  unfolding enqueue no_email
  enqueue_email_event recipients subject body =
      if no_email env.email_enabled recipients
      then pure false
      else enqueue (email_send subject body recipients)

  -- The webhooks and the email of one finding.
  pub announce_finding : NotificationSettings → Text → Text → FindingCreatedPayload → Act (Unit {0})
  unfolding enqueue_webhook_event enqueue_email_event build_finding_email_body
  announce_finding settings event_type subject payload = do
    n ← enqueue_webhook_event event_type (finding_created payload)
    b ←
        enqueue_email_event settings.email_recipients subject
          (build_finding_email_body env event_type payload)
    pure tt

  context_of : FindingCreatedPayload → NotificationContext
  context_of payload = record {
    severity = payload.severity;
    title = payload.title;
    rule_id = payload.rule_id;
    scanner = payload.scanner;
    description = payload.description;
    file_path = payload.file_path;
    line = payload.line;
    repository = payload.repository;
    event_type = lit "finding.created";
  }

  pub announce_by_severity : NotificationSettings → FindingCreatedPayload → Act (Unit {0})
  unfolding announce_finding
  announce_by_severity settings payload =
      if text_eq payload.severity (lit "critical")
      then (if settings.alert_critical
          then announce_finding settings (lit "finding.critical") (lit "Critical finding detected")
              payload
          else pure tt)
      else if text_eq payload.severity (lit "high")
      then (if settings.alert_high
          then announce_finding settings (lit "finding.high") (lit "High severity finding detected")
              payload
          else pure tt)
      else pure tt

  pub notify_finding : FindingCreatedPayload → Option NotificationSettings → Act (Unit {0})
  unfolding announce_by_severity context_of
  notify_finding payload none = pure tt
  notify_finding payload (some settings) = do
    summary ← asks (λ tr. env.generate_summary tr (context_of payload))
    announce_by_severity settings (record payload { ai_summary = summary })

  unfoldable pub enqueue_finding_notification : FindingCreatedPayload → Act (Unit {0})
  unfolding notify_finding
  enqueue_finding_notification payload = do
    settings ← asks env.notification_settings
    notify_finding payload settings

  scan_payload : ScanRow → Text → ℕ → ScanNotificationPayload
  scan_payload scan error_message now = record {
    scan_id = scan.id;
    target = scan.target;
    scanner = scan.scanner;
    status = scan.status;
    finding_count = scan.finding_count;
    error = error_message;
    completed_at = now;
  }

  pub announce_scan : NotificationSettings → Text → Text → ℕ → Option ScanRow → Act (Unit {0})
  unfolding scan_payload enqueue_webhook_event enqueue_email_event build_scan_email_body
      scan_email_subject
  announce_scan settings event_type error_message now none = pure tt
  announce_scan settings event_type error_message now (some scan) = do
    n ← enqueue_webhook_event event_type (scan_notification (scan_payload scan error_message now))
    b ←
        enqueue_email_event settings.email_recipients (scan_email_subject event_type)
          (build_scan_email_body env event_type (scan_payload scan error_message now))
    pure tt

  pub notify_scan : Text → Text → Text → ℕ → Option NotificationSettings → Act (Unit {0})
  unfolding announce_scan
  notify_scan scan_id event_type error_message now none = pure tt
  notify_scan scan_id event_type error_message now (some settings) =
      if text_eq event_type (lit "scan.completed") && not settings.alert_scan_complete
      then pure tt
      else if text_eq event_type (lit "scan.failed") && not settings.alert_scan_failed
      then pure tt
      else do
        scan ← asks (λ tr. env.get_scan tr scan_id)
        announce_scan settings event_type error_message now scan

  unfoldable pub enqueue_scan_notification : Text → Text → Text → ℕ → Act (Unit {0})
  unfolding notify_scan
  enqueue_scan_notification scan_id event_type error_message now = do
    settings ← asks env.notification_settings
    notify_scan scan_id event_type error_message now settings

  unfoldable pub enqueue_snippet_enrich : Text → Act (Unit {0})
  unfolding enqueue
  enqueue_snippet_enrich scan_id = do sent ← enqueue (snippet_enrich scan_id); pure tt
