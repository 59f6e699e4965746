-- ===== src/Tasks/Notify/Effects.antt =====
-- The notifications make no call but those that put a task on the queue.
use hen_kai_pan.Prelude.{ℕ, Bool, false, List, [], ◌∷◌, Option, none, some, ◌≡◌}
use hen_kai_pan.Strings.{Text}
use hen_kai_pan.Tasks.World.{
  Env, Event, Task, Payload, Webhook, NotificationSettings, FindingCreatedPayload, ScanRow,
  enqueued,
}
use hen_kai_pan.Tasks.Notify.{
  enqueue, send_each, send_marshalled, send_listed, enqueue_webhook_event, enqueue_email_event,
  announce_finding, announce_by_severity, notify_finding, enqueue_finding_notification,
  announce_scan, notify_scan, enqueue_scan_notification, enqueue_snippet_enrich,
}
use hen_kai_pan.Tasks.Effects.{Quiet, quiets}

module _ (env : Env) {p : Event → Bool} (q : (t : Task) → p (enqueued t) ≡ false) where
  pub enqueue-Quiet : (t : Task) → Quiet p (enqueue env t)
  unfolding enqueue
  enqueue-Quiet t = search (quiets, q)

  send_each-Quiet : (e b : Text) (ws : List Webhook) → Quiet p (send_each env e b ws)
  unfolding send_each
  send_each-Quiet e b [] = search (quiets)
  send_each-Quiet e b (w ∷ ws) = search (quiets, enqueue-Quiet, send_each-Quiet e b ws)

  send_marshalled-Quiet :
      (e : Text) (ws : List Webhook) (o : Option Text) → Quiet p (send_marshalled env e ws o)
  unfolding send_marshalled
  send_marshalled-Quiet e ws none = search (quiets)
  send_marshalled-Quiet e ws (some b) = send_each-Quiet e b ws

  send_listed-Quiet :
      (e : Text) (pl : Payload) (o : Option (List Webhook)) → Quiet p (send_listed env e pl o)
  unfolding send_listed
  send_listed-Quiet e pl none = search (quiets)
  send_listed-Quiet e pl (some ws) = search (quiets, send_marshalled-Quiet)

  pub enqueue_webhook_event-Quiet :
      (e : Text) (pl : Payload) → Quiet p (enqueue_webhook_event env e pl)
  unfolding enqueue_webhook_event
  enqueue_webhook_event-Quiet e pl = search (quiets, send_listed-Quiet)

  pub enqueue_email_event-Quiet :
      (rs : List Text) (s b : Text) → Quiet p (enqueue_email_event env rs s b)
  unfolding enqueue_email_event
  enqueue_email_event-Quiet rs s b = search (quiets, enqueue-Quiet)

  announce_finding-Quiet :
      (st : NotificationSettings) (e s : Text) (pl : FindingCreatedPayload)
      → Quiet p (announce_finding env st e s pl)
  unfolding announce_finding
  announce_finding-Quiet st e s pl =
      search (quiets, enqueue_webhook_event-Quiet, enqueue_email_event-Quiet)

  announce_by_severity-Quiet :
      (st : NotificationSettings) (pl : FindingCreatedPayload)
      → Quiet p (announce_by_severity env st pl)
  unfolding announce_by_severity
  announce_by_severity-Quiet st pl = search (quiets, announce_finding-Quiet)

  notify_finding-Quiet :
      (pl : FindingCreatedPayload) (o : Option NotificationSettings)
      → Quiet p (notify_finding env pl o)
  unfolding notify_finding
  notify_finding-Quiet pl none = search (quiets)
  notify_finding-Quiet pl (some st) = search (quiets, announce_by_severity-Quiet)

  pub enqueue_finding_notification-Quiet :
      (pl : FindingCreatedPayload) → Quiet p (enqueue_finding_notification env pl)
  unfolding enqueue_finding_notification
  enqueue_finding_notification-Quiet pl = search (quiets, notify_finding-Quiet)

  announce_scan-Quiet :
      (st : NotificationSettings) (e m : Text) (now : ℕ) (o : Option ScanRow)
      → Quiet p (announce_scan env st e m now o)
  unfolding announce_scan
  announce_scan-Quiet st e m now none = search (quiets)
  announce_scan-Quiet st e m now (some sc) =
      search (quiets, enqueue_webhook_event-Quiet, enqueue_email_event-Quiet)

  notify_scan-Quiet :
      (id e m : Text) (now : ℕ) (o : Option NotificationSettings)
      → Quiet p (notify_scan env id e m now o)
  unfolding notify_scan
  notify_scan-Quiet id e m now none = search (quiets)
  notify_scan-Quiet id e m now (some st) = search (quiets, announce_scan-Quiet)

  pub enqueue_scan_notification-Quiet :
      (id e m : Text) (now : ℕ) → Quiet p (enqueue_scan_notification env id e m now)
  unfolding enqueue_scan_notification
  enqueue_scan_notification-Quiet id e m now = search (quiets, notify_scan-Quiet)

  pub enqueue_snippet_enrich-Quiet : (id : Text) → Quiet p (enqueue_snippet_enrich env id)
  unfolding enqueue_snippet_enrich
  enqueue_snippet_enrich-Quiet id = search (quiets, enqueue-Quiet)
