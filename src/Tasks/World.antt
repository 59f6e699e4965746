-- ===== src/Tasks/World.antt =====
-- What the handlers ask of the database, the queue and the scanners, and the trace that they leave.
-- Each answer may depend on the whole trace before it.
mod Rows
use hen_kai_pan.Prelude.{ℕ, Bool, List, [], ◌∷◌, ◌++◌, Option}
use hen_kai_pan.Prelude.Int.{ℤ}
use hen_kai_pan.Strings.{Text}
use hen_kai_pan.Threats.Records.{Dependency, Advisory}
use hen_kai_pan.Repository.Hits.{ThreatHit}
pub use Rows.{
  FindingRow, Parsed, Scanner, RunResult, Cloned, ScanPayload, FindingInsert, VulnerabilityUpsert,
  PolicyCondition, PolicyAction, Policy, Webhook, NotificationSettings, FindingCreatedPayload,
  ScanNotificationPayload, SlaBreachPayload, ThreatKevPayload, PendingBreach, NotificationContext,
  ScanRow, Payload, cloned, clone_failed, finding_created, scan_notification, sla_breach,
  threat_kev,
}

-- What is put on the queue: a webhook delivery, an email, the snippets of a scan or a scan.
pub data Task : Type 0 where
  webhook_send : Text → Text → Text → Task
  email_send : Text → Text → List Text → Task
  snippet_enrich : Text → Task
  scan_run : ScanPayload → Task

-- The calls that change something outside the worker.
pub data Event : Type 0 where
  marked_running : Text → Event
  marked_failed : Text → Text → Text → Event
  marked_completed : Text → Text → Option Text → Event
  removed_dir : Text → Event
  inserted : FindingInsert → Event
  refreshed_correlation : Text → Event
  upserted_vulnerability : VulnerabilityUpsert → Event
  linked_vulnerability : Text → Text → Event
  recalculated_confidence : Text → Event
  executed_actions : Text → List PolicyAction → Event
  enqueued : Task → Event
  marked_breaches : List Text → Event
  upserted_dependencies : Text → List Dependency → Event
  upserted_advisories : List Advisory → (Text → List Text → Bool) → Event
  reconciled : Text → List ThreatHit → Event
  created_scan : Text → Text → Text → Text → Event
  marked_run : Text → Option ℕ → Event

-- The calls that answer. `none` is an error where the answer is an `Option`.
pub record Env : Type 0 where
  pub now : List Event → ℕ
  pub sha256_hex : Text → Text
  pub itoa : ℤ → Text
  pub get_scanner : Text → Option Scanner
  pub clone_repo : List Event → ScanPayload → Cloned
  pub run_scanner : List Event → Scanner → Text → RunResult
  pub run_scanner_url : List Event → Scanner → Text → RunResult
  pub mark_running_err : List Event → Text → Option Text
  pub mark_completed_err : List Event → Text → Option Text
  pub is_suppressed : List Event → Text → Text → Text → Bool
  pub insert_finding : List Event → FindingInsert → Option Text
  pub upsert_vulnerability : List Event → VulnerabilityUpsert → Option Text
  pub list_active : List Event → Option (List Policy)
  pub notification_settings : List Event → Option NotificationSettings
  pub get_scan : List Event → Text → Option ScanRow
  pub list_enabled : List Event → Option (List Webhook)
  pub pending_breaches : List Event → ℕ → Option (List PendingBreach)
  pub generate_summary : List Event → NotificationContext → Text
  pub marshal_event : Text → Payload → ℕ → Option Text
  pub format_rfc3339 : ℕ → Text
  pub marshals : Task → Bool
  pub accepts : List Event → Task → Bool
  pub email_enabled : Bool

-- A handler's step: the trace so far to a result and the longer trace.
abbrev pub Act : Type 0 → Type 0
Act A = List Event → A × List Event

module _ {A : Type 0} where
  unfoldable pub pure : A → Act A
  pure a tr = (a, tr)

  -- A call that only reads.
  unfoldable pub asks : (List Event → A) → Act A
  asks f tr = (f tr, tr)

unfoldable pub emit : Event → Act (Unit {0})
emit e tr = (tt, tr ++ e ∷ [])

module _ {A B : Type 0} where
  infixl 10 ◌>>=◌ ◌>>◌
  unfoldable pub ◌>>=◌ : Act A → (A → Act B) → Act B
  unfolding pure asks emit
  ◌>>=◌ m f tr = let (a, tr') = m tr in f a tr'

  abbrev pub ◌>>◌ : Act A → Act B → Act B
  m >> n = m >>= λ _. n
