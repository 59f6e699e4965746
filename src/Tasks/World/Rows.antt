-- ===== src/Tasks/World/Rows.antt =====
-- The structs that the handlers exchange with the database, the queue and the scanners.
use hen_kai_pan.Prelude.{ℕ, Bool, List, Option}
use hen_kai_pan.Prelude.Int.{ℤ}
use hen_kai_pan.Strings.{Text}

-- `scanner.FindingRow`, internal/scanner/registry.go
pub record FindingRow : Type 0 where
  pub rule_id : Text
  pub title : Text
  pub description : Text
  pub severity : Text
  pub file_path : Text
  pub line_start : ℤ
  pub line_end : ℤ
  pub code_snippet : Text
  pub raw : Text
  pub cve_id : Text
  pub cwe_id : Text
  pub secret_hash : Text
  pub pkg_name : Text
  pub pkg_version : Text

-- The rows, and the error beside them.
pub record Parsed : Type 0 where
  pub rows : List FindingRow
  pub parse_err : Option Text

-- `scanner.Scanner`: what the handlers read of it.
pub record Scanner : Type 0 where
  pub name : Text
  pub category : Text
  pub target_type : Text
  pub parse : Text → Parsed

pub record RunResult : Type 0 where
  pub stdout : Text
  pub log : Text
  pub err : Option Text

pub data Cloned : Type 0 where
  cloned : Text → Cloned
  clone_failed : Text → Text → Cloned

-- `ScanPayload`, internal/tasks/queue_types.go
pub record ScanPayload : Type 0 where
  pub scan_id : Text
  pub project_id : Text
  pub target : Text
  pub scanner : Text

-- `repository.FindingInsert`, as `HandleScan` fills it.
pub record FindingInsert : Type 0 where
  pub scan_id : Text
  pub scanner : Text
  pub rule_id : Text
  pub title : Text
  pub description : Text
  pub severity : Text
  pub file_path : Text
  pub line_start : ℤ
  pub line_end : ℤ
  pub code_snippet : Text
  pub raw : Text
  pub sla_deadline : Option ℕ
  pub cve_id : Option Text
  pub cwe_id : Option Text
  pub suppressed : Bool
  pub secret_hash : Text
  pub project_id : Text
  pub fingerprint : Text
  pub pkg_name : Text
  pub pkg_version : Text

pub record VulnerabilityUpsert : Type 0 where
  pub vuln_uid : Text
  pub project_id : Text
  pub title : Text
  pub description : Text
  pub severity : Text
  pub engine_type : Text
  pub pkg_name : Text
  pub pkg_version : Text
  pub cve_id : Text
  pub cwe_id : Text
  pub rule_id : Text
  pub secret_hash : Text
  pub file_path : Text
  pub scanner_name : Text

-- `models.PolicyCondition`, and a policy with its actions.
pub record PolicyCondition : Type 0 where
  pub field_name : Text
  pub op : Text
  pub value : Text

pub record PolicyAction : Type 0 where
  pub kind : Text
  pub value : Text

pub record Policy : Type 0 where
  pub id : Text
  pub conditions : List PolicyCondition
  pub actions : List PolicyAction

pub record Webhook : Type 0 where
  pub id : Text
  pub events : List Text

pub record NotificationSettings : Type 0 where
  pub alert_critical : Bool
  pub alert_high : Bool
  pub alert_scan_complete : Bool
  pub alert_scan_failed : Bool
  pub alert_sla_breach : Bool
  pub email_recipients : List Text

pub record FindingCreatedPayload : Type 0 where
  pub finding_id : Text
  pub repository : Text
  pub severity : Text
  pub title : Text
  pub rule_id : Text
  pub file_path : Text
  pub line : ℤ
  pub scanner : Text
  pub description : Text
  pub created_at : ℕ
  pub ai_summary : Text

pub record ScanNotificationPayload : Type 0 where
  pub scan_id : Text
  pub target : Text
  pub scanner : Text
  pub status : Text
  pub finding_count : ℤ
  pub error : Text
  pub completed_at : ℕ

pub record SlaBreachPayload : Type 0 where
  pub finding_id : Text
  pub scan_id : Text
  pub repository : Text
  pub severity : Text
  pub title : Text
  pub rule_id : Text
  pub file_path : Text
  pub line : ℤ
  pub scanner : Text
  pub sla_deadline : ℕ
  pub created_at : ℕ
  pub ai_summary : Text

-- A row of `ListPendingSLABreaches`.
pub record PendingBreach : Type 0 where
  pub finding_id : Text
  pub scan_id : Text
  pub repository : Text
  pub severity : Text
  pub title : Text
  pub rule_id : Text
  pub file_path : Text
  pub line : ℤ
  pub scanner : Text
  pub sla_deadline : ℕ
  pub created_at : ℕ

-- `ai.NotificationContext`, internal/ai/notification.go
pub record NotificationContext : Type 0 where
  pub severity : Text
  pub title : Text
  pub rule_id : Text
  pub scanner : Text
  pub description : Text
  pub file_path : Text
  pub line : ℤ
  pub repository : Text
  pub event_type : Text

-- What `ScanRepository.Get` answers.
pub record ScanRow : Type 0 where
  pub id : Text
  pub target : Text
  pub scanner : Text
  pub status : Text
  pub finding_count : ℤ

-- `ThreatKEVNotificationPayload`, internal/tasks/threat_notify.go
pub record ThreatKevPayload : Type 0 where
  pub project_id : Text
  pub advisory_id : Text
  pub cve_id : Text
  pub severity : Text
  pub pkg_name : Text
  pub pkg_version : Text
  pub advisory_url : Text

pub data Payload : Type 0 where
  finding_created : FindingCreatedPayload → Payload
  scan_notification : ScanNotificationPayload → Payload
  sla_breach : SlaBreachPayload → Payload
  threat_kev : ThreatKevPayload → Payload
