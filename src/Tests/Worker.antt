-- ===== src/Tests/Worker.antt =====
-- A worker with one scanner, whose database and queue answer every call.
use hen_kai_pan.Prelude.{suc, true, List, [], ◌∷◌, Option, none, some, ◌≡◌, refl, if◌then◌else◌}
use hen_kai_pan.Prelude.Int.{pos}
use hen_kai_pan.Strings.{Text, lit, text_eq, is_empty}
use hen_kai_pan.Tasks.World.{
  Env, Event, FindingCreatedPayload, FindingRow, NotificationSettings, Parsed, PendingBreach,
  Policy, PolicyAction, PolicyCondition, RunResult, ScanPayload, ScanRow, Scanner, Webhook, cloned,
  ◌>>=◌,
}
use hen_kai_pan.Tasks.Policy.{Subject}
use hen_kai_pan.Tasks.Vulnerability.{uid_source}
use hen_kai_pan.Tasks.Scan.{handle_scan, done}
use hen_kai_pan.Tasks.Scan.Settles.{settles, handle_scan-settles_once}
use hen_kai_pan.Tasks.Scan.Done.{completes, handle_scan-done}
use hen_kai_pan.Tasks.Scan.Clone.{removes, handle_scan-removes_clone}
use hen_kai_pan.Tasks.Scan.Rows.{
  executes, stores_bad_severity, handle_scan_suppressed, handle_scan_severities,
}
use hen_kai_pan.Tasks.Effects.{count}

abbrev row : FindingRow
row = record {
  rule_id = lit "r1";
  title = lit "t";
  description = [];
  severity = lit "WARNING";
  file_path = lit "src/a.go";
  line_start = pos 3;
  line_end = pos 3;
  code_snippet = [];
  raw = [];
  cve_id = [];
  cwe_id = [];
  secret_hash = [];
  pkg_name = [];
  pkg_version = [];
}

abbrev output : Parsed
output = record { rows = row ∷ []; parse_err = none }

abbrev parser : Text → Parsed
parser stdout = output

abbrev semgrep : Scanner
semgrep = record {
  name = lit "semgrep";
  category = lit "sast";
  target_type = lit "git";
  parse = parser;
}

abbrev ran : RunResult
ran = record { stdout = lit "{}"; log = []; err = none }

abbrev settings : NotificationSettings
settings = record {
  alert_critical = true;
  alert_high = true;
  alert_scan_complete = true;
  alert_scan_failed = true;
  alert_sla_breach = true;
  email_recipients = lit "a@b.c" ∷ [];
}

abbrev scan_row : ScanRow
scan_row = record {
  id = lit "s1";
  target = lit "https://git/x";
  scanner = lit "semgrep";
  status = lit "done";
  finding_count = pos 1;
}

abbrev hook : Webhook
hook = record { id = lit "w1"; events = lit "finding.created" ∷ [] }

abbrev condition : PolicyCondition
condition = record { field_name = lit "severity"; op = lit "eq"; value = lit "info" }

abbrev action : PolicyAction
action = record { kind = lit "suppress"; value = [] }

abbrev policy : Policy
policy = record { id = lit "p1"; conditions = condition ∷ []; actions = action ∷ [] }

abbrev scanners : Text → Option Scanner
scanners name = if text_eq name (lit "semgrep") then some semgrep else none

abbrev pub env : Env
env = record {
  now = λ tr. 1000;
  sha256_hex = λ t. t;
  itoa = λ n. lit "3";
  get_scanner = scanners;
  clone_repo = λ tr p. cloned (lit "/tmp/aspm-scan-1");
  run_scanner = λ tr sc dir. ran;
  run_scanner_url = λ tr sc url. ran;
  mark_running_err = λ tr id. none;
  mark_completed_err = λ tr id. none;
  is_suppressed = λ tr s r f. true;
  insert_finding = λ tr f. some (lit "f1");
  upsert_vulnerability = λ tr v. some (lit "v1");
  list_active = λ tr. some (policy ∷ []);
  notification_settings = λ tr. some settings;
  get_scan = λ tr id. some scan_row;
  list_enabled = λ tr. some (hook ∷ []);
  pending_breaches = λ tr n. some [];
  generate_summary = λ tr c. [];
  marshal_event = λ ty pl n. some (lit "{}");
  format_rfc3339 = λ n. [];
  marshals = λ t. true;
  accepts = λ tr t. true;
  email_enabled = true;
}

abbrev job : ScanPayload
job = record {
  scan_id = lit "s1";
  project_id = lit "p1";
  target = lit "https://git/x";
  scanner = lit "semgrep";
}

abbrev pub no_events : List Event
no_events = []

known : env.get_scanner job.scanner ≡ some semgrep
unfolding text_eq
known = refl

handle_scan-settles_once_example :
    count (settles (lit "s1")) (handle_scan env job no_events).1
    ≡ suc (count (settles (lit "s1")) no_events)
handle_scan-settles_once_example = handle_scan-settles_once env job semgrep no_events known refl

succeeds : (handle_scan env job no_events).0 ≡ done
unfolding handle_scan text_eq ◌>>=◌
succeeds = refl

handle_scan-done_example :
    count (completes (lit "s1")) (handle_scan env job no_events).1
    ≡ suc (count (completes (lit "s1")) no_events)
handle_scan-done_example = handle_scan-done env job no_events succeeds

is_git : text_eq semgrep.target_type (lit "git") ≡ true
unfolding text_eq
is_git = refl

handle_scan-removes_clone_example :
    count (removes (lit "/tmp/aspm-scan-1")) (handle_scan env job no_events).1
    ≡ suc (count (removes (lit "/tmp/aspm-scan-1")) no_events)
handle_scan-removes_clone_example =
    handle_scan-removes_clone env job semgrep (lit "/tmp/aspm-scan-1") no_events known refl is_git
      refl

handle_scan_suppressed_example :
    count executes (handle_scan env job no_events).1 ≡ count executes no_events
handle_scan_suppressed_example = handle_scan_suppressed env job no_events (λ tr s r f. refl)

handle_scan_severities_example :
    count stores_bad_severity (handle_scan env job no_events).1
    ≡ count stores_bad_severity no_events
handle_scan_severities_example = handle_scan_severities env job no_events

abbrev subject : Subject
subject = record {
  scanner = lit "semgrep";
  severity = lit "info";
  rule_id = lit "r1";
  file_path = lit "a.go";
}

source : uid_source (lit "dast") (lit "r1") [] [] [] [] ≡ some (lit "dast:r1")
unfolding uid_source text_eq is_empty
source = refl

abbrev announcement : FindingCreatedPayload
announcement = record {
  finding_id = lit "f1";
  repository = [];
  severity = lit "high";
  title = [];
  rule_id = [];
  file_path = [];
  line = pos 1;
  scanner = [];
  description = [];
  created_at = 0;
  ai_summary = [];
}

abbrev breach : PendingBreach
breach = record {
  finding_id = lit "f1";
  scan_id = lit "s1";
  repository = [];
  severity = lit "high";
  title = [];
  rule_id = [];
  file_path = [];
  line = pos 1;
  scanner = [];
  sla_deadline = 10;
  created_at = 0;
}
