-- ===== src/Tasks/Scan/Rows.antt =====
-- What a scan stores of a row, and which rows the policies see.
use hen_kai_pan.Prelude.{ℕ, Bool, true, false, List, ◌≡◌, refl, ap, not}
use hen_kai_pan.Strings.{Text}
use hen_kai_pan.Tasks.World.{
  Env, Event, Scanner, ScanPayload, FindingRow, executed_actions, inserted, upserted_vulnerability,
}
use hen_kai_pan.Tasks.Effects.{count, Quiet-count, Quiet-pure}
use hen_kai_pan.Tasks.Link.{upsert_of}
use hen_kai_pan.Tasks.Scan.{handle_scan, insert_of}
use hen_kai_pan.Tasks.Scan.Effects.{actions-Quiet}
use hen_kai_pan.Tasks.Severity.{is_valid_severity, normalize_severity_lem}
use hen_kai_pan.Tasks.Scan.Whole.{handle_scan-Quiet}

-- The execution of a policy's actions.
unfoldable pub executes : Event → Bool
executes (executed_actions i a) = true
executes e = false

-- The storing of a row whose severity is not one of the five.
unfoldable pub stores_bad_severity : Event → Bool
stores_bad_severity (inserted f) = not (is_valid_severity f.severity)
stores_bad_severity (upserted_vulnerability v) = not (is_valid_severity v.severity)
stores_bad_severity e = false

upsert_of_severity :
    (env : Env) (project uid : Text) (sc : Scanner) (f : FindingRow) (ty : Text)
    → not (is_valid_severity (upsert_of env project uid sc f ty).severity) ≡ false
unfolding upsert_of
upsert_of_severity env project uid sc f ty = ap not ((normalize_severity_lem f.severity).0)

insert_of_severity :
    (env : Env) (pl : ScanPayload) (sc : Scanner) (f : FindingRow) (now : ℕ) (b : Bool)
    → not (is_valid_severity (insert_of env pl sc f now b).severity) ≡ false
unfolding insert_of
insert_of_severity env pl sc f now b = ap not ((normalize_severity_lem f.severity).0)

-- Where every finding is suppressed, no policy is carried out, whatever the policies are.
pub handle_scan_suppressed :
    (env : Env) (p : ScanPayload) (tr : List Event)
    → ((tr' : List Event) (scanner rule_id file_path : Text)
        → env.is_suppressed tr' scanner rule_id file_path ≡ true)
    → count executes (handle_scan env p tr).1 ≡ count executes tr
unfolding executes
handle_scan_suppressed env p tr h =
    Quiet-count
      (handle_scan-Quiet {env = env} {p = executes}
        (record {
          task = λ t. refl;
          refreshed = λ i. refl;
          linked = λ i v. refl;
          recalculated = λ v. refl;
          upserted = λ project uid sc f ty. refl;
          insertion = λ pl sc f now b. refl;
          actions = λ tr' sc f id s. rw (h tr' sc.name f.rule_id f.file_path) (Quiet-pure tt);
        })
        (record { running = λ i. refl; failure = λ i m l. refl; completion = λ i l e. refl })
        (λ dir. refl) p)
      tr

-- Whatever severities the scanner reports, every finding and vulnerability that a scan stores has one of
-- the five severities.
pub handle_scan_severities :
    (env : Env) (p : ScanPayload) (tr : List Event)
    → count stores_bad_severity (handle_scan env p tr).1 ≡ count stores_bad_severity tr
unfolding stores_bad_severity
handle_scan_severities env p tr =
    Quiet-count
      (handle_scan-Quiet {env = env} {p = stores_bad_severity}
        (record {
          task = λ t. refl;
          refreshed = λ i. refl;
          linked = λ i v. refl;
          recalculated = λ v. refl;
          upserted = λ project uid sc f ty. upsert_of_severity env project uid sc f ty;
          insertion = λ pl sc f now b. insert_of_severity env pl sc f now b;
          actions = actions-Quiet env {p = stores_bad_severity} (λ i as'. refl);
        })
        (record { running = λ i. refl; failure = λ i m l. refl; completion = λ i l e. refl })
        (λ dir. refl) p)
      tr
