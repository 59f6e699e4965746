-- ===== src/Tasks/Scan.antt =====
-- `HandleScan` of internal/tasks/scan_run.go, from the payload that is unmarshalled. Cloning and running
-- are calls of `Env`; what is only logged is left out.
mod Effects
mod Whole
pub mod Clone
pub mod Settles
pub mod Done
pub mod Rows
use hen_kai_pan.Prelude.{
  ℕ, Bool, true, false, List, [], ◌∷◌, ◌++◌, Option, none, some, if◌then◌else◌, not, ◌&&◌,
}
use hen_kai_pan.Strings.{Text, lit, text_eq, is_empty}
use hen_kai_pan.Prelude.Int.{ℤ}
use hen_kai_pan.Tasks.World.{
  Env, Event, Act, Scanner, ScanPayload, FindingRow, FindingInsert, RunResult, Cloned, Parsed,
  VulnerabilityUpsert, FindingCreatedPayload, cloned, clone_failed, marked_running, marked_failed,
  marked_completed, removed_dir, inserted, refreshed_correlation, upserted_vulnerability,
  linked_vulnerability, recalculated_confidence, pure, asks, emit, ◌>>=◌, ◌>>◌,
}
use hen_kai_pan.Tasks.Severity.{normalize_severity, sla_deadline_for}
use hen_kai_pan.Tasks.Policy.{Subject, apply_policies}
use hen_kai_pan.Tasks.Vulnerability.{
  compute_vuln_uid, engine_type_from_category, normalize_path, normalize_version,
}
use hen_kai_pan.Tasks.Link.{link_vulnerability, nonempty_ptr, deref}
use hen_kai_pan.Tasks.Notify.{
  enqueue_finding_notification, enqueue_scan_notification, enqueue_snippet_enrich,
}

-- What a handler returns: an error makes the queue try again.
pub data Outcome : Type 0 where
  done : Outcome
  failed : Text → Outcome

unfoldable pub compute_fingerprint : Env → Text → Text → Text → ℤ → Text
compute_fingerprint env scanner rule_id file_path line_start =
    env.sha256_hex
      (scanner ++ lit ":" ++ rule_id ++ lit ":" ++ file_path ++ lit ":" ++ env.itoa line_start)

module _ (env : Env) where
  pub insert_of : ScanPayload → Scanner → FindingRow → ℕ → Bool → FindingInsert
  insert_of p sc f now suppressed = record {
    scan_id = p.scan_id;
    scanner = sc.name;
    rule_id = f.rule_id;
    title = f.title;
    description = f.description;
    severity = normalize_severity f.severity;
    file_path = f.file_path;
    line_start = f.line_start;
    line_end = f.line_end;
    code_snippet = f.code_snippet;
    raw = f.raw;
    sla_deadline = sla_deadline_for (normalize_severity f.severity) now;
    cve_id = nonempty_ptr f.cve_id;
    cwe_id = nonempty_ptr f.cwe_id;
    suppressed = suppressed;
    secret_hash = f.secret_hash;
    project_id = p.project_id;
    fingerprint = compute_fingerprint env sc.name f.rule_id f.file_path f.line_start;
    pkg_name = f.pkg_name;
    pkg_version = f.pkg_version;
  }

  created_payload : ScanPayload → Scanner → FindingRow → ℕ → Text → FindingCreatedPayload
  created_payload p sc f now finding_id = record {
    finding_id = finding_id;
    repository = p.target;
    severity = normalize_severity f.severity;
    title = f.title;
    rule_id = f.rule_id;
    file_path = f.file_path;
    line = f.line_start;
    scanner = sc.name;
    description = f.description;
    created_at = now;
    ai_summary = [];
  }

  subject_of : Scanner → FindingRow → Subject
  subject_of sc f = record {
    scanner = sc.name;
    severity = normalize_severity f.severity;
    rule_id = f.rule_id;
    file_path = f.file_path;
  }

  -- Behind the insertion: an error, or an empty id, goes on with the next row.
  pub handle_inserted : ScanPayload → Scanner → FindingRow → ℕ → Bool → Option Text → Act (Unit {0})
  unfolding link_vulnerability created_payload subject_of apply_policies
      enqueue_finding_notification
  handle_inserted p sc f now suppressed none = pure tt
  handle_inserted p sc f now suppressed (some finding_id) =
      if is_empty finding_id then pure tt else (do
        emit (refreshed_correlation finding_id)
        link_vulnerability env finding_id p.project_id sc f
        if suppressed then pure tt else apply_policies env finding_id (subject_of sc f)
        enqueue_finding_notification env (created_payload p sc f now finding_id))

  pub handle_row : ScanPayload → Scanner → ℕ → FindingRow → Act (Unit {0})
  unfolding insert_of handle_inserted
  handle_row p sc now f = do
    suppressed ← asks (λ tr. env.is_suppressed tr sc.name f.rule_id f.file_path)
    emit (inserted (insert_of p sc f now suppressed))
    finding ← asks (λ tr. env.insert_finding tr (insert_of p sc f now suppressed))
    handle_inserted p sc f now suppressed finding

  pub handle_rows : ScanPayload → Scanner → ℕ → List FindingRow → Act (Unit {0})
  unfolding handle_row
  handle_rows p sc now [] = pure tt
  handle_rows p sc now (f ∷ fs) = do handle_row p sc now f; handle_rows p sc now fs

  -- `MarkFailed`, whose own error is ignored, and the notification.
  pub fail_scan : ScanPayload → Text → Text → Text → Act Outcome
  unfolding enqueue_scan_notification
  fail_scan p message log returned = do
    emit (marked_failed p.scan_id message log)
    now ← asks env.now
    enqueue_scan_notification env p.scan_id (lit "scan.failed") message now
    pure (failed returned)

  pub finish_scan : ScanPayload → Option Text → Option Text → Act Outcome
  unfolding enqueue_scan_notification enqueue_snippet_enrich deref
  finish_scan p exit_err (some e) = pure (failed e)
  finish_scan p exit_err none = do
    now ← asks env.now
    enqueue_scan_notification env p.scan_id (lit "scan.completed") (deref exit_err) now
    enqueue_snippet_enrich env p.scan_id
    pure done

  pub complete_scan : ScanPayload → Scanner → RunResult → Act Outcome
  unfolding handle_rows finish_scan
  complete_scan p sc result = do
    now ← asks env.now
    handle_rows p sc now (sc.parse result.stdout).rows
    emit (marked_completed p.scan_id result.log result.err)
    mark_err ← asks (λ tr. env.mark_completed_err tr p.scan_id)
    finish_scan p result.err mark_err

  -- Behind the run of the scanner.
  pub handle_result : ScanPayload → Scanner → RunResult → Option Text → Act Outcome
  unfolding fail_scan complete_scan
  handle_result p sc result none = complete_scan p sc result
  handle_result p sc result (some e) =
      if is_empty result.stdout
      then fail_scan p e result.log (sc.name ++ lit " scanner execution: " ++ e)
      else complete_scan p sc result

  -- `defer os.RemoveAll(dir)` runs once the rest has returned.
  pub scan_clone : ScanPayload → Scanner → Cloned → Act Outcome
  unfolding fail_scan handle_result
  scan_clone p sc (clone_failed message log) = fail_scan p message log message
  scan_clone p sc (cloned dir) = do
    result ← asks (λ tr. env.run_scanner tr sc dir)
    outcome ← handle_result p sc result result.err
    emit (removed_dir dir)
    pure outcome

  abbrev no_result : RunResult
  no_result = record { stdout = []; log = []; err = none }

  pub scan_target : ScanPayload → Scanner → Act Outcome
  unfolding scan_clone handle_result
  scan_target p sc =
      if text_eq sc.target_type (lit "git")
      then (do clone ← asks (λ tr. env.clone_repo tr p); scan_clone p sc clone)
      else if text_eq sc.target_type (lit "url")
      then (do
        result ← asks (λ tr. env.run_scanner_url tr sc p.target)
        handle_result p sc result result.err)
      else handle_result p sc no_result none

  pub scan_marked : ScanPayload → Scanner → Option Text → Act Outcome
  unfolding scan_target
  scan_marked p sc (some e) = pure (failed (lit "update status: " ++ e))
  scan_marked p sc none = scan_target p sc

  pub scan_with : ScanPayload → Option Scanner → Act Outcome
  unfolding scan_marked
  scan_with p none = pure (failed (lit "unknown scanner: " ++ p.scanner))
  scan_with p (some sc) = do
    emit (marked_running p.scan_id)
    mark_err ← asks (λ tr. env.mark_running_err tr p.scan_id)
    scan_marked p sc mark_err

  unfoldable pub handle_scan : ScanPayload → Act Outcome
  unfolding scan_with
  handle_scan p = scan_with p (env.get_scanner p.scanner)
