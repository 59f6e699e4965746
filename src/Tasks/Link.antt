-- ===== src/Tasks/Link.antt =====
-- `linkVulnerability` of internal/tasks/scan_run.go: the vulnerability of a stored finding.
use hen_kai_pan.Prelude.{[], Option, none, some, if◌then◌else◌}
use hen_kai_pan.Strings.{Text, is_empty}
use hen_kai_pan.Tasks.World.{
  Env, Act, Scanner, FindingRow, VulnerabilityUpsert, upserted_vulnerability, linked_vulnerability,
  recalculated_confidence, pure, asks, emit, ◌>>=◌, ◌>>◌,
}
use hen_kai_pan.Tasks.Severity.{normalize_severity}
use hen_kai_pan.Tasks.Vulnerability.{
  compute_vuln_uid, engine_type_from_category, normalize_path, normalize_version,
}

-- `&s`, where s is not empty
unfoldable pub nonempty_ptr : Text → Option Text
nonempty_ptr s = if is_empty s then none else some s

-- `derefStr` and `derefErr`
unfoldable pub deref : Option Text → Text
deref none = []
deref (some s) = s

module _ (env : Env) where
  unfoldable pub upsert_of : Text → Text → Scanner → FindingRow → Text → VulnerabilityUpsert
  upsert_of project_id uid sc f engine_type = record {
    vuln_uid = uid;
    project_id = project_id;
    title = f.title;
    description = f.description;
    severity = normalize_severity f.severity;
    engine_type = engine_type;
    pkg_name = f.pkg_name;
    pkg_version = normalize_version f.pkg_version;
    cve_id = deref (nonempty_ptr f.cve_id);
    cwe_id = deref (nonempty_ptr f.cwe_id);
    rule_id = f.rule_id;
    secret_hash = f.secret_hash;
    file_path = normalize_path f.file_path;
    scanner_name = sc.name;
  }

  -- Behind the upsert: a failed one ends the linking.
  unfoldable pub link_to : Text → Option Text → Act (Unit {0})
  link_to finding_id none = pure tt
  link_to finding_id (some vuln_id) = do
    emit (linked_vulnerability finding_id vuln_id)
    emit (recalculated_confidence vuln_id)

  unfoldable pub link_typed : Text → VulnerabilityUpsert → Act (Unit {0})
  unfolding link_to
  link_typed finding_id row = do
    emit (upserted_vulnerability row)
    vuln ← asks (λ tr. env.upsert_vulnerability tr row)
    link_to finding_id vuln

  unfoldable pub link_uid : Text → Text → Scanner → FindingRow → Text → Option Text → Act (Unit {0})
  unfolding link_typed upsert_of
  link_uid finding_id project_id sc f uid none = pure tt
  link_uid finding_id project_id sc f uid (some engine_type) =
      if is_empty uid
      then pure tt
      else link_typed finding_id (upsert_of project_id uid sc f engine_type)

  unfoldable pub link_vulnerability : Text → Text → Scanner → FindingRow → Act (Unit {0})
  unfolding link_uid compute_vuln_uid engine_type_from_category
  link_vulnerability finding_id project_id sc f =
      link_uid finding_id project_id sc f
        (compute_vuln_uid env.sha256_hex sc.category f.rule_id f.pkg_name f.pkg_version
          (deref (nonempty_ptr f.cve_id)) f.secret_hash f.file_path)
        (engine_type_from_category sc.category)
