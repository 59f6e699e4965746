-- ===== src/Tests/Matching.antt =====
-- One advisory, one dependency and one finding: the matcher, the versions, the catalog and the levels.
use hen_kai_pan.Prelude.{true, false, [], ◌∷◌, ◌++◌, ◌≡◌, refl, In, inl, ◌↔◌, some, ◌&&◌, not}
use hen_kai_pan.Strings.{
  atoi, cut, equal_fold, fields_func, is_empty, lit, text_eq, to_lower, trim_prefix, trim_space,
}
use hen_kai_pan.Maps.{Map}
use hen_kai_pan.Threats.Records.{
  Dependency, AffectedRange, AffectedPackage, Advisory, QueryHit, FindingRef,
}
use hen_kai_pan.Threats.Kev.{KevEntry, is_kev}
use hen_kai_pan.Threats.Version.{split_version, compare_versions, version_in_events, reaches}
use hen_kai_pan.Threats.Version.Order.{zeros}
use hen_kai_pan.Threats.Version.Intervals.{
  interval, osv_vulnerable, version_in_events-last_interval, version_in_events-misses_earlier,
}
use hen_kai_pan.Threats.Runtime.{promote_runtime, runtime_rank, promoted}
use hen_kai_pan.Threats.Matcher.{
  Hit, match, match_query_hits, dep_matches_advisory, finding_matches_advisory_cve, inventory_hit,
  finding_hit, build_hit, match_active_threat, dep_in_affected_ranges,
}
use hen_kai_pan.Threats.Matcher.Join.{
  match_sound, match_complete, match_complete_findings, IsJustified, kev_flag,
}
use hen_kai_pan.Threats.Matcher.Verdict.{build_hit_verdict}
use hen_kai_pan.Threats.Matcher.Ranges.{match_query_hits_iff, IsReported}
use hen_kai_pan.Threats.Ecosystem.{osv_ecosystem}

abbrev lodash : Dependency
lodash = record {
  ecosystem = lit "npm";
  name = lit "lodash";
  version = lit "4.17.20";
  source_file = lit "package.json";
}

abbrev patched : Dependency
patched = record {
  ecosystem = lit "npm";
  name = lit "lodash";
  version = lit "4.17.21";
  source_file = lit "package.json";
}

abbrev range : AffectedRange
range = record { kind = lit "SEMVER"; events = interval (lit "0") (lit "4.17.21") }

abbrev affected : AffectedPackage
affected = record { ecosystem = lit "npm"; name = lit "Lodash"; ranges = range ∷ [] }

abbrev advisory : Advisory
advisory = record {
  advisory_id = lit "GHSA-1";
  source = lit "osv";
  cve_id = lit "CVE-1";
  aliases = lit "CVE-1" ∷ [];
  severity = lit "CVSS_V3";
  affected_packages = affected ∷ [];
}

abbrev finding : FindingRef
finding = record {
  id = lit "f1";
  pkg_name = lit "lodash";
  pkg_version = lit "4.17.20";
  cve_id = lit "CVE-1";
}

abbrev exploited : KevEntry
exploited = record {
  cve_id = lit "CVE-1";
  vendor_project = [];
  product = [];
  vulnerability_name = [];
  date_added = [];
  short_description = [];
  required_action = [];
  due_date = [];
  known_ransomware_campaign_use = [];
}

abbrev catalog : Map KevEntry
catalog = (lit "CVE-1", exploited) ∷ []

abbrev no_catalog : Map KevEntry
no_catalog = []

abbrev inventory_report : Hit
inventory_report = inventory_hit advisory true (finding ∷ []) lodash

reported : In inventory_report (match (lodash ∷ []) (advisory ∷ []) catalog (finding ∷ []))
unfolding match dep_matches_advisory is_empty osv_ecosystem text_eq to_lower equal_fold is_kev
reported = inl refl

match_sound_example :
    (adv : Advisory) × In adv (advisory ∷ [])
    × IsJustified (lodash ∷ []) catalog (finding ∷ []) adv inventory_report
match_sound_example =
    match_sound (lodash ∷ []) (advisory ∷ []) catalog (finding ∷ []) inventory_report reported

matches : dep_matches_advisory lodash advisory.affected_packages ≡ true
unfolding dep_matches_advisory is_empty osv_ecosystem text_eq to_lower equal_fold
matches = refl

match_complete_example :
    In
      (inventory_hit advisory (kev_flag catalog advisory) (finding ∷ []) lodash)
      (match (lodash ∷ []) (advisory ∷ []) catalog (finding ∷ []))
match_complete_example =
    match_complete (lodash ∷ []) (advisory ∷ []) catalog (finding ∷ []) advisory lodash (inl refl)
      (inl refl) matches

named : finding_matches_advisory_cve finding advisory ≡ true
unfolding finding_matches_advisory_cve is_empty text_eq
named = refl

match_complete_findings_example :
    In
      (finding_hit advisory (kev_flag catalog advisory) finding)
      (match [] (advisory ∷ []) catalog (finding ∷ []))
match_complete_findings_example =
    match_complete_findings [] (advisory ∷ []) catalog (finding ∷ []) advisory finding (inl refl)
      (inl refl) named refl

abbrev report : Hit
report = build_hit advisory (lit "lodash") (lit "4.17.20") false true true finding lodash

build_hit_verdict_example :
    (report.evidence.declared ≡ some lodash)
    × (report.evidence.detected ≡ some finding)
    × (report.evidence.corroborated ≡ true)
    × (text_eq report.match_status match_active_threat ≡ true)
build_hit_verdict_example =
    build_hit_verdict advisory (lit "lodash") (lit "4.17.20") false true true finding lodash

abbrev patched_hit : QueryHit
patched_hit = record { dependency = patched; advisory = advisory }

abbrev open_hit : QueryHit
open_hit = record { dependency = lodash; advisory = advisory }

match_query_hits_iff_example :
    In inventory_report (match_query_hits (patched_hit ∷ open_hit ∷ []) catalog (finding ∷ []))
    ↔ IsReported catalog (finding ∷ []) inventory_report (patched_hit ∷ open_hit ∷ [])
match_query_hits_iff_example =
    match_query_hits_iff (patched_hit ∷ open_hit ∷ []) catalog (finding ∷ []) inventory_report

-- Of the two versions, the one before the fix is reported.
open_reported :
    match_query_hits (patched_hit ∷ open_hit ∷ []) catalog (finding ∷ []) ≡ inventory_report ∷ []
unfolding match_query_hits dep_in_affected_ranges equal_fold osv_ecosystem compare_versions
    fields_func cut trim_prefix trim_space atoi dep_matches_advisory is_empty text_eq to_lower
    is_kev
open_reported = refl

version_in_events-last_interval_example :
    version_in_events
      (lit "2.1")
      (interval (lit "1.0") (lit "1.5") ++ interval (lit "2.0") (lit "2.3"))
    ≡ (reaches (lit "2.1") (lit "2.0") && not (reaches (lit "2.1") (lit "2.3")))
unfolding is_empty
version_in_events-last_interval_example =
    version_in_events-last_interval (lit "2.1") (lit "2.0") (lit "2.3")
      (interval (lit "1.0") (lit "1.5")) refl refl

inside : reaches (lit "1.2") (lit "1.0") ≡ true
unfolding compare_versions fields_func cut trim_prefix trim_space atoi
inside = refl

not_fixed : reaches (lit "1.2") (lit "1.5") ≡ false
unfolding compare_versions fields_func cut trim_prefix trim_space atoi
not_fixed = refl

below : reaches (lit "1.2") (lit "2.0") ≡ false
unfolding compare_versions fields_func cut trim_prefix trim_space atoi
below = refl

below_fix : reaches (lit "1.2") (lit "2.3") ≡ false
unfolding compare_versions fields_func cut trim_prefix trim_space atoi
below_fix = refl

version_in_events-misses_earlier_example :
    (osv_vulnerable
        (lit "1.2")
        (interval (lit "1.0") (lit "1.5") ++ interval (lit "2.0") (lit "2.3"))
      ≡ true)
    × (version_in_events
          (lit "1.2")
          (interval (lit "1.0") (lit "1.5") ++ interval (lit "2.0") (lit "2.3"))
        ≡ false)
unfolding is_empty
version_in_events-misses_earlier_example =
    version_in_events-misses_earlier (lit "1.2") (lit "1.0") (lit "1.5") (lit "2.0") (lit "2.3")
      refl refl refl refl inside not_fixed below below_fix

padded : split_version (lit "1.3.0") ≡ split_version (lit "1.3") ++ zeros 1
unfolding split_version fields_func cut trim_prefix trim_space
padded = refl

climbs : promote_runtime (lit "L1") (lit "L3") ≡ promoted (lit "L3")
unfolding promote_runtime text_eq
climbs = refl

rank_3 : runtime_rank (lit "L3") ≡ some 3
unfolding runtime_rank text_eq
rank_3 = refl

rank_1 : runtime_rank (lit "L1") ≡ some 1
unfolding runtime_rank text_eq
rank_1 = refl
