-- ===== src/Threats/Matcher.antt =====
-- internal/threats/matcher.go: inventory × advisories × KEV × findings.
pub mod Verdict
pub mod Join
pub mod Affected
pub mod Ranges
use hen_kai_pan.Prelude.{
  Bool, true, false, List, [], ◌∷◌, ◌++◌, ◌&&◌, ◌||◌, not, if◌then◌else◌, any, Option, none, some,
}
use hen_kai_pan.Strings.{Text, lit, text_eq, is_empty, to_lower, equal_fold}
use hen_kai_pan.Maps.{Map}
use hen_kai_pan.Threats.Records.{
  Dependency, no_dependency, Advisory, AffectedPackage, AffectedRange, RangeEvent, QueryHit,
  FindingRef, no_finding,
}
use hen_kai_pan.Threats.Ecosystem.{osv_ecosystem}
use hen_kai_pan.Threats.Kev.{KevEntry, is_kev}
use hen_kai_pan.Threats.Version.{version_in_events}

abbrev pub status_declared : Text
status_declared = lit "declared"

abbrev pub status_detected : Text
status_detected = lit "detected"

abbrev pub status_corroborated : Text
status_corroborated = lit "corroborated"

abbrev pub match_unconfirmed : Text
match_unconfirmed = lit "unconfirmed"

abbrev pub match_active_threat : Text
match_active_threat = lit "active_threat"

-- The evidence map: each key with its value, or without one.
pub record Evidence : Type 0 where
  pub declared : Option Dependency
  pub detected : Option FindingRef
  pub corroborated : Bool

pub record Hit : Type 0 where
  pub advisory_id : Text
  pub cve_id : Text
  pub pkg_name : Text
  pub pkg_version : Text
  pub inventory_status : Text
  pub kev : Bool
  pub match_status : Text
  pub evidence : Evidence

-- The test that three of the loops make of an affected entry.
entry_matches : Dependency → AffectedPackage → Bool
entry_matches dep ap =
    equal_fold ap.ecosystem (osv_ecosystem dep.ecosystem)
    && text_eq (to_lower ap.name) (to_lower dep.name)

unfoldable pub dep_matches_advisory : Dependency → List AffectedPackage → Bool
unfolding entry_matches
dep_matches_advisory dep affected =
    if is_empty (osv_ecosystem dep.ecosystem)
    then false
    else if is_empty (to_lower dep.name)
    then false
    else any (entry_matches dep) affected

has_events : AffectedRange → Bool
has_events r = elim r.events [ [] ↦ false | e ∷ es ↦ true ]

-- A loop that returns at the first hit is an `any`.
unfoldable pub in_some_range : Dependency → List AffectedPackage → Bool
unfolding entry_matches version_in_events
in_some_range dep affected =
    any (λ ap. entry_matches dep ap && any (λ r. version_in_events dep.version r.events) ap.ranges)
      affected

unfoldable pub some_bounds : Dependency → List AffectedPackage → Bool
unfolding entry_matches has_events
some_bounds dep affected = any (λ ap. entry_matches dep ap && any has_events ap.ranges) affected

unfoldable pub dep_in_affected_ranges : Dependency → List AffectedPackage → Bool
unfolding entry_matches has_events in_some_range some_bounds
dep_in_affected_ranges dep affected =
    if in_some_range dep affected
    then true
    else if not (any (entry_matches dep) affected)
    then false
    else not (some_bounds dep affected)

unfoldable pub finding_matches_advisory_cve : FindingRef → Advisory → Bool
finding_matches_advisory_cve f adv =
    if is_empty f.cve_id
    then false
    else if text_eq f.cve_id adv.cve_id
    then true
    else any (λ a. text_eq f.cve_id a) adv.aliases

same_package : FindingRef → Dependency → Bool
same_package f dep =
    not (is_empty f.pkg_name)
    && not (is_empty f.pkg_version)
    && text_eq (to_lower f.pkg_name) (to_lower dep.name)
    && text_eq f.pkg_version dep.version

unfoldable pub match_finding : Dependency → Advisory → List FindingRef → FindingRef × Bool
unfolding same_package
match_finding dep adv [] = (no_finding, false)
match_finding dep adv (f ∷ fs) =
    let later = match_finding dep adv fs in
    if finding_matches_advisory_cve f adv
    then (f, true)
    else if same_package f dep
    then (f, true)
    else later

inventory_status_of : Bool → Bool → Text
inventory_status_of declared detected =
    if declared && detected
    then status_corroborated
    else if detected
    then status_detected
    else status_declared

match_status_of : Bool → Text → Text
match_status_of kev_hit status =
    if text_eq status status_corroborated
    then match_active_threat
    else if kev_hit && text_eq status status_detected
    then match_active_threat
    else match_unconfirmed

unfoldable pub build_hit :
    Advisory → Text → Text → Bool → Bool → Bool → FindingRef → Dependency → Hit
unfolding inventory_status_of match_status_of text_eq
build_hit adv pkg_name pkg_version kev_hit declared detected finding dep =
    let status = inventory_status_of declared detected in
    record {
      advisory_id = adv.advisory_id;
      cve_id = adv.cve_id;
      pkg_name = pkg_name;
      pkg_version = pkg_version;
      inventory_status = status;
      kev = kev_hit;
      match_status = match_status_of kev_hit status;
      evidence = record {
        declared = if declared then some dep else none;
        detected = if detected then some finding else none;
        corroborated = text_eq status status_corroborated;
      };
    }

unfoldable pub inventory_hit : Advisory → Bool → List FindingRef → Dependency → Hit
inventory_hit adv kev_hit findings dep =
    let (finding, detected) = match_finding dep adv findings in
    build_hit adv dep.name dep.version kev_hit true detected finding dep

-- The loop over the inventory, for one advisory.
inventory_hits : Advisory → Bool → List FindingRef → List Dependency → List Hit
inventory_hits adv kev_hit findings [] = []
inventory_hits adv kev_hit findings (dep ∷ deps) =
    let rest = inventory_hits adv kev_hit findings deps in
    if dep_matches_advisory dep adv.affected_packages
    then inventory_hit adv kev_hit findings dep ∷ rest
    else rest

pub finding_hit : Advisory → Bool → FindingRef → Hit
finding_hit adv kev_hit f =
    build_hit adv f.pkg_name f.pkg_version kev_hit false true f no_dependency

-- The loop over the findings, for an advisory that no inventory row matches.
finding_hits : Advisory → Bool → List FindingRef → List Hit
finding_hits adv kev_hit [] = []
finding_hits adv kev_hit (f ∷ fs) =
    let rest = finding_hits adv kev_hit fs in
    if finding_matches_advisory_cve f adv then finding_hit adv kev_hit f ∷ rest else rest

advisory_hits : List Dependency → Map KevEntry → List FindingRef → Advisory → List Hit
advisory_hits inventory kev findings adv =
    let kev_hit = is_kev adv.cve_id adv.aliases kev in
    if any (λ dep. dep_matches_advisory dep adv.affected_packages) inventory
    then inventory_hits adv kev_hit findings inventory
    else finding_hits adv kev_hit findings

-- `Match`
unfoldable pub match : List Dependency → List Advisory → Map KevEntry → List FindingRef → List Hit
unfolding advisory_hits inventory_hits inventory_hit finding_hits finding_hit
match inventory [] kev findings = []
match inventory (adv ∷ advs) kev findings =
    advisory_hits inventory kev findings adv ++ match inventory advs kev findings

query_hit : Map KevEntry → List FindingRef → QueryHit → Hit
query_hit kev findings h =
    inventory_hit h.advisory (is_kev h.advisory.cve_id h.advisory.aliases kev) findings h.dependency

unfoldable pub match_query_hits : List QueryHit → Map KevEntry → List FindingRef → List Hit
unfolding query_hit inventory_hit
match_query_hits [] kev findings = []
match_query_hits (h ∷ hs) kev findings =
    let rest = match_query_hits hs kev findings in
    if not (dep_matches_advisory h.dependency h.advisory.affected_packages)
    then rest
    else if not (dep_in_affected_ranges h.dependency h.advisory.affected_packages)
    then rest
    else query_hit kev findings h ∷ rest
