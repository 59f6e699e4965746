-- ===== src/Threats/Advisory.antt =====
-- `hydrateOne` of internal/threats/osv.go, from the decoded record: how it becomes an advisory. The CVSS
-- score, the publication time and the raw bytes are left out.
use hen_kai_pan.Prelude.{List, [], ◌∷◌, none, some, if◌then◌else◌, map, ◌≡◌, refl}
use hen_kai_pan.Strings.{Text, lit, has_prefix}
use hen_kai_pan.Maps.{Map, lookup}
use hen_kai_pan.Threats.Records.{RangeEvent, AffectedRange, AffectedPackage, Advisory}

pub record OsvRange : Type 0 where
  pub kind : Text
  pub events : List (Map Text)

pub record OsvAffected : Type 0 where
  pub name : Text
  pub ecosystem : Text
  pub ranges : List OsvRange

-- The type of a severity; its score is left out.
pub record OsvVuln : Type 0 where
  pub id : Text
  pub aliases : List Text
  pub severity : List Text
  pub affected : List OsvAffected

-- m[k] of a map of strings: a missing key is the empty string.
unfoldable pub get_string : Text → Map Text → Text
unfolding lookup
get_string k m = elim (lookup k m) [ none ↦ [] | some v ↦ v ]

-- The first alias that is a CVE.
unfoldable pub first_cve : List Text → Text
first_cve [] = []
first_cve (alias ∷ aliases) =
    let rest = first_cve aliases in if has_prefix alias (lit "CVE-") then alias else rest

event_of : Map Text → RangeEvent
event_of e = record {
  introduced = get_string (lit "introduced") e;
  fixed = get_string (lit "fixed") e;
}

range_of : OsvRange → AffectedRange
range_of r = record { kind = r.kind; events = map event_of r.events }

package_of : OsvAffected → AffectedPackage
package_of a = record { ecosystem = a.ecosystem; name = a.name; ranges = map range_of a.ranges }

first_or_empty : List Text → Text
first_or_empty [] = []
first_or_empty (t ∷ ts) = t

unfoldable pub hydrate_one : OsvVuln → Advisory
unfolding first_cve first_or_empty package_of range_of event_of get_string
hydrate_one v = record {
  advisory_id = v.id;
  source = lit "osv";
  cve_id = first_cve v.aliases;
  aliases = v.aliases;
  severity = first_or_empty v.severity;
  affected_packages = map package_of v.affected;
}

-- The id of an advisory is that of its record.
pub hydrate_one_id : (v : OsvVuln) → (hydrate_one v).advisory_id ≡ v.id
unfolding hydrate_one
hydrate_one_id v = refl
