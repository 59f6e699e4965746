-- ===== src/Threats/Kev.antt =====
-- internal/threats/kev.go: the catalog of known exploited vulnerabilities, by CVE id. The download is
-- not modelled; `index_catalog` is what `FetchKEV` does with the decoded feed.
pub mod Laws
use hen_kai_pan.Prelude.{Bool, true, false, List, [], ◌∷◌, ◌||◌, if◌then◌else◌, any, map}
use hen_kai_pan.Strings.{Text, is_empty}
use hen_kai_pan.Maps.{Map, insert, has_key}

pub record KevEntry : Type 0 where
  pub cve_id : Text
  pub vendor_project : Text
  pub product : Text
  pub vulnerability_name : Text
  pub date_added : Text
  pub short_description : Text
  pub required_action : Text
  pub due_date : Text
  pub known_ransomware_campaign_use : Text

index_from : Map KevEntry → List KevEntry → Map KevEntry
index_from out [] = out
index_from out (v ∷ vs) = index_from (if is_empty v.cve_id then out else insert v.cve_id v out) vs

unfoldable pub index_catalog : List KevEntry → Map KevEntry
unfolding index_from is_empty insert
index_catalog vulnerabilities = index_from [] vulnerabilities

absent_from : Map KevEntry → Map KevEntry → List Text
absent_from other [] = []
absent_from other ((cve, e) ∷ m) =
    let rest = absent_from other m in if has_key cve other then rest else cve ∷ rest

-- (added, removed), each in the order of the map that holds it.
unfoldable pub diff_kev : Map KevEntry → Map KevEntry → List Text × List Text
unfolding absent_from has_key
diff_kev old fresh = (absent_from old fresh, absent_from fresh old)

unfoldable pub is_kev : Text → List Text → Map KevEntry → Bool
unfolding has_key
is_kev cve_id aliases [] = false
is_kev cve_id aliases (e ∷ kev) = has_key cve_id (e ∷ kev) || any (λ a. has_key a (e ∷ kev)) aliases
