-- ===== src/Threats/Matcher/Ranges.antt =====
-- Version-aware matching: which hits of a query are reported.
use hen_kai_pan.Prelude.{List, [], ◌∷◌, ◌≡◌, ◌↔◌, inl, inr, In, refl, Bool-cases}
use hen_kai_pan.Maps.{Map}
use hen_kai_pan.Threats.Records.{QueryHit, FindingRef}
use hen_kai_pan.Threats.Kev.{KevEntry, is_kev}
use hen_kai_pan.Threats.Matcher.{
  Hit, dep_matches_advisory, dep_in_affected_ranges, inventory_hit, query_hit, match_query_hits,
}
use hen_kai_pan.Threats.Matcher.Affected.{IsAffected, IsAffected-iff}

-- `h` reports the query hit `q`.
abbrev pub IsReportOf : Map KevEntry → List FindingRef → QueryHit → Hit → Type 0
IsReportOf kev findings q h =
    h
    ≡ inventory_hit q.advisory (is_kev q.advisory.cve_id q.advisory.aliases kev) findings
        q.dependency

module _ (kev : Map KevEntry) (findings : List FindingRef) (h : Hit) where
  abbrev pub IsReported : List QueryHit → Type 0
  IsReported hits =
      (q : QueryHit) × In q hits
      × IsAffected q.dependency q.advisory.affected_packages
      × IsReportOf kev findings q h

  IsReported-cons : (q : QueryHit) (hits : List QueryHit) → IsReported hits → IsReported (q ∷ hits)
  IsReported-cons q hits (x, listed, a, e) = (x, inr listed, a, e)

  IsReported-sound :
      (hits : List QueryHit) → In h (match_query_hits hits kev findings) → IsReported hits
  unfolding match_query_hits query_hit
  IsReported-sound [] m = elim m [ ]
  IsReported-sound (q ∷ hits) m =
      let rest : In h (match_query_hits hits kev findings) → IsReported (q ∷ hits) =
        λ r. IsReported-cons q hits (IsReported-sound hits r) in
      let aps = q.advisory.affected_packages in
      elim (Bool-cases (dep_matches_advisory q.dependency aps)) [
        | inr e ↦ rest (rw e at m)
        | inl e ↦ elim (Bool-cases (dep_in_affected_ranges q.dependency aps)) [
          | inr k ↦ rest (rw (e, k) at m)
          | inl k ↦ elim (rw (e, k) at m) [
            | inl b ↦ (q, inl refl, (IsAffected-iff q.dependency aps).0 (e, k), b)
            | inr r ↦ rest r
          ]
        ]
      ]

  IsReported-complete :
      (hits : List QueryHit) → IsReported hits → In h (match_query_hits hits kev findings)
  unfolding match_query_hits query_hit
  IsReported-complete [] (q, listed, a, e) = elim listed [ ]
  IsReported-complete (x ∷ hits) (q, inl p, a, e) =
      let (m, k) = (IsAffected-iff q.dependency q.advisory.affected_packages).1 a in
      rw (← p) (rw (m, k) (inl e))
  IsReported-complete (x ∷ hits) (q, inr l, a, e) =
      let rest = IsReported-complete hits (q, l, a, e) in
      let aps = x.advisory.affected_packages in
      elim (Bool-cases (dep_matches_advisory x.dependency aps)) [
        | inr n ↦ rw n rest
        | inl m ↦ elim (Bool-cases (dep_in_affected_ranges x.dependency aps)) [
          | inr n ↦ rw (m, n) rest
          | inl k ↦ rw (m, k) (inr rest)
        ]
      ]

-- `MatchQueryHits` reports exactly the query hits whose dependency is affected: an entry of the advisory is
-- about its package, and some range of such an entry holds its version, or none of them has an event. Each is
-- reported as the inventory row and the advisory that it pairs.
pub match_query_hits_iff :
    (hits : List QueryHit) (kev : Map KevEntry) (findings : List FindingRef) (h : Hit)
    → In h (match_query_hits hits kev findings) ↔ IsReported kev findings h hits
match_query_hits_iff hits kev findings h =
    (IsReported-sound kev findings h hits, IsReported-complete kev findings h hits)
