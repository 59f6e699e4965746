-- ===== src/Threats/Osv/Dedupe.antt =====
-- The two loops with a `seen` map.
use hen_kai_pan.Prelude.{false, List, [], ◌∷◌, ◌&&◌, not, map, ◌≡◌, refl, arith}
use hen_kai_pan.Strings.{Text, is_empty, text_eq_iff, text_eq_refl}
use hen_kai_pan.Maps.{mem}
use hen_kai_pan.Threats.Records.{Advisory, QueryHit}
use hen_kai_pan.Threats.Osv.{dedupe_from, dedupe, dedupe_hits_from, dedupe_query_advisories}

mem-dedupe_from :
    (k : Text) (seen ids : List Text)
    → mem k (dedupe_from seen ids) ≡ (mem k ids && not (is_empty k) && not (mem k seen))
unfolding mem dedupe_from
mem-dedupe_from k seen [] = refl
mem-dedupe_from k seen (id ∷ ids) =
    ground (arith, text_eq_iff id k, mem-dedupe_from k seen ids, mem-dedupe_from k (id ∷ seen) ids)

mem-dedupe_nil :
    (k : Text) (ids : List Text) → mem k (dedupe_from [] ids) ≡ (mem k ids && not (is_empty k))
unfolding mem
mem-dedupe_nil k ids = ground (arith, mem-dedupe_from k [] ids)

not-mem-dedupe_from :
    (id : Text) (seen ids : List Text) → mem id (dedupe_from (id ∷ seen) ids) ≡ false
unfolding mem
not-mem-dedupe_from id seen ids =
    ground (arith, mem-dedupe_from id (id ∷ seen) ids, text_eq_refl id)

-- No text stands twice.
abbrev pub IsNodup : List Text → Type 0
IsNodup [] = Unit
IsNodup (x ∷ xs) = (mem x xs ≡ false) × IsNodup xs

dedupe_from-IsNodup : (seen ids : List Text) → IsNodup (dedupe_from seen ids)
unfolding dedupe_from
dedupe_from-IsNodup seen [] = tt
dedupe_from-IsNodup seen (id ∷ ids) = ground (
  arith,
  dedupe_from-IsNodup seen ids,
  dedupe_from-IsNodup (id ∷ seen) ids,
  not-mem-dedupe_from id seen ids,
)

-- `dedupe` keeps exactly the ids that are not empty, each once.
pub dedupe_lem :
    (k : Text) (ids : List Text)
    → (mem k (dedupe ids) ≡ (mem k ids && not (is_empty k))) × IsNodup (dedupe ids)
unfolding dedupe
dedupe_lem k ids = (mem-dedupe_nil k ids, dedupe_from-IsNodup [] ids)

abbrev pub advisory_ids : List Advisory → List Text
advisory_ids as' = map (λ a. a.advisory_id) as'

abbrev pub hit_ids : List QueryHit → List Text
hit_ids hits = map (λ h. h.advisory.advisory_id) hits

dedupe_hits_from_ids :
    (seen : List Text) (hits : List QueryHit)
    → advisory_ids (dedupe_hits_from seen hits) ≡ dedupe_from seen (hit_ids hits)
unfolding dedupe_hits_from dedupe_from
dedupe_hits_from_ids seen [] = refl
dedupe_hits_from_ids seen (h ∷ hs) =
    ground
      (arith, dedupe_hits_from_ids seen hs, dedupe_hits_from_ids (h.advisory.advisory_id ∷ seen) hs)

-- The advisories that `Query` returns have distinct ids, none of them empty, and no id of a hit is lost.
pub dedupe_query_advisories_lem :
    (k : Text) (hits : List QueryHit)
    → (mem k (advisory_ids (dedupe_query_advisories hits))
        ≡ (mem k (hit_ids hits) && not (is_empty k)))
      × IsNodup (advisory_ids (dedupe_query_advisories hits))
unfolding dedupe_query_advisories
dedupe_query_advisories_lem k hits =
    rw (dedupe_hits_from_ids [] hits)
      (mem-dedupe_nil k (hit_ids hits), dedupe_from-IsNodup [] (hit_ids hits))
