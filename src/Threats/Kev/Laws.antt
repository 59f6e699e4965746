-- ===== src/Threats/Kev/Laws.antt =====
-- Which CVE ids the indexed catalog knows, and what a difference of catalogs holds.
use hen_kai_pan.Prelude.{Bool, false, List, [], ◌∷◌, ◌||◌, ◌&&◌, not, any, ◌≡◌, sym, refl, arith}
use hen_kai_pan.Strings.{Text, is_empty, text_eq, text_eq_iff}
use hen_kai_pan.Maps.{Map, mem, lookup, insert, has_key, lookup-insert}
use hen_kai_pan.Threats.Kev.{KevEntry, index_from, index_catalog, absent_from, diff_kev, is_kev}

abbrev empty_kev : Map KevEntry
empty_kev = []

has_key-insert :
    (k j : Text) (e : KevEntry) (m : Map KevEntry)
    → has_key j (insert k e m) ≡ (text_eq k j || has_key j m)
unfolding has_key
has_key-insert k j e m = rw (has_key, lookup-insert k j e m) (ground arith)

-- A record of the feed that the catalog must know under `cve`.
abbrev pub names_cve : Text → KevEntry → Bool
names_cve cve v = not (is_empty v.cve_id) && text_eq v.cve_id cve

index_from_lem :
    (cve : Text) (out : Map KevEntry) (vs : List KevEntry)
    → has_key cve (index_from out vs) ≡ (has_key cve out || any (names_cve cve) vs)
unfolding index_from
index_from_lem cve out [] = ground arith
index_from_lem cve out (v ∷ vs) = ground (
  arith,
  has_key-insert v.cve_id cve v out,
  index_from_lem cve out vs,
  index_from_lem cve (insert v.cve_id v out) vs,
)

-- The catalog knows a CVE id exactly when a record of the feed with a nonempty id carries it.
pub has_key-index_catalog :
    (cve : Text) (vs : List KevEntry) → has_key cve (index_catalog vs) ≡ any (names_cve cve) vs
unfolding index_catalog has_key
has_key-index_catalog cve vs = index_from_lem cve [] vs

none_known : (aliases : List Text) → any (λ a. has_key a empty_kev) aliases ≡ false
unfolding has_key lookup
none_known [] = refl
none_known (a ∷ aliases) = none_known aliases

-- An advisory is known exploited exactly when the catalog knows its CVE id or one of its aliases.
is_kev_lem :
    (cve : Text) (aliases : List Text) (kev : Map KevEntry)
    → is_kev cve aliases kev ≡ any (λ a. has_key a kev) (cve ∷ aliases)
unfolding is_kev has_key
is_kev_lem cve aliases [] = sym (none_known aliases)
is_kev_lem cve aliases (e ∷ kev) = refl

mem-absent_from :
    (cve : Text) (other m : Map KevEntry)
    → mem cve (absent_from other m) ≡ (has_key cve m && not (has_key cve other))
unfolding mem absent_from has_key lookup
mem-absent_from cve other [] = refl
mem-absent_from cve other ((j, e) ∷ m) =
    ground (arith, text_eq_iff j cve, mem-absent_from cve other m)

-- `added` holds the ids of the fresh catalog that the old one lacks, and `removed` the ids of the old
-- one that the fresh one lacks: nothing else, and none is left out.
pub mem-diff_kev :
    (cve : Text) (old fresh : Map KevEntry)
    → (mem cve (diff_kev old fresh).0 ≡ (has_key cve fresh && not (has_key cve old)))
      × (mem cve (diff_kev old fresh).1 ≡ (has_key cve old && not (has_key cve fresh)))
unfolding diff_kev
mem-diff_kev cve old fresh = (mem-absent_from cve old fresh, mem-absent_from cve fresh old)
