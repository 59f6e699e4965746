-- ===== src/Threats/Version/Intervals.antt =====
-- `versionInEvents` against the order in which the OSV schema reads events, the comparison of versions being
-- the code's own.
use hen_kai_pan.Prelude.{Bool, true, false, List, [], ◌∷◌, ◌++◌, ◌&&◌, ◌||◌, not, ◌≡◌, refl, arith}
use hen_kai_pan.Strings.{Text, is_empty}
use hen_kai_pan.Threats.Records.{RangeEvent}
use hen_kai_pan.Threats.Version.{reaches, Walk, walk_events, fix_at, introduce, version_in_events}

-- "introduced i, fixed f" as the two events that OSV publishes.
abbrev pub interval : Text → Text → List RangeEvent
interval i f = record { introduced = i; fixed = [] } ∷ record { introduced = []; fixed = f } ∷ []

walk_events-append :
    (v : Text) (w : Walk) (es fs : List RangeEvent)
    → walk_events v w (es ++ fs) ≡ walk_events v (walk_events v w es) fs
unfolding walk_events
walk_events-append v w [] fs = refl
walk_events-append v w (e ∷ es) fs = walk_events-append v (fix_at v e (introduce v e w)) es fs

decided : Bool → Bool → Walk
decided i f = record { affected = i && not f; bounded = true }

walk_events-interval :
    (v i f : Text) (w : Walk)
    → is_empty i ≡ false
    → is_empty f ≡ false
    → walk_events v w (interval i f) ≡ decided (reaches v i) (reaches v f)
unfolding version_in_events decided
walk_events-interval v i f w hi hf = ground arith

-- Whatever events come first, the last pair of an introduced and a fixed version alone decides.
pub version_in_events-last_interval :
    (v i f : Text) (es : List RangeEvent)
    → is_empty i ≡ false
    → is_empty f ≡ false
    → version_in_events v (es ++ interval i f) ≡ (reaches v i && not (reaches v f))
unfolding version_in_events decided
version_in_events-last_interval v i f es hi hf = rw (
  walk_events-append v _ es (interval i f),
  walk_events-interval v i f (walk_events v _ es) hi hf,
)

-- The evaluation of events by the OSV schema, with the code's comparison: an introduced version at or below `v` makes it vulnerable, a fixed
-- version at or below `v` clears it, and the other events say nothing.
osv_step : Text → Bool → RangeEvent → Bool
osv_step v vulnerable e =
    (vulnerable || (not (is_empty e.introduced) && reaches v e.introduced))
    && not (not (is_empty e.fixed) && reaches v e.fixed)

osv_from : Text → Bool → List RangeEvent → Bool
osv_from v vulnerable [] = vulnerable
osv_from v vulnerable (e ∷ es) = osv_from v (osv_step v vulnerable e) es

pub osv_vulnerable : Text → List RangeEvent → Bool
unfolding osv_from osv_step is_empty
osv_vulnerable v es = osv_from v false es

-- A version inside an earlier interval and below the introduction of a later one is vulnerable by the
-- schema, and the code clears it.
pub version_in_events-misses_earlier :
    (v i f j g : Text)
    → is_empty i ≡ false
    → is_empty f ≡ false
    → is_empty j ≡ false
    → is_empty g ≡ false
    → reaches v i ≡ true
    → reaches v f ≡ false
    → reaches v j ≡ false
    → reaches v g ≡ false
    → (osv_vulnerable v (interval i f ++ interval j g) ≡ true)
      × (version_in_events v (interval i f ++ interval j g) ≡ false)
unfolding version_in_events osv_vulnerable
version_in_events-misses_earlier v i f j g hi hf hj hg ri rf rj rg = (ground arith, ground arith)
