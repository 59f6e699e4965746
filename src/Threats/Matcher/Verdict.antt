-- ===== src/Threats/Matcher/Verdict.antt =====
-- The verdict and the evidence of one hit.
use hen_kai_pan.Prelude.{Bool, true, false, none, some, ◌≡◌, refl, ◌&&◌, ◌||◌, if◌then◌else◌}
use hen_kai_pan.Strings.{Text, text_eq}
use hen_kai_pan.Threats.Records.{Dependency, Advisory, FindingRef}
use hen_kai_pan.Threats.Matcher.{build_hit, match_active_threat}

-- The evidence names a declaration exactly when there is one, a detection exactly when there is one,
-- and corroboration exactly when there are both; the hit is an active threat exactly when it was
-- detected and is either declared too or known exploited.
pub build_hit_verdict :
    (adv : Advisory) (name version : Text) (kev declared detected : Bool) (f : FindingRef)
    (dep : Dependency)
    → let h = build_hit adv name version kev declared detected f dep in
      ((h.evidence.declared ≡ (if declared then some dep else none))
        × (h.evidence.detected ≡ (if detected then some f else none))
        × (h.evidence.corroborated ≡ (declared && detected))
        × (text_eq h.match_status match_active_threat ≡ (detected && (declared || kev))))
unfolding build_hit text_eq
build_hit_verdict adv name version true true true f dep = (refl, refl, refl, refl)
build_hit_verdict adv name version true true false f dep = (refl, refl, refl, refl)
build_hit_verdict adv name version true false true f dep = (refl, refl, refl, refl)
build_hit_verdict adv name version true false false f dep = (refl, refl, refl, refl)
build_hit_verdict adv name version false true true f dep = (refl, refl, refl, refl)
build_hit_verdict adv name version false true false f dep = (refl, refl, refl, refl)
build_hit_verdict adv name version false false true f dep = (refl, refl, refl, refl)
build_hit_verdict adv name version false false false f dep = (refl, refl, refl, refl)
