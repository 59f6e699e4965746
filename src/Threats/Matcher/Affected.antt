-- ===== src/Threats/Matcher/Affected.antt =====
-- What it means that a dependency is affected by the entries of an advisory.
use hen_kai_pan.Prelude.{
  Bool, true, false, List, [], ◌∷◌, ◌&&◌, any, ◌≡◌, ◌≢◌, ◌⊎◌, ◌↔◌, inl, inr, In, refl, sym, ap, ◌∙◌,
  arith, Bool-cases, any-In, In-any, false≢true,
}
use hen_kai_pan.Strings.{Text, is_empty, text_eq_iff, to_lower, equal_fold}
use hen_kai_pan.Threats.Records.{Dependency, AffectedPackage, AffectedRange, RangeEvent}
use hen_kai_pan.Threats.Ecosystem.{osv_ecosystem}
use hen_kai_pan.Threats.Version.{version_in_events}
use hen_kai_pan.Threats.Matcher.{
  entry_matches, has_events, in_some_range, some_bounds, dep_matches_advisory,
  dep_in_affected_ranges,
}

-- The entry `p` is about the package of `dep`.
abbrev pub IsEntryFor : Dependency → AffectedPackage → Type 0
IsEntryFor dep p =
    (equal_fold p.ecosystem (osv_ecosystem dep.ecosystem) ≡ true)
    × (to_lower p.name ≡ to_lower dep.name)

-- Some range of some entry for the package holds the version.
abbrev pub IsInRange : Dependency → List AffectedPackage → Type 0
IsInRange dep aps =
    (p : AffectedPackage) × In p aps
    × IsEntryFor dep p
    × ((r : AffectedRange) × In r p.ranges × (version_in_events dep.version r.events ≡ true))

-- There are entries for the package, and none of their ranges has an event.
pub record IsUnbounded (dep : Dependency) (aps : List AffectedPackage) : Type 0 where
  pub entry : (p : AffectedPackage) × In p aps × IsEntryFor dep p
  pub eventless :
      (p : AffectedPackage)
      → In p aps
      → IsEntryFor dep p
      → (r : AffectedRange) → In r p.ranges
      → r.events ≡ []

-- The dependency can be queried, and the entries for its package are about its version.
pub record IsAffected (dep : Dependency) (aps : List AffectedPackage) : Type 0 where
  pub ecosystem : osv_ecosystem dep.ecosystem ≢ []
  pub named : to_lower dep.name ≢ []
  pub covered : IsInRange dep aps ⊎ IsUnbounded dep aps

not_nil : (s : Text) → is_empty s ≡ false → s ≢ []
unfolding is_empty
not_nil s h e = false≢true (sym h ∙ ap is_empty e)

filled : (s : Text) → s ≢ [] → is_empty s ≡ false
unfolding is_empty
filled [] h = absurd (h refl)
filled (c ∷ s) h = refl

entry_matches_iff :
    (dep : Dependency) (p : AffectedPackage) → (entry_matches dep p ≡ true) ↔ IsEntryFor dep p
unfolding entry_matches
entry_matches_iff dep p = (
  (λ h. (ground arith, (text_eq_iff (to_lower p.name) (to_lower dep.name)).0 (ground arith))),
  (λ h. rw (h.0, (text_eq_iff (to_lower p.name) (to_lower dep.name)).1 h.1) refl),
)

both : (a b : Bool) → (a && b) ≡ true → (a ≡ true) × (b ≡ true)
both a b h = (ground arith, ground arith)

in_some_range_iff :
    (dep : Dependency) (aps : List AffectedPackage)
    → (in_some_range dep aps ≡ true) ↔ IsInRange dep aps
unfolding in_some_range
in_some_range_iff dep aps = (
  (λ h.
      let (p, listed, e) = any-In _ aps h in
      let (m, k) = both (entry_matches dep p) _ e in
      (p, listed, (entry_matches_iff dep p).0 m, any-In _ p.ranges k)),
  (λ x.
      let (p, listed, m, held) = x in
      let (r, inside, v) = held in
      In-any _ p aps listed (
        rw
          (
            (entry_matches_iff dep p).1 m,
            In-any (λ s. version_in_events dep.version s.events) r p.ranges inside v,
          )
          refl)),
)

nil_of : (es : List RangeEvent) → elim es [ [] ↦ false | e ∷ rest ↦ true ] ≡ false → es ≡ []
nil_of [] h = refl
nil_of (e ∷ es) h = absurd (false≢true (sym h))

no_events : (r : AffectedRange) → has_events r ≡ false → r.events ≡ []
unfolding has_events
no_events r h = nil_of r.events h

events-none : (r : AffectedRange) → r.events ≡ [] → has_events r ≡ false
unfolding has_events
events-none r e = ap (λ es. elim es [ [] ↦ false | x ∷ rest ↦ true ]) e

some_bounds_eventless :
    (dep : Dependency) (aps : List AffectedPackage)
    → some_bounds dep aps ≡ false
    → (p : AffectedPackage) → In p aps
    → IsEntryFor dep p
    → (r : AffectedRange) → In r p.ranges
    → r.events ≡ []
unfolding some_bounds
some_bounds_eventless dep aps h p listed m r inside = elim (Bool-cases (has_events r)) [
  | inr e ↦ no_events r e
  | inl e ↦ absurd (
      false≢true (
        sym h
        ∙ In-any _ p aps listed
            (rw ((entry_matches_iff dep p).1 m, In-any has_events r p.ranges inside e) refl)))
]

eventless_some_bounds :
    (dep : Dependency) (aps : List AffectedPackage)
    → ((p : AffectedPackage)
        → In p aps
        → IsEntryFor dep p
        → (r : AffectedRange) → In r p.ranges
        → r.events ≡ [])
    → some_bounds dep aps ≡ false
unfolding some_bounds
eventless_some_bounds dep aps h = elim (Bool-cases (some_bounds dep aps)) [
  | inr e ↦ e
  | inl e ↦
      let (p, listed, k) = any-In _ aps e in
      let (m, b) = both (entry_matches dep p) _ k in
      let (r, inside, v) = any-In has_events p.ranges b in
      absurd
        (false≢true (sym (events-none r (h p listed ((entry_matches_iff dep p).0 m) r inside)) ∙ v))
]

-- One of the entries is about the package, where the loop over the inventory lets the dependency through.
matched_entry :
    (dep : Dependency) (aps : List AffectedPackage)
    → any (entry_matches dep) aps ≡ true
    → (p : AffectedPackage) × In p aps × IsEntryFor dep p
matched_entry dep aps h =
    let (p, listed, m) = any-In (entry_matches dep) aps h in
    (p, listed, (entry_matches_iff dep p).0 m)

module _ (dep : Dependency) (aps : List AffectedPackage) where
  covered_iff : (dep_in_affected_ranges dep aps ≡ true) ↔ (IsInRange dep aps ⊎ IsUnbounded dep aps)
  unfolding dep_in_affected_ranges
  covered_iff = (
    (λ h. elim (Bool-cases (in_some_range dep aps)) [
      | inl e ↦ inl ((in_some_range_iff dep aps).0 e)
      | inr e ↦ inr (record {
        entry = matched_entry dep aps (ground arith);
        eventless = some_bounds_eventless dep aps (ground arith);
      })
    ]),
    (λ c. elim c [
      | inl r ↦ rw ((in_some_range_iff dep aps).1 r) refl
      | inr u ↦
          let (p, listed, m) = u.entry in
          let some_entry : any (entry_matches dep) aps ≡ true =
            In-any (entry_matches dep) p aps listed ((entry_matches_iff dep p).1 m) in
          let eventless : some_bounds dep aps ≡ false = eventless_some_bounds dep aps u.eventless in
          ground arith
    ]),
  )

  covered-entry : IsInRange dep aps ⊎ IsUnbounded dep aps → any (entry_matches dep) aps ≡ true
  covered-entry (inl (p, listed, m, held)) =
      In-any (entry_matches dep) p aps listed ((entry_matches_iff dep p).1 m)
  covered-entry (inr u) =
      let (p, listed, m) = u.entry in
      In-any (entry_matches dep) p aps listed ((entry_matches_iff dep p).1 m)

  -- The two guards of the loop of `MatchQueryHits`.
  pub IsAffected-iff :
      ((dep_matches_advisory dep aps ≡ true) × (dep_in_affected_ranges dep aps ≡ true))
      ↔ IsAffected dep aps
  unfolding dep_matches_advisory
  IsAffected-iff = (
    (λ h. record {
      ecosystem = not_nil (osv_ecosystem dep.ecosystem) (ground arith);
      named = not_nil (to_lower dep.name) (ground arith);
      covered = covered_iff.0 h.1;
    }),
    (λ a. (
      rw
          (
            filled (osv_ecosystem dep.ecosystem) a.ecosystem,
            filled (to_lower dep.name) a.named,
            covered-entry a.covered,
          )
          refl,
      covered_iff.1 a.covered,
    )),
  )
