-- ===== src/Threats/Matcher/Join.antt =====
-- Where the hits of `Match` come from, and that none is left out.
use hen_kai_pan.Prelude.{
  Bool, true, false, List, [], ◌∷◌, any, ◌≡◌, ◌⊎◌, inl, inr, In, In-append_left, In-append_right,
  In-append-cases, In-any, refl, Bool-cases,
}
use hen_kai_pan.Maps.{Map}
use hen_kai_pan.Threats.Records.{Dependency, Advisory, FindingRef}
use hen_kai_pan.Threats.Kev.{KevEntry, is_kev}
use hen_kai_pan.Threats.Matcher.{
  Hit, dep_matches_advisory, finding_matches_advisory_cve, inventory_hit, inventory_hits,
  finding_hit, finding_hits, advisory_hits, match,
}

-- `h` reports the inventory row `dep`.
pub record FromInventory (inventory : List Dependency) (adv : Advisory) (kev : Bool)
    (findings : List FindingRef) (h : Hit) : Type 0 where
  pub dep : Dependency
  pub listed : In dep inventory
  pub matched : dep_matches_advisory dep adv.affected_packages ≡ true
  pub built : h ≡ inventory_hit adv kev findings dep

-- `h` reports a finding for an advisory that no inventory row matches.
pub record FromFinding (inventory : List Dependency) (adv : Advisory) (kev : Bool)
    (findings : List FindingRef) (h : Hit) : Type 0 where
  pub finding : FindingRef
  pub listed : In finding findings
  pub matched : finding_matches_advisory_cve finding adv ≡ true
  pub unlisted : any (λ dep. dep_matches_advisory dep adv.affected_packages) inventory ≡ false
  pub built : h ≡ finding_hit adv kev finding

module _ (adv : Advisory) (kev : Bool) (findings : List FindingRef) where
  FromInventory-tail :
      (dep : Dependency) (deps : List Dependency) (h : Hit)
      → FromInventory deps adv kev findings h
      → FromInventory (dep ∷ deps) adv kev findings h
  FromInventory-tail dep deps h c = record {
    dep = c.dep;
    listed = inr c.listed;
    matched = c.matched;
    built = c.built;
  }

  inventory_hits_sound :
      (deps : List Dependency) (h : Hit)
      → In h (inventory_hits adv kev findings deps)
      → FromInventory deps adv kev findings h
  unfolding inventory_hits
  inventory_hits_sound [] h m = elim m [ ]
  inventory_hits_sound (dep ∷ deps) h m =
      elim (Bool-cases (dep_matches_advisory dep adv.affected_packages)) [
        | inl e ↦ elim (rw e at m) [
          | inl b ↦ record { dep = dep; listed = inl refl; matched = e; built = b }
          | inr r ↦ FromInventory-tail dep deps h (inventory_hits_sound deps h r)
        ]
        | inr e ↦ FromInventory-tail dep deps h (inventory_hits_sound deps h (rw e at m))
      ]

  inventory_hits_complete :
      (deps : List Dependency) (dep : Dependency)
      → In dep deps
      → dep_matches_advisory dep adv.affected_packages ≡ true
      → In (inventory_hit adv kev findings dep) (inventory_hits adv kev findings deps)
  unfolding inventory_hits
  inventory_hits_complete [] dep m h = elim m [ ]
  inventory_hits_complete (d ∷ deps) dep (inl e) h = rw (← e) (rw h (inl refl))
  inventory_hits_complete (d ∷ deps) dep (inr m) h =
      let rest = inventory_hits_complete deps dep m h in
      elim (Bool-cases (dep_matches_advisory d adv.affected_packages)) [
        | inl e ↦ rw e (inr rest)
        | inr e ↦ rw e rest
      ]

  finding_hits_sound :
      (fs : List FindingRef) (h : Hit)
      → In h (finding_hits adv kev fs)
      → (f : FindingRef) × In f fs
        × (finding_matches_advisory_cve f adv ≡ true)
        × (h ≡ finding_hit adv kev f)
  unfolding finding_hits
  finding_hits_sound [] h m = elim m [ ]
  finding_hits_sound (f ∷ fs) h m = elim (Bool-cases (finding_matches_advisory_cve f adv)) [
    | inl e ↦ elim (rw e at m) [
      | inl b ↦ (f, inl refl, e, b)
      | inr r ↦
          let (g, listed, same, built) = finding_hits_sound fs h r in (g, inr listed, same, built)
    ]
    | inr e ↦
        let (g, listed, same, built) = finding_hits_sound fs h (rw e at m) in
        (g, inr listed, same, built)
  ]

  finding_hits_complete :
      (fs : List FindingRef) (f : FindingRef)
      → In f fs
      → finding_matches_advisory_cve f adv ≡ true
      → In (finding_hit adv kev f) (finding_hits adv kev fs)
  unfolding finding_hits
  finding_hits_complete [] f m h = elim m [ ]
  finding_hits_complete (g ∷ fs) f (inl e) h = rw (← e) (rw h (inl refl))
  finding_hits_complete (g ∷ fs) f (inr m) h =
      let rest = finding_hits_complete fs f m h in
      elim (Bool-cases (finding_matches_advisory_cve g adv)) [
        | inl e ↦ rw e (inr rest)
        | inr e ↦ rw e rest
      ]

abbrev pub kev_flag : Map KevEntry → Advisory → Bool
kev_flag kev adv = is_kev adv.cve_id adv.aliases kev

abbrev pub in_inventory : List Dependency → Advisory → Bool
in_inventory inventory adv = any (λ dep. dep_matches_advisory dep adv.affected_packages) inventory

module _ (inventory : List Dependency) (kev : Map KevEntry) (findings : List FindingRef) where
  -- What a hit of `Match` stands for.
  abbrev pub IsJustified : Advisory → Hit → Type 0
  IsJustified adv h =
      FromInventory inventory adv (kev_flag kev adv) findings h
      ⊎ FromFinding inventory adv (kev_flag kev adv) findings h

  advisory_hits_sound :
      (adv : Advisory) (h : Hit)
      → In h (advisory_hits inventory kev findings adv)
      → IsJustified adv h
  unfolding advisory_hits
  advisory_hits_sound adv h m = elim (Bool-cases (in_inventory inventory adv)) [
    | inl e ↦ inl (inventory_hits_sound adv (kev_flag kev adv) findings inventory h (rw e at m))
    | inr e ↦
        let (f, listed, same, built) =
          finding_hits_sound adv (kev_flag kev adv) findings findings h (rw e at m) in
        inr (record { finding = f; listed = listed; matched = same; unlisted = e; built = built })
  ]

-- Every hit of `Match` belongs to a listed advisory and reports either a listed inventory row that the
-- advisory affects, or a listed finding that names the advisory, and the latter only where no row of
-- the inventory is affected.
pub match_sound :
    (inventory : List Dependency) (advs : List Advisory) (kev : Map KevEntry)
    (findings : List FindingRef) (h : Hit)
    → In h (match inventory advs kev findings)
    → (adv : Advisory) × In adv advs × IsJustified inventory kev findings adv h
unfolding match
match_sound inventory [] kev findings h m = elim m [ ]
match_sound inventory (adv ∷ advs) kev findings h m =
    elim (In-append-cases h (advisory_hits inventory kev findings adv) _ m) [
      | inl l ↦ (adv, inl refl, advisory_hits_sound inventory kev findings adv h l)
      | inr r ↦
          let (a, listed, why) = match_sound inventory advs kev findings h r in (a, inr listed, why)
    ]

module _ (inventory : List Dependency) (kev : Map KevEntry) (findings : List FindingRef) where
  advisory_hits_complete :
      (adv : Advisory) (dep : Dependency)
      → In dep inventory
      → dep_matches_advisory dep adv.affected_packages ≡ true
      → In
          (inventory_hit adv (kev_flag kev adv) findings dep)
          (advisory_hits inventory kev findings adv)
  unfolding advisory_hits
  advisory_hits_complete adv dep m h =
      rw (In-any (λ d. dep_matches_advisory d adv.affected_packages) dep inventory m h)
        (inventory_hits_complete adv _ findings inventory dep m h)

  advisory_hits_complete_findings :
      (adv : Advisory) (f : FindingRef)
      → In f findings
      → finding_matches_advisory_cve f adv ≡ true
      → in_inventory inventory adv ≡ false
      → In (finding_hit adv (kev_flag kev adv) f) (advisory_hits inventory kev findings adv)
  unfolding advisory_hits
  advisory_hits_complete_findings adv f m h e =
      rw e (finding_hits_complete adv _ findings findings f m h)

  In-match :
      (advs : List Advisory) (adv : Advisory) (h : Hit)
      → In adv advs
      → In h (advisory_hits inventory kev findings adv)
      → In h (match inventory advs kev findings)
  unfolding match
  In-match [] adv h l m = elim l [ ]
  In-match (a ∷ advs) adv h (inl e) m =
      In-append_left h (advisory_hits inventory kev findings a) _ (rw e at m)
  In-match (a ∷ advs) adv h (inr l) m =
      In-append_right h (advisory_hits inventory kev findings a) _ (In-match advs adv h l m)

-- Each listed inventory row that a listed advisory affects is reported.
pub match_complete :
    (inventory : List Dependency) (advs : List Advisory) (kev : Map KevEntry)
    (findings : List FindingRef) (adv : Advisory) (dep : Dependency)
    → In adv advs
    → In dep inventory
    → dep_matches_advisory dep adv.affected_packages ≡ true
    → In (inventory_hit adv (kev_flag kev adv) findings dep) (match inventory advs kev findings)
match_complete inventory advs kev findings adv dep l m h =
    In-match inventory kev findings advs adv _ l
      (advisory_hits_complete inventory kev findings adv dep m h)

-- Where an advisory affects no row of the inventory, each listed finding that names it is reported.
pub match_complete_findings :
    (inventory : List Dependency) (advs : List Advisory) (kev : Map KevEntry)
    (findings : List FindingRef) (adv : Advisory) (f : FindingRef)
    → In adv advs
    → In f findings
    → finding_matches_advisory_cve f adv ≡ true
    → in_inventory inventory adv ≡ false
    → In (finding_hit adv (kev_flag kev adv) f) (match inventory advs kev findings)
match_complete_findings inventory advs kev findings adv f l m h e =
    In-match inventory kev findings advs adv _ l
      (advisory_hits_complete_findings inventory kev findings adv f m h e)
