-- ===== src/Tasks/Sync/Silence.antt =====
-- What the matcher's lack of findings means for the notifications of a sync.
use hen_kai_pan.Prelude.{
  Bool, true, false, List, [], ◌∷◌, Option, none, some, ◌≡◌, refl, if◌then◌else◌, All,
}
use hen_kai_pan.Strings.{Text, text_eq}
use hen_kai_pan.Maps.{Map}
use hen_kai_pan.Threats.Records.{Dependency, Advisory, QueryHit}
use hen_kai_pan.Threats.Kev.{KevEntry}
use hen_kai_pan.Threats.Matcher.{
  Hit, match_query_hits, build_hit, inventory_hit, match_finding, match_unconfirmed,
  status_declared,
}
use hen_kai_pan.Threats.Manifest.Result.{Result, ok, err}
use hen_kai_pan.Repository.Hits.{ThreatHit, PriorRow, reconcile_hits, default_text}
use hen_kai_pan.Repository.Hits.Repeats.{Agrees, inventory_of, match_of}
use hen_kai_pan.Repository.Hits.Fresh.{reconcile_hits-IsReported}
use hen_kai_pan.Tasks.World.{Env, Event}
use hen_kai_pan.Tasks.Effects.{
  count, Quiet, Quiet-count, Quiet-asks_bind, Quiet-bind, Quiet-emit, Quiet-pure, quiet, quiets,
}
use hen_kai_pan.Tasks.Fetch.{Project, Fetched, found, not_fetched}
use hen_kai_pan.Tasks.ThreatNotify.{NotifyDeps, AdvisoryMeta}
use hen_kai_pan.Tasks.ThreatNotify.Silence.{announces, is_announced, notify_for_hits_silent}
use hen_kai_pan.Tasks.Sync.{
  SyncDeps, threat_hits, threat_hit_from_match, notify_project, reconcile_project, store_advisories,
  sync_inventory, sync_fetched, sync_project, sync_each, sync_listed, sync_threat_intel,
}

-- The hit is declared, and not confirmed.
pub record IsUnconfirmed (h : ThreatHit) : Type 0 where
  pub inventory : h.inventory_status ≡ status_declared
  pub matched : h.match_status ≡ match_unconfirmed

module _ (deps : SyncDeps) (kev : Map KevEntry) where
  hit-IsUnconfirmed :
      (adv : Advisory) (known : Bool) (dep : Dependency)
      → IsUnconfirmed (threat_hit_from_match deps (inventory_hit adv known [] dep))
  unfolding inventory_hit build_hit match_finding threat_hit_from_match text_eq default_text
  hit-IsUnconfirmed adv true dep = record { inventory = refl; matched = refl }
  hit-IsUnconfirmed adv false dep = record { inventory = refl; matched = refl }

  hits_if :
      (b : Bool) (x y : List Hit)
      → All IsUnconfirmed (threat_hits deps x)
      → All IsUnconfirmed (threat_hits deps y)
      → All IsUnconfirmed (threat_hits deps (if b then x else y))
  hits_if true x y h k = h
  hits_if false x y h k = k

  hits_cons :
      (h : Hit) (hs : List Hit)
      → IsUnconfirmed (threat_hit_from_match deps h)
      → All IsUnconfirmed (threat_hits deps hs)
      → All IsUnconfirmed (threat_hits deps (h ∷ hs))
  unfolding threat_hits
  hits_cons h hs u us = (u, us)

  pub threat_hits-IsUnconfirmed :
      (hits : List QueryHit) → All IsUnconfirmed (threat_hits deps (match_query_hits hits kev []))
  unfolding threat_hits match_query_hits
  threat_hits-IsUnconfirmed [] = tt
  threat_hits-IsUnconfirmed (h ∷ hs) =
      search (hits_if, hits_cons, hit-IsUnconfirmed, threat_hits-IsUnconfirmed hs)

unconfirmed-Agrees :
    (h : ThreatHit) → IsUnconfirmed h → Agrees (λ k. (status_declared, match_unconfirmed)) h
unfolding default_text
unconfirmed-Agrees h u = record {
  same_inventory = rw u.inventory refl;
  same_match = rw u.matched refl;
}

pub All-Agrees :
    (hs : List ThreatHit)
    → All IsUnconfirmed hs
    → All (Agrees (λ k. (status_declared, match_unconfirmed))) hs
All-Agrees [] u = tt
All-Agrees (h ∷ hs) (u, us) = (unconfirmed-Agrees h u, All-Agrees hs us)

-- What is reported of unconfirmed hits is unconfirmed.
abbrev pub KeepsUnconfirmed : SyncDeps → Type 0
KeepsUnconfirmed deps =
    (tr : List Event) (id : Text) (hits fresh : List ThreatHit)
    → deps.reconcile tr id hits ≡ some fresh
    → All IsUnconfirmed hits
    → All IsUnconfirmed fresh

abbrev AreDeclared : Text → Text → Type 0
AreDeclared i m = (i ≡ status_declared) × (m ≡ match_unconfirmed)

given_statuses :
    (hs : List ThreatHit)
    → All IsUnconfirmed hs
    → All (λ h. AreDeclared (inventory_of h) (match_of h)) hs
unfolding default_text
given_statuses [] u = tt
given_statuses (h ∷ hs) (u, us) = ((rw u.inventory refl, rw u.matched refl), given_statuses hs us)

kept_statuses :
    (hs : List ThreatHit)
    → All (λ h. AreDeclared h.inventory_status h.match_status) hs
    → All IsUnconfirmed hs
kept_statuses [] u = tt
kept_statuses (h ∷ hs) ((i, m), us) = (record { inventory = i; matched = m }, kept_statuses hs us)

-- `ReconcileHits` is such a store.
pub reconcile_hits-keeps :
    (writes : Map PriorRow → ThreatHit → Bool) (loads : Bool) (rows : Map PriorRow)
    (hits fresh : List ThreatHit)
    → (reconcile_hits writes loads rows hits).fresh ≡ some fresh
    → All IsUnconfirmed hits
    → All IsUnconfirmed fresh
reconcile_hits-keeps writes loads rows hits fresh e u =
    kept_statuses fresh
      (reconcile_hits-IsReported AreDeclared writes loads rows hits fresh e (given_statuses hits u))

unannounced :
    (notify : NotifyDeps) (advisories : Map AdvisoryMeta) (hs : List ThreatHit)
    → All IsUnconfirmed hs
    → All (λ h. is_announced notify advisories h ≡ false) hs
unfolding is_announced text_eq
unannounced notify advisories [] u = tt
unannounced notify advisories (h ∷ hs) (u, us) =
    (rw u.matched refl, unannounced notify advisories hs us)

module _ (env : Env) (deps : SyncDeps) (keeps : KeepsUnconfirmed deps) where
  notify_project-Quiet :
      (id : Text) (o : Option NotifyDeps) (advisories : List Advisory) (kev : Map KevEntry)
      (fresh : Option (List ThreatHit))
      → ((hs : List ThreatHit) → fresh ≡ some hs → All IsUnconfirmed hs)
      → Quiet announces (notify_project env deps id o advisories kev fresh)
  unfolding notify_project
  notify_project-Quiet id o advisories kev none u = search (quiets)
  notify_project-Quiet id none advisories kev (some hs) u = search (quiets)
  notify_project-Quiet id (some notify) advisories kev (some hs) u =
      Quiet-bind _ _
        (quiet (λ tr.
          notify_for_hits_silent env notify id hs _ tr (unannounced notify _ hs (u hs refl))))
        (λ x. Quiet-pure none)

  reconcile_project-Quiet :
      (id : Text) (advisories : List Advisory) (kev : Map KevEntry) (hits : List QueryHit)
      → Quiet announces (reconcile_project env deps id advisories kev hits)
  unfolding reconcile_project announces
  reconcile_project-Quiet id advisories kev hits = Quiet-asks_bind _ _ (λ tr.
      Quiet-bind _ _ (Quiet-emit _ refl) (λ x.
        notify_project-Quiet id deps.notify advisories kev _
          (λ hs e. keeps tr id _ hs e (threat_hits-IsUnconfirmed deps kev hits))))

  store_advisories-Quiet :
      (id : Text) (kev : Map KevEntry) (o : Option (List QueryHit))
      → Quiet announces (store_advisories env deps id kev o)
  unfolding store_advisories announces
  store_advisories-Quiet id kev none = search (quiets)
  store_advisories-Quiet id kev (some hits) = search (quiets, reconcile_project-Quiet) depth 12

  sync_inventory-Quiet :
      (id : Text) (kev : Map KevEntry) (r : Result (List Dependency))
      → Quiet announces (sync_inventory env deps id kev r)
  unfolding sync_inventory announces
  sync_inventory-Quiet id kev (err e) = search (quiets)
  sync_inventory-Quiet id kev (ok inventory) = search (quiets, store_advisories-Quiet) depth 12

  sync_fetched-Quiet :
      (id : Text) (kev : Map KevEntry) (f : Fetched)
      → Quiet announces (sync_fetched env deps id kev f)
  unfolding sync_fetched
  sync_fetched-Quiet id kev (not_fetched e) = search (quiets)
  sync_fetched-Quiet id kev (found mf content) = search (sync_inventory-Quiet)

  sync_each-Quiet :
      (kev : Map KevEntry) (ps : List Project) → Quiet announces (sync_each env deps kev ps)
  unfolding sync_each sync_project
  sync_each-Quiet kev [] = search (quiets)
  sync_each-Quiet kev (p ∷ ps) = search (quiets, sync_fetched-Quiet, sync_each-Quiet kev ps)

  sync_listed-Quiet : (o : Option (List Project)) → Quiet announces (sync_listed env deps o)
  unfolding sync_listed
  sync_listed-Quiet none = search (quiets)
  sync_listed-Quiet (some ps) = search (quiets, sync_each-Quiet)

  sync_threat_intel-Quiet : (id : Text) → Quiet announces (sync_threat_intel env deps id)
  unfolding sync_threat_intel
  sync_threat_intel-Quiet id = search (quiets, sync_listed-Quiet)

  -- A sync puts no webhook and no email on the queue, known exploited vulnerabilities or not: it matches
  -- without findings, so that no hit is an active threat. The store is one that reports unconfirmed hits as
  -- unconfirmed.
  pub sync_threat_intel_silent :
      (id : Text) (tr : List Event)
      → count announces (sync_threat_intel env deps id tr).1 ≡ count announces tr
  sync_threat_intel_silent id tr = Quiet-count (sync_threat_intel-Quiet id) tr
