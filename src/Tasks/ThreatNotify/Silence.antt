-- ===== src/Tasks/ThreatNotify/Silence.antt =====
-- The calls of `NotifyForHits` that announce nothing.
use hen_kai_pan.Prelude.{
  Bool, true, false, List, [], ◌∷◌, Option, none, some, ◌≡◌, refl, ◌&&◌, ◌||◌, not, All, false≢true,
  sym,
}
use hen_kai_pan.Strings.{Text, text_eq}
use hen_kai_pan.Maps.{Map, lookup}
use hen_kai_pan.Threats.Matcher.{match_active_threat}
use hen_kai_pan.Repository.Hits.{ThreatHit}
use hen_kai_pan.Tasks.World.{
  Env, Event, Task, ScanPayload, pure, webhook_send, email_send, scan_run, enqueued,
}
use hen_kai_pan.Tasks.Notify.{enqueue}
use hen_kai_pan.Tasks.Effects.{count, Quiet, Quiet-count, Quiet-if, quiets}
use hen_kai_pan.Tasks.ThreatNotify.{
  AdvisoryMeta, NotifyDeps, meta_of, enqueue_rescan, rescan_target, rescan_unconfirmed, notify_each,
  notify_for_hits,
}

is_announcement : Task → Bool
is_announcement (webhook_send w e b) = true
is_announcement (email_send s b t) = true
is_announcement t = false

-- A webhook delivery or an email that is put on the queue.
unfoldable pub announces : Event → Bool
unfolding is_announcement
announces (enqueued t) = is_announcement t
announces e = false

-- What the loop asks before it announces a hit.
unfoldable pub is_announced : NotifyDeps → Map AdvisoryMeta → ThreatHit → Bool
unfolding text_eq lookup meta_of
is_announced deps advisories h =
    text_eq h.match_status match_active_threat
    && (meta_of (lookup h.advisory_id advisories)).kev
    && deps.notifications_enabled

announced_or_not :
    (active kev enabled : Bool)
    → active ≡ true
    → (not kev || not enabled) ≡ false
    → (active && kev && enabled) ≡ false
    → ⊥
announced_or_not true true true a b n = false≢true (sym n)
announced_or_not true true false a b n = false≢true (sym b)
announced_or_not true false enabled a b n = false≢true (sym b)
announced_or_not false kev enabled a b n = false≢true a

module _ (env : Env) (deps : NotifyDeps) (id : Text) where
  enqueue-scan_run : (p : ScanPayload) → Quiet announces (enqueue env (scan_run p))
  unfolding enqueue announces
  enqueue-scan_run p = search (quiets)

  enqueue_rescan-Quiet :
      (scanner target : Text) (o : Option Text)
      → Quiet announces (enqueue_rescan env deps id scanner target o)
  unfolding enqueue_rescan announces
  enqueue_rescan-Quiet scanner target none = search (quiets)
  enqueue_rescan-Quiet scanner target (some s) = search (quiets, enqueue-scan_run) depth 12

  rescan_target-Quiet :
      (scanner : Text) (o : Option Text) → Quiet announces (rescan_target env deps id scanner o)
  unfolding rescan_target
  rescan_target-Quiet scanner none = search (quiets)
  rescan_target-Quiet scanner (some t) = search (quiets, enqueue_rescan-Quiet)

  rescan_unconfirmed-Quiet :
      (scanner : Text) → Quiet announces (rescan_unconfirmed env deps id scanner)
  unfolding rescan_unconfirmed
  rescan_unconfirmed-Quiet scanner = search (quiets, rescan_target-Quiet)

  notify_each-Quiet :
      (scanner : Text) (advisories : Map AdvisoryMeta) (scheduled : Bool) (hs : List ThreatHit)
      → All (λ h. is_announced deps advisories h ≡ false) hs
      → Quiet announces (notify_each env deps id scanner advisories scheduled hs)
  unfolding notify_each is_announced
  notify_each-Quiet scanner advisories scheduled [] u = search (quiets)
  notify_each-Quiet scanner advisories scheduled (h ∷ hs) (n, ns) =
      let rest = notify_each-Quiet scanner advisories scheduled hs ns in
      let rescanned = notify_each-Quiet scanner advisories true hs ns in
      Quiet-if (text_eq h.match_status match_active_threat) _ _
        (λ a.
          Quiet-if
            (not (meta_of (lookup h.advisory_id advisories)).kev || not deps.notifications_enabled)
            _ _ (λ b. rest) (λ b. absurd (announced_or_not _ _ _ a b n)))
        (λ a. search (quiets, rest, rescanned, rescan_unconfirmed-Quiet))

  -- Where no hit is a confirmed and known exploited threat, or notifications are off, no webhook and no
  -- email is put on the queue.
  pub notify_for_hits_silent :
      (hits : List ThreatHit) (advisories : Map AdvisoryMeta) (tr : List Event)
      → All (λ h. is_announced deps advisories h ≡ false) hits
      → count announces (notify_for_hits env deps id hits advisories tr).1 ≡ count announces tr
  unfolding notify_for_hits
  notify_for_hits_silent hits advisories tr h =
      Quiet-count (notify_each-Quiet _ advisories false hits h) tr

  -- Without hits nothing is done.
  pub notify_for_hits_nil :
      (advisories : Map AdvisoryMeta) (tr : List Event)
      → notify_for_hits env deps id [] advisories tr ≡ (tt, tr)
  unfolding notify_for_hits notify_each pure
  notify_for_hits_nil advisories tr = refl
