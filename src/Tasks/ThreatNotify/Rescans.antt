-- ===== src/Tasks/ThreatNotify/Rescans.antt =====
-- The scans that a call of `NotifyForHits` creates.
use hen_kai_pan.Prelude.{
  suc, ◌≤◌, Bool, true, false, List, [], ◌∷◌, Option, none, some, ◌≡◌, refl, arith, if◌then◌else◌,
}
use hen_kai_pan.Strings.{Text}
use hen_kai_pan.Maps.{Map, lookup}
use hen_kai_pan.Repository.Hits.{ThreatHit}
use hen_kai_pan.Tasks.World.{
  Env, Event, Act, Task, Webhook, NotificationSettings, ThreatKevPayload, created_scan, enqueued,
  ◌>>=◌,
}
use hen_kai_pan.Tasks.Notify.{enqueue}
use hen_kai_pan.Tasks.Notify.Effects.{enqueue-Quiet, enqueue_email_event-Quiet}
use hen_kai_pan.Tasks.Effects.{
  count, Quiet, Quiet-count, Quiet-pure, Quiet-asks, Once, Once-count, Once-emit, Once-left, quiets,
}
use hen_kai_pan.Tasks.ThreatNotify.{
  AdvisoryMeta, NotifyDeps, send_subscribed, send_to_subscribed, send_to_enabled,
  enqueue_threat_webhook, enqueue_threat_email, kev_email, kev_webhooks, kev_emails, notify_kev_hit,
  enqueue_rescan, rescan_target, rescan_unconfirmed, notify_each, notify_for_hits, meta_of,
}

-- The creation of a scan.
unfoldable pub creates : Event → Bool
creates (created_scan t s b p) = true
creates e = false

-- At most one call that `p` selects.
pub data AtMostOnce (p : Event → Bool) {A : Type 0} : Act A → Type 0 where
  at_most : {m : Act A} → ((tr : List Event) → count p (m tr).1 ≤ suc (count p tr)) → AtMostOnce p m

pub AtMostOnce-count :
    {p : Event → Bool} {A : Type 0} {m : Act A}
    → AtMostOnce p m
    → (tr : List Event) → count p (m tr).1 ≤ suc (count p tr)
AtMostOnce-count (at_most h) tr = h tr

module _ {p : Event → Bool} {A : Type 0} where
  Quiet-AtMostOnce : (m : Act A) → Quiet p m → AtMostOnce p m
  Quiet-AtMostOnce m h = at_most (λ tr. ground (arith, Quiet-count h tr))

  Once-AtMostOnce : (m : Act A) → Once p m → AtMostOnce p m
  Once-AtMostOnce m h = at_most (λ tr. ground (arith, Once-count h tr))

  AtMostOnce-left :
      {B : Type 0} (m : Act A) (f : A → Act B)
      → AtMostOnce p m
      → ((a : A) → Quiet p (f a))
      → AtMostOnce p (m >>= f)
  unfolding ◌>>=◌
  AtMostOnce-left m f h k =
      at_most (λ tr. ground (arith, AtMostOnce-count h tr, Quiet-count (k (m tr).0) (m tr).1))

  AtMostOnce-right :
      {B : Type 0} (m : Act B) (f : B → Act A)
      → Quiet p m
      → ((b : B) → AtMostOnce p (f b))
      → AtMostOnce p (m >>= f)
  unfolding ◌>>=◌
  AtMostOnce-right m f h k =
      at_most (λ tr. ground (arith, Quiet-count h tr, AtMostOnce-count (k (m tr).0) (m tr).1))

  AtMostOnce-if :
      (b : Bool) (m n : Act A) → AtMostOnce p m → AtMostOnce p n → AtMostOnce p (if b then m else n)
  AtMostOnce-if true m n h k = h
  AtMostOnce-if false m n h k = k

module _ (env : Env) where
  enqueue-creates : (t : Task) → Quiet creates (enqueue env t)
  unfolding creates
  enqueue-creates t = enqueue-Quiet env (λ t'. refl) t

  -- What announces a vulnerability makes no call that `p` selects, where no task is one.
  module _ {p : Event → Bool} (q : (t : Task) → p (enqueued t) ≡ false) where
    send_subscribed-Quiet : (e b : Text) (ws : List Webhook) → Quiet p (send_subscribed env e b ws)
    unfolding send_subscribed
    send_subscribed-Quiet e b [] = search (quiets)
    send_subscribed-Quiet e b (w ∷ ws) =
        search (quiets, enqueue-Quiet env {p = p} q, send_subscribed-Quiet e b ws)

    send_to_subscribed-Quiet :
        (e : Text) (ws : List Webhook) (o : Option Text) → Quiet p (send_to_subscribed env e ws o)
    unfolding send_to_subscribed
    send_to_subscribed-Quiet e ws none = search (quiets)
    send_to_subscribed-Quiet e ws (some b) = send_subscribed-Quiet e b ws

    send_to_enabled-Quiet :
        (e : Text) (pl : ThreatKevPayload) (o : Option (List Webhook))
        → Quiet p (send_to_enabled env e pl o)
    unfolding send_to_enabled
    send_to_enabled-Quiet e pl none = search (quiets)
    send_to_enabled-Quiet e pl (some ws) = search (quiets, send_to_subscribed-Quiet)

    kev_email-Quiet :
        (pl : ThreatKevPayload) (o : Option NotificationSettings) → Quiet p (kev_email env pl o)
    unfolding kev_email enqueue_threat_email
    kev_email-Quiet pl none = search (quiets)
    kev_email-Quiet pl (some st) = search (quiets, enqueue_email_event-Quiet env {p = p} q)

    notify_kev_hit-Quiet :
        (deps : NotifyDeps) (id : Text) (h : ThreatHit) (meta : AdvisoryMeta)
        → Quiet p (notify_kev_hit env deps id h meta)
    unfolding notify_kev_hit kev_webhooks kev_emails enqueue_threat_webhook
    notify_kev_hit-Quiet deps id h meta =
        search (quiets, send_to_enabled-Quiet, kev_email-Quiet) depth 12

  module _ (deps : NotifyDeps) (id : Text) where
    enqueue_rescan-once :
        (scanner target : Text) (o : Option Text)
        → AtMostOnce creates (enqueue_rescan env deps id scanner target o)
    unfolding enqueue_rescan creates
    enqueue_rescan-once scanner target none = Quiet-AtMostOnce _ (search (quiets))
    enqueue_rescan-once scanner target (some s) =
        Once-AtMostOnce _ (Once-left _ _ (Once-emit _ refl) (λ u. search (quiets, enqueue-creates)))

    rescan_target-once :
        (scanner : Text) (o : Option Text)
        → AtMostOnce creates (rescan_target env deps id scanner o)
    unfolding rescan_target
    rescan_target-once scanner none = Quiet-AtMostOnce _ (search (quiets))
    rescan_target-once scanner (some t) =
        AtMostOnce-if _ _ _ (Quiet-AtMostOnce _ (Quiet-pure tt))
          (AtMostOnce-right _ _ (Quiet-asks _) (enqueue_rescan-once scanner t))

    rescan_unconfirmed-once :
        (scanner : Text) → AtMostOnce creates (rescan_unconfirmed env deps id scanner)
    unfolding rescan_unconfirmed
    rescan_unconfirmed-once scanner =
        AtMostOnce-if _ _ _ (Quiet-AtMostOnce _ (Quiet-pure tt))
          (AtMostOnce-right _ _ (Quiet-asks _) (rescan_target-once scanner))

    notify_each-Quiet :
        (scanner : Text) (advisories : Map AdvisoryMeta) (hs : List ThreatHit)
        → Quiet creates (notify_each env deps id scanner advisories true hs)
    unfolding notify_each creates
    notify_each-Quiet scanner advisories [] = search (quiets)
    notify_each-Quiet scanner advisories (h ∷ hs) =
        search
          (
            quiets,
            notify_kev_hit-Quiet {p = creates} (λ t. refl) deps id,
            notify_each-Quiet scanner advisories hs,
          )
          depth 12

    notify_each-once :
        (scanner : Text) (advisories : Map AdvisoryMeta) (hs : List ThreatHit)
        → AtMostOnce creates (notify_each env deps id scanner advisories false hs)
    unfolding notify_each creates
    notify_each-once scanner advisories [] = Quiet-AtMostOnce _ (search (quiets))
    notify_each-once scanner advisories (h ∷ hs) =
        let rest = notify_each-once scanner advisories hs in
        AtMostOnce-if _ _ _
          (AtMostOnce-if _ _ _ rest (
            AtMostOnce-right _ _
              (notify_kev_hit-Quiet {p = creates} (λ t. refl) deps id h
                (meta_of (lookup h.advisory_id advisories)))
              (λ u. rest)))
          (AtMostOnce-if _ _ _
            (AtMostOnce-left _ _ (rescan_unconfirmed-once scanner)
              (λ u. notify_each-Quiet scanner advisories hs))
            rest)

    -- One call creates at most one scan, whichever hits it is given.
    pub notify_for_hits-one_rescan :
        (hits : List ThreatHit) (advisories : Map AdvisoryMeta) (tr : List Event)
        → count creates (notify_for_hits env deps id hits advisories tr).1 ≤ suc (count creates tr)
    unfolding notify_for_hits
    notify_for_hits-one_rescan hits advisories tr =
        AtMostOnce-count (notify_each-once _ advisories hits) tr
