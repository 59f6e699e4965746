-- ===== src/Tasks/ThreatNotify.antt =====
-- What follows a sync, internal/tasks/threat_notify.go: the webhooks and emails of known exploited
-- vulnerabilities, and the scan that looks for corroboration.
pub mod Rescans
pub mod Silence
use hen_kai_pan.Prelude.{
  ℕ, Bool, true, false, List, [], ◌∷◌, ◌++◌, Option, none, some, if◌then◌else◌, ◌&&◌, ◌||◌, not,
  any,
}
use hen_kai_pan.Strings.{Text, lit, text_eq, is_empty, trim_space, to_upper, join}
use hen_kai_pan.Maps.{Map, lookup}
use hen_kai_pan.Threats.Matcher.{match_active_threat, match_unconfirmed}
use hen_kai_pan.Repository.Hits.{ThreatHit}
use hen_kai_pan.Tasks.World.{
  Env, Event, Act, Webhook, NotificationSettings, ScanPayload, ThreatKevPayload, threat_kev,
  webhook_send, scan_run, created_scan, pure, asks, emit, ◌>>=◌, ◌>>◌,
}
use hen_kai_pan.Tasks.Notify.{enqueue, enqueue_email_event, count_if}

abbrev pub threat_kev_event : Text
threat_kev_event = lit "threat.kev"

abbrev pub default_threat_rescan_scanner : Text
default_threat_rescan_scanner = lit "osv-scanner"

pub record AdvisoryMeta : Type 0 where
  pub advisory_id : Text
  pub cve_id : Text
  pub severity : Text
  pub kev : Bool
  pub advisory_url : Text

-- `AdvisoryMeta{}`
abbrev pub no_meta : AdvisoryMeta
no_meta = record { advisory_id = []; cve_id = []; severity = []; kev = false; advisory_url = [] }

-- `ThreatNotifyDeps`. The Booleans say which of its fields are not nil; `insert` answers the id of the new
-- scan, or an error.
pub record NotifyDeps : Type 0 where
  pub webhooks : Bool
  pub settings : Bool
  pub scans : Bool
  pub targets : Bool
  pub notifications_enabled : Bool
  pub rescan_scanner : Text
  pub project_target : List Event → Text → Option Text
  pub insert : List Event → Text → Text → Text → Text → Option Text

unfoldable pub threat_advisory_url : Text → Text
threat_advisory_url advisory_id = lit "https://osv.dev/vulnerability/" ++ advisory_id

pub meta_of : Option AdvisoryMeta → AdvisoryMeta
meta_of none = no_meta
meta_of (some meta) = meta

unfoldable pub threat_kev_email_subject : ThreatKevPayload → Text
threat_kev_email_subject p =
    lit "KEV threat confirmed: "
    ++ (if is_empty (trim_space p.cve_id) then p.advisory_id else p.cve_id)
    ++ lit " in "
    ++ p.pkg_name

unfoldable pub build_threat_kev_email_body : ThreatKevPayload → Text
build_threat_kev_email_body p =
    join
      (lit "HenKaiPan threat-intel notification"
        ∷ []
        ∷ (lit "Event: " ++ threat_kev_event)
        ∷ (lit "Project ID: " ++ p.project_id)
        ∷ (lit "Advisory: " ++ p.advisory_id)
        ∷ (lit "CVE: " ++ p.cve_id)
        ∷ (lit "Severity: " ++ to_upper p.severity)
        ∷ (lit "Package: " ++ trim_space (p.pkg_name ++ lit " " ++ p.pkg_version))
        ∷ (lit "Advisory: " ++ p.advisory_url)
        ∷ [])
      (lit "\n")

pub kev_payload : Text → ThreatHit → AdvisoryMeta → ThreatKevPayload
kev_payload project_id h meta = record {
  project_id = project_id;
  advisory_id = h.advisory_id;
  cve_id = meta.cve_id;
  severity = meta.severity;
  pkg_name = h.pkg_name;
  pkg_version = h.pkg_version;
  advisory_url = meta.advisory_url;
}

module _ (env : Env) where
  -- The loop over the enabled webhooks: those that list the event itself.
  pub send_subscribed : Text → Text → List Webhook → Act ℕ
  unfolding enqueue
  send_subscribed event_type bytes [] = pure 0
  send_subscribed event_type bytes (webhook ∷ webhooks) =
      let rest = send_subscribed event_type bytes webhooks in
      if any (λ event. text_eq event event_type) webhook.events
      then (do
        sent ← enqueue env (webhook_send webhook.id event_type bytes)
        n ← rest
        pure (count_if sent n))
      else rest

  pub send_to_subscribed : Text → List Webhook → Option Text → Act ℕ
  unfolding send_subscribed
  send_to_subscribed event_type webhooks none = pure 0
  send_to_subscribed event_type webhooks (some bytes) = send_subscribed event_type bytes webhooks

  pub send_to_enabled : Text → ThreatKevPayload → Option (List Webhook) → Act ℕ
  unfolding send_to_subscribed
  send_to_enabled event_type payload none = pure 0
  send_to_enabled event_type payload (some webhooks) = do
    bytes ← asks (λ tr. env.marshal_event event_type (threat_kev payload) (env.now tr))
    send_to_subscribed event_type webhooks bytes

  unfoldable pub enqueue_threat_webhook : Text → ThreatKevPayload → Act ℕ
  unfolding send_to_enabled
  enqueue_threat_webhook event_type payload = do
    webhooks ← asks env.list_enabled
    send_to_enabled event_type payload webhooks

  unfoldable pub enqueue_threat_email : List Text → Text → Text → Act Bool
  unfolding enqueue_email_event
  enqueue_threat_email recipients subject body = enqueue_email_event env recipients subject body

  pub kev_email : ThreatKevPayload → Option NotificationSettings → Act (Unit {0})
  unfolding enqueue_threat_email threat_kev_email_subject build_threat_kev_email_body
  kev_email payload none = pure tt
  kev_email payload (some settings) = do
    sent ←
        enqueue_threat_email settings.email_recipients (threat_kev_email_subject payload)
          (build_threat_kev_email_body payload)
    pure tt

  module _ (deps : NotifyDeps) (project_id : Text) where
    pub kev_webhooks : ThreatKevPayload → Act ℕ
    unfolding enqueue_threat_webhook
    kev_webhooks payload =
        if deps.webhooks then enqueue_threat_webhook threat_kev_event payload else pure 0

    pub kev_emails : ThreatKevPayload → Act (Unit {0})
    unfolding kev_email
    kev_emails payload =
        if not deps.settings
        then pure tt
        else do settings ← asks env.notification_settings; kev_email payload settings

    unfoldable pub notify_kev_hit : ThreatHit → AdvisoryMeta → Act (Unit {0})
    unfolding kev_webhooks kev_emails kev_payload
    notify_kev_hit h meta = if not deps.webhooks && not deps.settings then pure tt else do
      n ← kev_webhooks (kev_payload project_id h meta)
      kev_emails (kev_payload project_id h meta)

    -- The scan is created, and its task is put on the queue.
    pub enqueue_rescan : Text → Text → Option Text → Act (Unit {0})
    unfolding enqueue
    enqueue_rescan scanner target none = pure tt
    enqueue_rescan scanner target (some scan_id) = do
      u ← emit (created_scan target scanner (lit "threat-rescan") project_id)
      sent ← enqueue env (
          scan_run (record {
            scan_id = scan_id;
            project_id = project_id;
            target = target;
            scanner = scanner;
          }))
      pure tt

    pub rescan_target : Text → Option Text → Act (Unit {0})
    unfolding enqueue_rescan
    rescan_target scanner none = pure tt
    rescan_target scanner (some target) = if is_empty (trim_space target) then pure tt else do
      scan_id ← asks (λ tr. deps.insert tr target scanner (lit "threat-rescan") project_id)
      enqueue_rescan scanner target scan_id

    unfoldable pub rescan_unconfirmed : Text → Act (Unit {0})
    unfolding rescan_target
    rescan_unconfirmed scanner = if not deps.scans || not deps.targets then pure tt else do
      target ← asks (λ tr. deps.project_target tr project_id)
      rescan_target scanner target

    -- The loop over the hits; the Boolean is `rescanScheduled`.
    pub notify_each : Text → Map AdvisoryMeta → Bool → List ThreatHit → Act (Unit {0})
    unfolding notify_kev_hit rescan_unconfirmed meta_of
    notify_each scanner advisories scheduled [] = pure tt
    notify_each scanner advisories scheduled (h ∷ hs) =
        let meta = meta_of (lookup h.advisory_id advisories) in
        let next = notify_each scanner advisories scheduled hs in
        let next_scheduled = notify_each scanner advisories true hs in
        if text_eq h.match_status match_active_threat
        then (if not meta.kev || not deps.notifications_enabled
            then next
            else notify_kev_hit h meta >> next)
        else if text_eq h.match_status match_unconfirmed || is_empty h.match_status
        then (if scheduled then next else rescan_unconfirmed scanner >> next_scheduled)
        else next

    unfoldable pub notify_for_hits : List ThreatHit → Map AdvisoryMeta → Act (Unit {0})
    unfolding notify_each
    notify_for_hits hits advisories =
        notify_each
          (if is_empty (trim_space deps.rescan_scanner)
            then default_threat_rescan_scanner
            else deps.rescan_scanner)
          advisories false hits
