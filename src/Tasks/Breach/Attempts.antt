-- ===== src/Tasks/Breach/Attempts.antt =====
-- Which breaches a round marks as attempted.
use hen_kai_pan.Prelude.{Bool, false, [], ◌∷◌, ◌+◌, length, ◌≤◌, true, List, ◌≡◌, ◌<◌, ◌↔◌, arith}
use hen_kai_pan.Strings.{Text, lit}
use hen_kai_pan.Tasks.World.{Env, Event, PendingBreach, sla_breach, ◌>>=◌, pure, asks}
use hen_kai_pan.Tasks.Breach.{
  announce_each, cons_if, announce_breach, breach_context, breach_payload,
}
use hen_kai_pan.Tasks.Email.{build_sla_breach_email_body}
use hen_kai_pan.Tasks.Notify.{enqueue_webhook_event}
use hen_kai_pan.Tasks.Notify.Tally.{
  queues, one_if, Tallies-count, webhook_event-Tallies, email_event-Tallies,
}
use hen_kai_pan.Tasks.Effects.{count}

-- The number of tasks that the notification of a breach queues is at least 1 where it counts as queued.
announce_breach_grows :
    (env : Env) (recipients : List Text) (breach : PendingBreach) (tr : List Event)
    → one_if (announce_breach env recipients breach tr).0 + count queues tr
      ≤ count queues (announce_breach env recipients breach tr).1
unfolding announce_breach ◌>>=◌ pure asks
announce_breach_grows env recipients breach tr =
    let summary = env.generate_summary tr (breach_context breach) in
    let payload = breach_payload breach summary in
    let body = build_sla_breach_email_body env payload in
    let sent = enqueue_webhook_event env (lit "finding.sla_breach") (sla_breach payload) tr in
    ground (
      arith,
      Tallies-count (webhook_event-Tallies env (lit "finding.sla_breach") (sla_breach payload)) tr,
      Tallies-count (email_event-Tallies env recipients (lit "SLA breach detected") body) sent.1,
    )

length-cons_if :
    (b : Bool) (id : Text) (ids : List Text) → length (cons_if b id ids) ≡ one_if b + length ids
length-cons_if true id ids = ground arith
length-cons_if false id ids = ground arith

-- However many breaches are pending and whichever calls fail, a round marks no more of them as attempted
-- than it put tasks on the queue.
pub announce_each_bound :
    (env : Env) (recipients : List Text) (breaches : List PendingBreach) (tr : List Event)
    → length (announce_each env recipients breaches tr).0 + count queues tr
      ≤ count queues (announce_each env recipients breaches tr).1
unfolding announce_each ◌>>=◌ pure
announce_each_bound env recipients [] tr = ground arith
announce_each_bound env recipients (b ∷ bs) tr =
    let r = announce_breach env recipients b tr in
    let s = announce_each env recipients bs r.1 in
    ground (
      arith,
      announce_breach_grows env recipients b tr,
      announce_each_bound env recipients bs r.1,
      length-cons_if r.0 b.finding_id s.0,
    )

-- The notification of a breach answers that something was queued, for which the breach is marked, exactly
-- where it put something on the queue.
pub announce_breach_lem :
    (env : Env) (recipients : List Text) (breach : PendingBreach) (tr : List Event)
    → ((announce_breach env recipients breach tr).0 ≡ true)
      ↔ (count queues tr < count queues (announce_breach env recipients breach tr).1)
unfolding announce_breach ◌>>=◌ pure asks
announce_breach_lem env recipients breach tr =
    let summary = env.generate_summary tr (breach_context breach) in
    let payload = breach_payload breach summary in
    let body = build_sla_breach_email_body env payload in
    let sent = enqueue_webhook_event env (lit "finding.sla_breach") (sla_breach payload) tr in
    ground (
      arith,
      Tallies-count (webhook_event-Tallies env (lit "finding.sla_breach") (sla_breach payload)) tr,
      Tallies-count (email_event-Tallies env recipients (lit "SLA breach detected") body) sent.1,
    )
