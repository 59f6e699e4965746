-- ===== src/Tasks/Notify/Tally.antt =====
-- The counts that the notifications return are the numbers of tasks that they put on the queue.
use hen_kai_pan.Prelude.{
  ℕ, ◌+◌, Bool, true, false, List, [], ◌∷◌, Option, none, some, if◌then◌else◌, ◌≡◌, refl, ◌∙◌,
  arith,
}
use hen_kai_pan.Strings.{Text}
use hen_kai_pan.Tasks.World.{
  Env, Event, Act, Task, Payload, Webhook, enqueued, pure, asks, emit, ◌>>=◌, webhook_send,
  email_send,
}
use hen_kai_pan.Tasks.Notify.{
  enqueue, send_each, send_marshalled, send_listed, enqueue_webhook_event, enqueue_email_event,
  count_if, contains_event,
}
use hen_kai_pan.Tasks.Effects.{count, Once-count, Once-emit}

-- A task that is put on the queue.
unfoldable pub queues : Event → Bool
queues (enqueued t) = true
queues e = false

-- The step's result, measured by `f`, is the number of tasks that it queued.
pub data Tallies {A : Type 0} (f : A → ℕ) : Act A → Type 0 where
  tallies :
      {m : Act A}
      → ((tr : List Event) → count queues (m tr).1 ≡ f (m tr).0 + count queues tr)
      → Tallies f m

pub Tallies-count :
    {A : Type 0} {f : A → ℕ} {m : Act A}
    → Tallies f m
    → (tr : List Event) → count queues (m tr).1 ≡ f (m tr).0 + count queues tr
Tallies-count (tallies h) tr = h tr

Tallies-pure : {A : Type 0} {f : A → ℕ} (a : A) → f a ≡ 0 → Tallies f (pure a)
unfolding pure
Tallies-pure a h = tallies (λ tr. ground (arith))

pub Tallies-asks :
    {A B : Type 0} {f : B → ℕ} (g : List Event → A) (k : A → Act B)
    → ((a : A) → Tallies f (k a))
    → Tallies f (asks g >>= k)
unfolding ◌>>=◌ asks
Tallies-asks g k h = tallies (λ tr. Tallies-count (h (g tr)) tr)

Tallies-if :
    {A : Type 0} {f : A → ℕ} (b : Bool) (m n : Act A)
    → Tallies f m
    → Tallies f n
    → Tallies f (if b then m else n)
Tallies-if true m n h k = h
Tallies-if false m n h k = k

pub Tallies-bind :
    {A B C : Type 0} {f : A → ℕ} {g : B → ℕ} {s : C → ℕ} (r : A → B → C) (m : Act A) (n : Act B)
    → ((a : A) (b : B) → s (r a b) ≡ f a + g b)
    → Tallies f m
    → Tallies g n
    → Tallies s (m >>= λ a. n >>= λ b. pure (r a b))
unfolding ◌>>=◌ pure
Tallies-bind {f} {g} {s} r m n e h k =
    tallies (λ tr.
      ground (arith, Tallies-count h tr, Tallies-count k (m tr).1, e (m tr).0 (n (m tr).1).0))

abbrev pub one_if : Bool → ℕ
one_if b = count_if b 0

count_if_sum : (b : Bool) (n : ℕ) → count_if b n ≡ one_if b + n
count_if_sum true n = ground arith
count_if_sum false n = ground arith

queued_one : (t : Task) → Tallies one_if (emit (enqueued t) >>= λ _. pure true)
unfolding ◌>>=◌ pure queues
queued_one t =
    tallies (λ tr. Once-count (Once-emit {p = queues} (enqueued t) refl) tr ∙ ground arith)

module _ (env : Env) where
  enqueue-Tallies : (t : Task) → Tallies one_if (enqueue env t)
  unfolding enqueue
  enqueue-Tallies t = search (Tallies-asks, Tallies-if, Tallies-pure, queued_one)

  send_each-Tallies : (e b : Text) (ws : List Webhook) → Tallies (λ n. n) (send_each env e b ws)
  unfolding send_each
  send_each-Tallies e b [] = Tallies-pure 0 refl
  send_each-Tallies e b (w ∷ ws) =
      Tallies-if (contains_event e w.events) _ _
        (Tallies-bind count_if (enqueue env (webhook_send w.id e b)) (send_each env e b ws)
          count_if_sum (enqueue-Tallies (webhook_send w.id e b)) (send_each-Tallies e b ws))
        (send_each-Tallies e b ws)

  send_marshalled-Tallies :
      (e : Text) (ws : List Webhook) (o : Option Text)
      → Tallies (λ n. n) (send_marshalled env e ws o)
  unfolding send_marshalled
  send_marshalled-Tallies e ws none = Tallies-pure 0 refl
  send_marshalled-Tallies e ws (some b) = send_each-Tallies e b ws

  send_listed-Tallies :
      (e : Text) (pl : Payload) (o : Option (List Webhook))
      → Tallies (λ n. n) (send_listed env e pl o)
  unfolding send_listed
  send_listed-Tallies e pl none = Tallies-pure 0 refl
  send_listed-Tallies e pl (some ws) = Tallies-asks _ _ (send_marshalled-Tallies e ws)

  pub webhook_event-Tallies :
      (e : Text) (pl : Payload) → Tallies (λ n. n) (enqueue_webhook_event env e pl)
  unfolding enqueue_webhook_event
  webhook_event-Tallies e pl = Tallies-asks _ _ (send_listed-Tallies e pl)

  pub email_event-Tallies :
      (rs : List Text) (s b : Text) → Tallies one_if (enqueue_email_event env rs s b)
  unfolding enqueue_email_event
  email_event-Tallies rs s b =
      Tallies-if _ _ _ (Tallies-pure false refl) (enqueue-Tallies (email_send s b rs))

  -- The number that `enqueueWebhookEvent` returns is the number of deliveries that it put on the queue,
  -- whichever webhooks listen and whichever calls fail.
  pub count-enqueue_webhook_event :
      (event_type : Text) (payload : Payload) (tr : List Event)
      → count queues (enqueue_webhook_event env event_type payload tr).1
        ≡ (enqueue_webhook_event env event_type payload tr).0 + count queues tr
  count-enqueue_webhook_event e pl tr = Tallies-count (webhook_event-Tallies e pl) tr
