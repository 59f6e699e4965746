-- ===== src/Events/Hub/Channels.antt =====
-- The channels of the clients: a send on a closed channel and a second `close` would end the program.
use hen_kai_pan.Prelude.{
  ℕ, ◌+◌, ◌≤◌, List, [], ◌∷◌, ◌++◌, Option, none, some, ◌≡◌, refl, arith, not, ◌&&◌, if◌then◌else◌,
  ◌==◌, Bool-cases, inl, inr, leb,
}
use hen_kai_pan.Strings.{Text, is_empty}
use hen_kai_pan.Maps.{Map, insert, lookup}
use hen_kai_pan.Events.Types.{Client, SseEvent}
use hen_kai_pan.Events.Hub.{
  Hub, System, Step, Reachable, started, start, step, subscribed, cleaned, published, broadcasted,
  took_register, took_unregister, took_event, took_broadcast, was_read, remove, register_client,
  unregister_client, drop_found, offer, deliver, deliver_all, dispatch_to_clients, read_first,
  close_chan, subscribe_with_scope, cleanup, publish, broadcast, user_count,
  max_connections_per_user, new_client,
}

one : ℕ → ℕ → ℕ
one k n = if n == k then 1 else 0

-- How often the channel `k` is closed, belongs to a client, or waits for registration.
unfoldable pub closings : ℕ → List ℕ → ℕ
unfolding one
closings k [] = 0
closings k (n ∷ ns) = one k n + closings k ns

unfoldable pub holders : ℕ → Map Client → ℕ
unfolding one
holders k [] = 0
holders k ((id, c) ∷ m) = one k c.chan + holders k m

unfoldable pub waiters : ℕ → List Client → ℕ
unfolding one
waiters k [] = 0
waiters k (c ∷ cs) = one k c.chan + waiters k cs

holders-insert :
    (k : ℕ) (c : Client) (m : Map Client) → holders k (insert c.id c m) ≤ one k c.chan + holders k m
unfolding holders insert
holders-insert k c [] = ground arith
holders-insert k c ((j, d) ∷ m) = ground (arith, holders-insert k c m)

holders-remove : (k : ℕ) (id : Text) (m : Map Client) → holders k (remove id m) ≤ holders k m
unfolding holders remove
holders-remove k id [] = ground arith
holders-remove k id ((j, d) ∷ m) = ground (arith, holders-remove k id m)

-- The removed client's channel was counted.
holders-remove_found :
    (k : ℕ) (id : Text) (m : Map Client) (c : Client)
    → lookup id m ≡ some c
    → one k c.chan + holders k (remove id m) ≤ holders k m
unfolding holders remove lookup
holders-remove_found k id [] c h = cc
holders-remove_found k id ((j, d) ∷ m) c h =
    ground (arith, holders-remove_found k id m c, holders-remove k id m)

deliver_chan : (e : SseEvent) (c : Client) → (deliver e c).chan ≡ c.chan
unfolding deliver offer
deliver_chan e c = ground arith

holders-deliver_all :
    (k : ℕ) (e : SseEvent) (m : Map Client) → holders k (deliver_all e m) ≡ holders k m
unfolding holders deliver_all
holders-deliver_all k e [] = refl
holders-deliver_all k e ((j, c) ∷ m) = rw (deliver_chan e c, holders-deliver_all k e m) refl

holders-read_first :
    (k : ℕ) (id : Text) (m : Map Client) → holders k (read_first id m) ≡ holders k m
unfolding holders read_first
holders-read_first k id [] = refl
holders-read_first k id ((j, c) ∷ m) = ground (arith, holders-read_first k id m)

waiters-append :
    (k : ℕ) (cs : List Client) (c : Client) → waiters k (cs ++ c ∷ []) ≡ waiters k cs + one k c.chan
unfolding waiters
waiters-append k [] c = ground arith
waiters-append k (d ∷ cs) c = ground (arith, waiters-append k cs c)

unfoldable pub uses : ℕ → System → ℕ
unfolding closings holders waiters
uses k s = closings k s.hub.closed + holders k s.hub.clients + waiters k s.registering

-- Every channel stands in one place at most, and one that is not made yet in none.
pub record IsSafe (s : System) : Type 0 where
  pub once : (k : ℕ) → uses k s ≤ 1
  pub unmade : (k : ℕ) → s.next_chan ≤ k → uses k s ≡ 0

-- A step that makes no channel and gives none a second place.
IsSafe-less :
    (s t : System)
    → ((k : ℕ) → uses k t ≤ uses k s)
    → t.next_chan ≡ s.next_chan
    → IsSafe s
    → IsSafe t
IsSafe-less s t h e i = record {
  once = λ k. ground (arith, h k, i.once k);
  unmade = λ k l. ground (arith, h k, i.unmade k);
}

uses-register :
    (k : ℕ) (h : Hub) (c : Client)
    → closings k (register_client h c).closed + holders k (register_client h c).clients
      ≤ one k c.chan + (closings k h.closed + holders k h.clients)
unfolding register_client close_chan closings
uses-register k h c =
    elim (Bool-cases
      (not (is_empty c.user_id) && leb max_connections_per_user (user_count c.user_id h.clients))) [
        | inl full ↦ rw full (ground arith)
        | inr room ↦ rw room (ground (arith, holders-insert k c h.clients))
      ]

uses-dropped :
    (k : ℕ) (h : Hub) (id : Text) (o : Option Client)
    → lookup id h.clients ≡ o
    → closings k (drop_found h id o).closed + holders k (drop_found h id o).clients
      ≤ closings k h.closed + holders k h.clients
unfolding drop_found closings
uses-dropped k h id none e = ground arith
uses-dropped k h id (some c) e = ground (arith, holders-remove_found k id h.clients c e)

subscribe-IsSafe :
    (s : System) (id user project : Text) (filters : List Text)
    → IsSafe s
    → IsSafe (subscribe_with_scope s id user project filters)
unfolding subscribe_with_scope uses one
subscribe-IsSafe s id user project filters i = record {
  once = λ k. ground (
    arith,
    waiters-append k s.registering (new_client s.next_chan id user project filters),
    i.once k,
    i.unmade k,
  );
  unmade = λ k l. ground (
    arith,
    waiters-append k s.registering (new_client s.next_chan id user project filters),
    i.unmade k,
  );
}

Step-IsSafe : (s t : System) → Step s t → IsSafe s → IsSafe t
unfolding unregister_client dispatch_to_clients cleanup publish broadcast uses waiters
Step-IsSafe _ _ (subscribed s id user project filters) i =
    subscribe-IsSafe s id user project filters i
Step-IsSafe _ _ (cleaned s id) i = IsSafe-less s _ (λ k. ground arith) refl i
Step-IsSafe _ _ (published s now e) i = IsSafe-less s _ (λ k. ground arith) refl i
Step-IsSafe _ _ (broadcasted s now e) i = IsSafe-less s _ (λ k. ground arith) refl i
Step-IsSafe _ _ (took_register s c cs q) i =
    IsSafe-less s _ (λ k. rw q (ground (arith, uses-register k s.hub c))) refl i
Step-IsSafe _ _ (took_unregister s id ids q) i =
    IsSafe-less s _ (λ k. ground (arith, uses-dropped k s.hub id (lookup id s.hub.clients) refl))
      refl i
Step-IsSafe _ _ (took_event s e es q) i =
    IsSafe-less s _ (λ k. ground (arith, holders-deliver_all k e s.hub.clients)) refl i
Step-IsSafe _ _ (took_broadcast s e es q) i =
    IsSafe-less s _ (λ k. ground (arith, holders-deliver_all k e s.hub.clients)) refl i
Step-IsSafe _ _ (was_read s id) i =
    IsSafe-less s _ (λ k. ground (arith, holders-read_first k id s.hub.clients)) refl i

started-IsSafe : IsSafe started
unfolding uses closings holders waiters
started-IsSafe = record { once = λ k. ground arith; unmade = λ k l. refl }

-- However the calls and the turns of the hub interleave, a channel is closed at most once, belongs to at
-- most one client, and is not closed while a client holds it or waits with it: the hub never sends on a
-- closed channel and never closes one twice.
pub Reachable-IsSafe : (s : System) → Reachable s → IsSafe s
Reachable-IsSafe _ start = started-IsSafe
Reachable-IsSafe _ (step s t r d) = Step-IsSafe s t d (Reachable-IsSafe s r)
