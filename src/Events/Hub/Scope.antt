-- ===== src/Events/Hub/Scope.antt =====
-- What a client receives.
use hen_kai_pan.Prelude.{
  ℕ, ◌≤◌, Bool, true, false, List, [], ◌∷◌, ◌++◌, Option, none, some, ◌≡◌, arith, not, ◌&&◌,
  if◌then◌else◌, All, All-append, length, length-append, ltb, Bool-cases, leb, inl, inr,
}
use mathlib.Core.Path.{subst}
use hen_kai_pan.Strings.{Text, text_eq, is_empty}
use hen_kai_pan.Maps.{Map, insert, lookup}
use hen_kai_pan.Events.Types.{Client, SseEvent}
use hen_kai_pan.Events.Hub.{
  Hub, System, Step, Reachable, start, step, subscribed, cleaned, published, broadcasted,
  took_register, took_unregister, took_event, took_broadcast, was_read, remove, register_client,
  unregister_client, drop_found, offer, deliver, deliver_all, dispatch_to_clients, read_first,
  close_chan, matches_filters, matches_scope, client_buffer, subscribe_with_scope, cleanup, publish,
  broadcast, user_count, max_connections_per_user,
}
use hen_kai_pan.Events.Hub.Visible.{IsWanted, IsFor, matches_filters-IsWanted, matches_scope-IsFor}

-- The buffer is within its bound, and every event in it is one that the client asked for and may see.
pub record IsScoped (c : Client) : Type 0 where
  pub bounded : length c.inbox ≤ 50
  pub wanted : All (IsWanted c) c.inbox
  pub seen : All (IsFor c) c.inbox

abbrev pub AreScoped : Map Client → Type 0
AreScoped m = All (λ x. IsScoped x.1) m

entries_if :
    (b : Bool) (m n : Map Client) → AreScoped m → AreScoped n → AreScoped (if b then m else n)
entries_if true m n a b = a
entries_if false m n a b = b

insert-AreScoped :
    (c : Client) (m : Map Client) → IsScoped c → AreScoped m → AreScoped (insert c.id c m)
unfolding insert
insert-AreScoped c [] s a = (s, tt)
insert-AreScoped c ((j, d) ∷ m) s (p, a) =
    entries_if (text_eq j c.id) ((c.id, c) ∷ m) _ (s, a) (p, insert-AreScoped c m s a)

remove-AreScoped : (id : Text) (m : Map Client) → AreScoped m → AreScoped (remove id m)
unfolding remove
remove-AreScoped id [] a = tt
remove-AreScoped id ((j, d) ∷ m) (p, a) =
    let rest = remove-AreScoped id m a in entries_if (text_eq j id) _ ((j, d) ∷ _) rest (p, rest)

offered-IsScoped :
    (e : SseEvent) (c : Client)
    → IsScoped c
    → IsWanted c e
    → IsFor c e
    → ltb (length c.inbox) client_buffer ≡ true
    → IsScoped (record c { inbox = c.inbox ++ e ∷ [] })
offered-IsScoped e c s f k r = record {
  bounded = ground (arith, length-append c.inbox (e ∷ []));
  wanted = All-append (IsWanted c) c.inbox (e ∷ []) s.wanted (f, tt);
  seen = All-append (IsFor c) c.inbox (e ∷ []) s.seen (k, tt);
}

deliver-IsScoped : (e : SseEvent) (c : Client) → IsScoped c → IsScoped (deliver e c)
unfolding deliver offer
deliver-IsScoped e c s = elim (Bool-cases (matches_filters c e)) [
  | inr n ↦ rw n s
  | inl f ↦ elim (Bool-cases (matches_scope c e)) [
    | inr n ↦ rw (f, n) s
    | inl k ↦ elim (Bool-cases (ltb (length c.inbox) client_buffer)) [
      | inr n ↦ rw (f, k, n) s
      | inl r ↦
          rw (f, k, r)
            (offered-IsScoped e c s (matches_filters-IsWanted c e f) (matches_scope-IsFor c e k) r)
    ]
  ]
]

deliver_all-AreScoped : (e : SseEvent) (m : Map Client) → AreScoped m → AreScoped (deliver_all e m)
unfolding deliver_all
deliver_all-AreScoped e [] a = tt
deliver_all-AreScoped e ((j, c) ∷ m) (p, a) = (deliver-IsScoped e c p, deliver_all-AreScoped e m a)

All-tail :
    (P : SseEvent → Type 0) (es : List SseEvent)
    → All P es
    → All P (elim es [ [] ↦ [] | e ∷ rest ↦ rest ])
All-tail P [] a = tt
All-tail P (e ∷ es) (p, a) = a

length-tail : (es : List SseEvent) → length (elim es [ [] ↦ [] | e ∷ rest ↦ rest ]) ≤ length es
length-tail [] = ground arith
length-tail (e ∷ es) = ground arith

read-IsScoped :
    (c : Client)
    → IsScoped c
    → IsScoped (record c { inbox = elim c.inbox [ [] ↦ [] | e ∷ es ↦ es ] })
read-IsScoped c s = record {
  bounded = ground (arith, length-tail c.inbox, s.bounded);
  wanted = All-tail _ c.inbox s.wanted;
  seen = All-tail _ c.inbox s.seen;
}

read_first-AreScoped : (id : Text) (m : Map Client) → AreScoped m → AreScoped (read_first id m)
unfolding read_first
read_first-AreScoped id [] a = tt
read_first-AreScoped id ((j, c) ∷ m) (p, a) =
    entries_if (text_eq j id) ((j, _) ∷ m) ((j, c) ∷ _) (read-IsScoped c p, a)
      (p, read_first-AreScoped id m a)

-- Of the clients that wait to be registered, too.
pub record IsSound (s : System) : Type 0 where
  pub waiting : All IsScoped s.registering
  pub connected : AreScoped s.hub.clients

register-AreScoped :
    (h : Hub) (c : Client)
    → IsScoped c
    → AreScoped h.clients
    → AreScoped (register_client h c).clients
unfolding register_client close_chan
register-AreScoped h c s a =
    elim (Bool-cases
      (not (is_empty c.user_id) && leb max_connections_per_user (user_count c.user_id h.clients))) [
        | inl full ↦ rw full a
        | inr room ↦ rw room (insert-AreScoped c h.clients s a)
      ]

dropped-AreScoped :
    (h : Hub) (id : Text) (o : Option Client)
    → AreScoped h.clients
    → AreScoped (drop_found h id o).clients
unfolding drop_found
dropped-AreScoped h id none a = a
dropped-AreScoped h id (some c) a = remove-AreScoped id h.clients a

new-IsScoped :
    (id user project : Text) (chan : ℕ) (filters : List Text)
    → IsScoped (record {
      id = id;
      chan = chan;
      inbox = [];
      filters = filters;
      user_id = user;
      project_id = project;
    })
new-IsScoped id user project chan filters = record {
  bounded = ground arith;
  wanted = tt;
  seen = tt;
}

Step-IsSound : (s t : System) → Step s t → IsSound s → IsSound t
unfolding unregister_client dispatch_to_clients subscribe_with_scope cleanup publish broadcast
Step-IsSound _ _ (subscribed s id user project filters) i = record {
  waiting =
      All-append IsScoped s.registering _ i.waiting
        (new-IsScoped id user project s.next_chan filters, tt);
  connected = i.connected;
}
Step-IsSound _ _ (cleaned s id) i = record { waiting = i.waiting; connected = i.connected }
Step-IsSound _ _ (published s now e) i = record { waiting = i.waiting; connected = i.connected }
Step-IsSound _ _ (broadcasted s now e) i = record { waiting = i.waiting; connected = i.connected }
Step-IsSound _ _ (took_register s c cs q) i =
    let (p, ps) = subst (All IsScoped) q i.waiting in
    record { waiting = ps; connected = register-AreScoped s.hub c p i.connected }
Step-IsSound _ _ (took_unregister s id ids q) i = record {
  waiting = i.waiting;
  connected = dropped-AreScoped s.hub id (lookup id s.hub.clients) i.connected;
}
Step-IsSound _ _ (took_event s e es q) i = record {
  waiting = i.waiting;
  connected = deliver_all-AreScoped e s.hub.clients i.connected;
}
Step-IsSound _ _ (took_broadcast s e es q) i = record {
  waiting = i.waiting;
  connected = deliver_all-AreScoped e s.hub.clients i.connected;
}
Step-IsSound _ _ (was_read s id) i = record {
  waiting = i.waiting;
  connected = read_first-AreScoped id s.hub.clients i.connected;
}

-- However the calls and the turns of the hub interleave, a client's buffer holds at most 50 events, those that
-- were broadcast included: each is of a type that the client named, if it named any, and of the client's user
-- and project, where both the event and the client name one.
pub Reachable-IsSound : (s : System) → Reachable s → IsSound s
Reachable-IsSound _ start = record { waiting = tt; connected = tt }
Reachable-IsSound _ (step s t r d) = Step-IsSound s t d (Reachable-IsSound s r)
