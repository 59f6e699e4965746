-- ===== src/Events/Hub/Limit.antt =====
-- The limit on the connections of one user.
use hen_kai_pan.Prelude.{
  ℕ, suc, ◌≤◌, false, [], ◌∷◌, Option, none, some, ◌≡◌, refl, arith, not, ◌&&◌, if◌then◌else◌, leb,
  Bool-cases, inl, inr,
}
use hen_kai_pan.Strings.{Text, text_eq, Text-cases, is_empty}
use hen_kai_pan.Maps.{Map, insert, lookup}
use hen_kai_pan.Events.Types.{Client, SseEvent}
use hen_kai_pan.Events.Hub.{
  Hub, System, Step, Reachable, started, start, step, subscribed, cleaned, published, broadcasted,
  took_register, took_unregister, took_event, took_broadcast, was_read, user_count, remove,
  register_client, unregister_client, drop_found, offer, deliver, deliver_all, dispatch_to_clients,
  read_first, max_connections_per_user, close_chan, subscribe_with_scope, cleanup, publish,
  broadcast,
}

count_one : Text → Client → ℕ
count_one u c = if text_eq c.user_id u then 1 else 0

count-insert :
    (u : Text) (c : Client) (m : Map Client)
    → user_count u (insert c.id c m)
      ≤ (if text_eq c.user_id u then suc (user_count u m) else user_count u m)
unfolding user_count insert
count-insert u c [] = ground arith
count-insert u c ((j, d) ∷ m) = ground (arith, count-insert u c m)

count-remove : (u id : Text) (m : Map Client) → user_count u (remove id m) ≤ user_count u m
unfolding user_count remove
count-remove u id [] = ground arith
count-remove u id ((j, d) ∷ m) = ground (arith, count-remove u id m)

deliver_user : (e : SseEvent) (c : Client) → (deliver e c).user_id ≡ c.user_id
unfolding deliver offer
deliver_user e c = ground arith

count-deliver_all :
    (u : Text) (e : SseEvent) (m : Map Client) → user_count u (deliver_all e m) ≡ user_count u m
unfolding user_count deliver_all
count-deliver_all u e [] = refl
count-deliver_all u e ((j, c) ∷ m) = rw (deliver_user e c, count-deliver_all u e m) refl

count-read_first : (u id : Text) (m : Map Client) → user_count u (read_first id m) ≡ user_count u m
unfolding user_count read_first
count-read_first u id [] = refl
count-read_first u id ((j, c) ∷ m) = ground (arith, count-read_first u id m)

-- No user has more than five clients.
abbrev pub IsLimited : Hub → Type 0
IsLimited h = (u : Text) → is_empty u ≡ false → user_count u h.clients ≤ max_connections_per_user

count-insert_other :
    (u : Text) (c : Client) (m : Map Client)
    → text_eq c.user_id u ≡ false
    → user_count u (insert c.id c m) ≤ user_count u m
count-insert_other u c m n = ground (arith, count-insert u c m)

count-insert_room :
    (u : Text) (c : Client) (m : Map Client)
    → leb max_connections_per_user (user_count u m) ≡ false
    → user_count u (insert c.id c m) ≤ max_connections_per_user
count-insert_room u c m n = ground (arith, count-insert u c m)

register-IsLimited : (h : Hub) (c : Client) → IsLimited h → IsLimited (register_client h c)
unfolding register_client close_chan
register-IsLimited h c l u e = elim (Text-cases c.user_id u) [
  | inl q ↦
      let filled : is_empty c.user_id ≡ false = rw q e in
      rw (← q, filled)
        (elim (Bool-cases (leb max_connections_per_user (user_count c.user_id h.clients))) [
          | inl full ↦ rw full (l c.user_id filled)
          | inr room ↦ rw room (count-insert_room c.user_id c h.clients room)
        ])
  | inr n ↦
      elim (Bool-cases (
        not (is_empty c.user_id)
        && leb max_connections_per_user (user_count c.user_id h.clients))) [
          | inl full ↦ rw full (l u e)
          | inr room ↦ rw room (ground (arith, count-insert_other u c h.clients n, l u e))
        ]
]

dropped-IsLimited :
    (h : Hub) (id : Text) (o : Option Client) → IsLimited h → IsLimited (drop_found h id o)
unfolding drop_found
dropped-IsLimited h id none l u e = l u e
dropped-IsLimited h id (some c) l u e = ground (arith, count-remove u id h.clients, l u e)

Step-IsLimited : (s t : System) → Step s t → IsLimited s.hub → IsLimited t.hub
unfolding unregister_client dispatch_to_clients subscribe_with_scope cleanup publish broadcast
Step-IsLimited _ _ (subscribed s id user project filters) l = l
Step-IsLimited _ _ (cleaned s id) l = l
Step-IsLimited _ _ (published s now e) l = l
Step-IsLimited _ _ (broadcasted s now e) l = l
Step-IsLimited _ _ (took_register s c cs q) l = register-IsLimited s.hub c l
Step-IsLimited _ _ (took_unregister s id ids q) l =
    dropped-IsLimited s.hub id (lookup id s.hub.clients) l
Step-IsLimited _ _ (took_event s e es q) l = λ u k. rw (count-deliver_all u e s.hub.clients) (l u k)
Step-IsLimited _ _ (took_broadcast s e es q) l =
    λ u k. rw (count-deliver_all u e s.hub.clients) (l u k)
Step-IsLimited _ _ (was_read s id) l = λ u k. rw (count-read_first u id s.hub.clients) (l u k)

started-IsLimited : IsLimited started.hub
unfolding user_count
started-IsLimited u e = ground arith

-- However the calls and the turns of the hub interleave, no user is ever connected more than five times.
pub Reachable-IsLimited : (s : System) → Reachable s → IsLimited s.hub
Reachable-IsLimited _ start = started-IsLimited
Reachable-IsLimited _ (step s t r d) = Step-IsLimited s t d (Reachable-IsLimited s r)
