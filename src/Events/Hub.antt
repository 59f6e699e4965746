-- ===== src/Events/Hub.antt =====
-- The hub of internal/events/events.go: `run` takes one message at a time from its channels, in any order
-- between them. `System` is the hub with what is still on the channels.
pub mod Limit
pub mod Visible
pub mod Scope
pub mod Channels
use hen_kai_pan.Prelude.{
  ℕ, suc, Bool, true, false, List, [], ◌∷◌, ◌++◌, Option, none, some, if◌then◌else◌, ◌&&◌, ◌||◌,
  not, any, length, ltb, leb, ◌≡◌,
}
use hen_kai_pan.Strings.{Text, text_eq, is_empty}
use hen_kai_pan.Maps.{Map, lookup, insert, mem}
use hen_kai_pan.Events.Types.{SseEvent, Client, stamp}

-- `maxConnectionsPerUser`
abbrev pub max_connections_per_user : ℕ
max_connections_per_user = 5

-- `make(chan Event, 50)`
abbrev pub client_buffer : ℕ
client_buffer = 50

-- The clients by their ids, and the channels that the hub has closed.
pub record Hub : Type 0 where
  pub clients : Map Client
  pub closed : List ℕ

unfoldable pub user_count : Text → Map Client → ℕ
user_count user [] = 0
user_count user ((id, c) ∷ m) =
    let rest = user_count user m in if text_eq c.user_id user then suc rest else rest

-- `UserConnectionCount`
unfoldable pub user_connection_count : Hub → Text → ℕ
unfolding user_count
user_connection_count h user = if is_empty user then 0 else user_count user h.clients

-- `delete(h.clients, clientID)`
unfoldable pub remove : Text → Map Client → Map Client
remove id [] = []
remove id ((j, c) ∷ m) = let rest = remove id m in if text_eq j id then rest else (j, c) ∷ rest

close_chan : Hub → ℕ → Hub
close_chan h chan = record h { closed = chan ∷ h.closed }

-- The case of `h.register`.
unfoldable pub register_client : Hub → Client → Hub
unfolding user_count close_chan insert
register_client h c =
    if not (is_empty c.user_id) && leb max_connections_per_user (user_count c.user_id h.clients)
    then close_chan h c.chan
    else record h { clients = insert c.id c h.clients }

drop_found : Hub → Text → Option Client → Hub
unfolding remove
drop_found h id none = h
drop_found h id (some c) = record { clients = remove id h.clients; closed = c.chan ∷ h.closed }

-- The case of `h.unregister`.
unfoldable pub unregister_client : Hub → Text → Hub
unfolding drop_found lookup
unregister_client h id = drop_found h id (lookup id h.clients)

unfoldable pub matches_filters : Client → SseEvent → Bool
unfolding mem
matches_filters c e = elim c.filters [ [] ↦ true | f ∷ fs ↦ mem e.kind (f ∷ fs) ]

scoped : Text → Text → Bool
scoped own other = if not (is_empty own) && not (is_empty other) then text_eq own other else true

unfoldable pub matches_scope : Client → SseEvent → Bool
unfolding scoped
matches_scope c e =
    if not (scoped c.user_id e.user_id) then false else scoped c.project_id e.project_id

-- A send that does not wait: a full buffer drops the event.
pub offer : SseEvent → Client → Client
offer e c = if ltb (length c.inbox) client_buffer then record c { inbox = c.inbox ++ e ∷ [] } else c

pub deliver : SseEvent → Client → Client
unfolding offer matches_filters matches_scope
deliver e c =
    if not (matches_filters c e) then c else if not (matches_scope c e) then c else offer e c

pub deliver_all : SseEvent → Map Client → Map Client
unfolding deliver
deliver_all e [] = []
deliver_all e ((id, c) ∷ m) = (id, deliver e c) ∷ deliver_all e m

unfoldable pub dispatch_to_clients : Hub → SseEvent → Hub
unfolding deliver_all
dispatch_to_clients h e = record h { clients = deliver_all e h.clients }

-- `ClientCount`
unfoldable pub client_count : Hub → ℕ
client_count h = length h.clients

-- The hub, what waits on its four channels, and the number of the next channel to be made.
pub record System : Type 0 where
  pub hub : Hub
  pub registering : List Client
  pub unregistering : List Text
  pub events : List SseEvent
  pub broadcasts : List SseEvent
  pub next_chan : ℕ

-- `GetHub`
abbrev pub started : System
started = record {
  hub = record { clients = []; closed = [] };
  registering = [];
  unregistering = [];
  events = [];
  broadcasts = [];
  next_chan = 0;
}

abbrev pub new_client : ℕ → Text → Text → Text → List Text → Client
new_client chan id user project filters = record {
  id = id;
  chan = chan;
  inbox = [];
  filters = filters;
  user_id = user;
  project_id = project;
}

unfoldable pub subscribe_with_scope : System → Text → Text → Text → List Text → System
subscribe_with_scope s id user project filters = record s {
  registering = s.registering ++ new_client s.next_chan id user project filters ∷ [];
  next_chan = suc s.next_chan;
}

-- `cleanup`
unfoldable pub cleanup : System → Text → System
cleanup s id = record s { unregistering = s.unregistering ++ id ∷ [] }

unfoldable pub publish : System → ℕ → SseEvent → System
unfolding stamp
publish s now e = record s { events = s.events ++ stamp now e ∷ [] }

unfoldable pub broadcast : System → ℕ → SseEvent → System
unfolding stamp
broadcast s now e = record s { broadcasts = s.broadcasts ++ stamp now e ∷ [] }

-- The reader of a client takes the first event of its buffer.
pub read_first : Text → Map Client → Map Client
read_first id [] = []
read_first id ((j, c) ∷ m) =
    let rest = read_first id m in
    if text_eq j id
    then (j, record c { inbox = elim c.inbox [ [] ↦ [] | e ∷ es ↦ es ] }) ∷ m
    else (j, c) ∷ rest

-- One step of the program: a call of a caller, or one turn of `run` on the message that its `select` takes.
pub data Step : System → System → Type 0 where
  subscribed :
      (s : System) (id user project : Text) (filters : List Text)
      → Step s (subscribe_with_scope s id user project filters)
  cleaned : (s : System) (id : Text) → Step s (cleanup s id)
  published : (s : System) (now : ℕ) (e : SseEvent) → Step s (publish s now e)
  broadcasted : (s : System) (now : ℕ) (e : SseEvent) → Step s (broadcast s now e)
  took_register :
      (s : System) (c : Client) (cs : List Client)
      → s.registering ≡ c ∷ cs
      → Step s (record s { hub = register_client s.hub c; registering = cs })
  took_unregister :
      (s : System) (id : Text) (ids : List Text)
      → s.unregistering ≡ id ∷ ids
      → Step s (record s { hub = unregister_client s.hub id; unregistering = ids })
  took_event :
      (s : System) (e : SseEvent) (es : List SseEvent)
      → s.events ≡ e ∷ es
      → Step s (record s { hub = dispatch_to_clients s.hub e; events = es })
  took_broadcast :
      (s : System) (e : SseEvent) (es : List SseEvent)
      → s.broadcasts ≡ e ∷ es
      → Step s (record s { hub = dispatch_to_clients s.hub e; broadcasts = es })
  was_read :
      (s : System) (id : Text)
      → Step s (record s { hub = record s.hub { clients = read_first id s.hub.clients } })

-- What the program can reach from its start.
pub data Reachable : System → Type 0 where
  start : Reachable started
  step : (s t : System) → Reachable s → Step s t → Reachable t
