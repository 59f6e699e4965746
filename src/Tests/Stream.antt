-- ===== src/Tests/Stream.antt =====
-- A hub that a client joins and an event passes through.
use hen_kai_pan.Prelude.{[], refl}
use hen_kai_pan.Strings.{lit}
use hen_kai_pan.Events.Types.{SseEvent}
use hen_kai_pan.Events.Hub.{
  System, Reachable, started, start, step, subscribed, took_register, published, took_event,
  subscribe_with_scope, register_client, new_client, publish, dispatch_to_clients,
}
use hen_kai_pan.Events.Hub.Limit.{IsLimited, Reachable-IsLimited}
use hen_kai_pan.Events.Hub.Scope.{IsSound, Reachable-IsSound}
use hen_kai_pan.Events.Hub.Channels.{IsSafe, Reachable-IsSafe}

abbrev scan_done : SseEvent
scan_done = record {
  kind = lit "scan_completed";
  payload = lit "{}";
  user_id = lit "ana";
  project_id = [];
  created_at = 7;
}

-- Ana subscribes, the hub registers her, and an event for her is published and dispatched.
abbrev joining : System
joining = subscribe_with_scope started (lit "c1") (lit "ana") [] []

abbrev joined : System
joined = record joining {
  hub = register_client joining.hub (new_client 0 (lit "c1") (lit "ana") [] []);
  registering = [];
}

abbrev telling : System
telling = publish joined 9 scan_done

abbrev told : System
told = record telling { hub = dispatch_to_clients telling.hub scan_done; events = [] }

told-Reachable : Reachable told
unfolding subscribe_with_scope publish
told-Reachable =
    step telling told
      (step joined telling
        (step joining joined
          (step started joining start (subscribed started (lit "c1") (lit "ana") [] []))
          (took_register joining (new_client 0 (lit "c1") (lit "ana") [] []) [] refl))
        (published joined 9 scan_done))
      (took_event telling scan_done [] refl)

Reachable-IsLimited_example : IsLimited told.hub
Reachable-IsLimited_example = Reachable-IsLimited told told-Reachable

Reachable-IsSound_example : IsSound told
Reachable-IsSound_example = Reachable-IsSound told told-Reachable

Reachable-IsSafe_example : IsSafe told
Reachable-IsSafe_example = Reachable-IsSafe told told-Reachable
