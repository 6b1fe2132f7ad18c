-- ===== src/Tests/Sharing.antt =====
-- The theorems on the shared connection at two concrete instances.
use mobile_wallet_protocol.Prelude.{
  ℕ, one_if, ◌==◌, List, arith, ◌-◌, ◌≡◌, refl, Text, codes, text_eq, includes, get_elem?, count,
  true, false, none, some, [], ◌∷◌,
}
use mobile_wallet_protocol.Kv.{map_get, map_set}
use mobile_wallet_protocol.Transport.Queue
use mobile_wallet_protocol.Transport.Queue.{Socket, resolved}
use mobile_wallet_protocol.Transport.Shared.{
  pos, Link, World, Instance, Context, construct, disconnect, new_subscription, subscribe_in,
  join_channel, connect, publish, link_closed, unsubscribe,
}
use mobile_wallet_protocol.Transport.Shared.Loops.{count_of}
use mobile_wallet_protocol.Transport.Shared.Consistent.{is_live, holds}
use mobile_wallet_protocol.Transport.Shared.Reachable.{
  constructs, subscribes, opens, Reach, here, next, initial, reachable_counts,
}
use mobile_wallet_protocol.Transport.Shared.Channels.{
  Relay, subscribe, clear, clear_leaves_listener,
}
use mobile_wallet_protocol.Transport.Shared.Reconnect.{
  Connection, Step, reconnects, closed, failed, steps, accounted, IsAnswered, steps-accounted,
}
use mobile_wallet_protocol.Transport.Shared.Events
use mobile_wallet_protocol.Transport.Shared.Events.{Hub, attach_new, detach, told, live_at, no_hub}
use mobile_wallet_protocol.Transport.Shared.Events.Attached.{reached_told}
use mobile_wallet_protocol.Transport.Shared.Closing.{close_transport, close_transport_lem}
use mobile_wallet_protocol.Transport.Shared.Misuse.{
  late_instance_orphaned, two_proxies_take_two, new_proxy,
}

-- Two instances are made, the link opens, and the first subscribes to a channel.
abbrev two_instances : World
two_instances = construct (construct initial)

abbrev subscribed_context : Context
subscribed_context = record {
  refcount = pos 2;
  subscriptions = (codes "ch", 1) ∷ [];
  link = Link.connected;
  closing = false;
}

abbrev subscribed : World
subscribed = record {
  context = some subscribed_context;
  instances =
      record { channels = codes "ch" ∷ []; disconnected = false }
      ∷ record { channels = []; disconnected = false }
      ∷ [];
}

subscribed-Reach : Reach initial subscribed
unfolding construct new_subscription subscribe_in join_channel map_get map_set includes text_eq
subscribed-Reach =
    next (next (next (next here constructs) constructs) (opens Link.connected))
      (subscribes 0 (codes "ch") (record { channels = []; disconnected = false }) refl refl refl)

reachable_counts_example :
    (pos 2 ≡ pos (count is_live subscribed.instances))
    × ((j : Text)
        → count_of (map_get ((codes "ch", 1) ∷ []) j) ≡ count (holds j) subscribed.instances)
reachable_counts_example = reachable_counts subscribed_context subscribed-Reach refl

-- One instance, connected.
abbrev alone : World
alone = record {
  context =
      some
        (record { refcount = pos 1; subscriptions = []; link = Link.connected; closing = false });
  instances = record { channels = []; disconnected = false } ∷ [];
}

late_instance_orphaned_example :
    let late = link_closed (construct (disconnect alone 0).0) in
    (get_elem? late.instances 1 ≡ some (record { channels = []; disconnected = false }))
    × (connect late ≡ [])
    × (new_subscription late 1 (codes "ch") ≡ none)
    × (publish late (codes "ch") ≡ [])
late_instance_orphaned_example =
    late_instance_orphaned alone 0 (record { channels = []; disconnected = false })
      (record { refcount = pos 1; subscriptions = []; link = Link.connected; closing = false })
      (codes "ch") refl refl refl refl

-- Two instances that both hold a channel.
abbrev shared_context : Context
shared_context = record {
  refcount = pos 2;
  subscriptions = (codes "ch", 2) ∷ [];
  link = Link.connected;
  closing = false;
}

abbrev holder : Instance
holder = record { channels = codes "ch" ∷ []; disconnected = false }

abbrev both : World
both = record { context = some shared_context; instances = holder ∷ holder ∷ [] }

two_proxies_take_two_example :
    (d : Context) × ((unsubscribe
        (unsubscribe both (new_proxy 0 (codes "ch"))).0
        (new_proxy 0 (codes "ch"))).0.context
      ≡ some d)
    × (count_of (map_get d.subscriptions (codes "ch"))
        ≡ count_of (map_get ((codes "ch", 2) ∷ []) (codes "ch")) - 2)
two_proxies_take_two_example =
    two_proxies_take_two both 0 (codes "ch") holder shared_context refl refl

-- Both instances listen to the channel.
abbrev both_listen : Relay
both_listen = record { world = both; listeners = (codes "ch", 0 ∷ 1 ∷ []) ∷ [] }

clear_leaves_listener_example :
    (map_get (clear 0 (codes "ch") both_listen).listeners (codes "ch") ≡ some (0 ∷ 1 ∷ []))
    × (u : Relay) × (subscribe 0 (codes "ch") (clear 0 (codes "ch") both_listen) ≡ some u)
    × (map_get u.listeners (codes "ch") ≡ some (0 ∷ 1 ∷ 0 ∷ []))
unfolding includes text_eq map_get
clear_leaves_listener_example =
    clear_leaves_listener 0 (codes "ch") both_listen holder shared_context 2 (0 ∷ 1 ∷ []) refl refl
      refl refl (omega arith) refl

-- A connection at rest, which two callers reconnect at once; the link closes and fails to open.
abbrev resting : Connection
resting = record { link = Link.connected; phase = none; waiting = []; settled = []; asked = [] }

abbrev reconnecting : List Step
reconnecting = reconnects 7 ∷ reconnects 8 ∷ closed ∷ failed ∷ reconnects 9 ∷ []

steps-accounted_example :
    (accounted (steps reconnecting resting) ≡ 7 ∷ 8 ∷ 9 ∷ [])
    × IsAnswered (steps reconnecting resting)
steps-accounted_example = steps-accounted reconnecting resting (record { idle = λ e. refl })

-- A connected transport, with a message that it has peeked at and one more in its queue.
abbrev busy_socket : Socket
busy_socket = record {
  state = Queue.connected;
  queue =
      record { promise = 1; channel = codes "ch"; payload = codes "a" }
      ∷ record { promise = 2; channel = codes "ch"; payload = codes "b" }
      ∷ [];
  is_processing = true;
  in_flight = some (record { promise = 1; channel = codes "ch"; payload = codes "a" });
  settled = [];
}

close_transport_lem_example :
    let (s', asked) = close_transport busy_socket 0 subscribed in
    (s'.queue ≡ [])
    × (s'.settled ≡ (1, resolved false) ∷ (2, resolved false) ∷ [])
    × (asked ≡ disconnect subscribed 0)
close_transport_lem_example = close_transport_lem busy_socket 0 subscribed-Reach

-- Two instances are made, and the first disconnects.
abbrev one_left : Hub
one_left = detach 0 (attach_new (attach_new no_hub))

reached_told_example : count (λ (j : ℕ). 1 == j) (told one_left) ≡ one_if (live_at one_left.world 1)
reached_told_example = reached_told 1 (
    Events.next (Events.next (Events.next Events.here Events.constructs) Events.constructs)
      (Events.disconnects 0))
