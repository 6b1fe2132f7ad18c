-- ===== src/Tests/Sockets.antt =====
-- The theorems on the transport at concrete messages, calls and instances.
use mobile_wallet_protocol.Prelude.{
  ◌+◌, count, AllDistinct, ℕ, ◌≡◌, ◌++◌, refl, codes, text_eq, map, true, false, none, some, List,
  [], ◌∷◌, arith,
}
use mobile_wallet_protocol.Json.{Json, Str, text, json, object, field, no_fields}
use mobile_wallet_protocol.Kv.{in_memory, map_get, Map}
use mobile_wallet_protocol.Transport.Storage.{get_latest_nonces, clear}
use mobile_wallet_protocol.Transport.Storage.Nonces.{clear_lem}
use mobile_wallet_protocol.Transport.Incoming.{
  TransportMessage, handle_incoming, handle_all, message,
}
use mobile_wallet_protocol.Transport.Incoming.Once.{deliveries, handle_twice}
use mobile_wallet_protocol.Transport.Incoming.Race.{overlap, overlap_duplicates}
use mobile_wallet_protocol.Transport.Queue.{
  Item, Socket, Call, publishes, finishes, connects, connected_event, disconnects, calls, peek,
  new_socket, Outcome, finish, publish, disconnect,
}
use mobile_wallet_protocol.Transport.Queue
use mobile_wallet_protocol.Transport.Direct.{Direct, Step, steps, promises}
use mobile_wallet_protocol.Transport.Direct.Accounted.{is, transport_accounted}
use mobile_wallet_protocol.Transport.Queue.Order.{accounted, published_all, fifo}
use mobile_wallet_protocol.Transport.Queue.Drain.{queue_drains}
use mobile_wallet_protocol.Transport.Queue.Loss.{IsBusy, calls-IsBusy, disconnect_drops_next}

abbrev raw_message : Str
raw_message = json (
    object (
      field (codes "clientId") (Json.string (codes "peer")) (
        field (codes "nonce") (Json.number 1)
          (field (codes "payload") (Json.string (codes "hi")) no_fields))))

handle_twice_example :
    deliveries
      (handle_incoming in_memory (codes "me") (codes "ch") raw_message (
        handle_all in_memory
          (codes "me")
          ((codes "ch", text (codes "junk")) ∷ [])
          (handle_incoming in_memory (codes "me") (codes "ch") raw_message []).1)).0
    ≡ []
handle_twice_example =
    handle_twice in_memory (codes "me") (codes "ch") raw_message
      ((codes "ch", text (codes "junk")) ∷ []) []

-- The storage of a channel that has been cleared, on which nothing was sent or seen.
abbrev cleared : Map Str
cleared = clear in_memory (codes "me") (codes "ch") []

nothing_seen : get_latest_nonces in_memory (codes "me") (codes "ch") cleared ≡ some []
unfolding text_eq
nothing_seen = (clear_lem in_memory (codes "me") (codes "ch") (codes "ch") []).1

abbrev from_peer : TransportMessage
from_peer = record { client_id = codes "peer"; nonce = 1; payload = codes "hi" }

overlap_duplicates_example :
    (overlap in_memory (codes "me") (codes "ch") from_peer from_peer cleared).0
    ≡ message (codes "ch") (codes "hi") ∷ message (codes "ch") (codes "hi") ∷ []
unfolding map_get text_eq
overlap_duplicates_example =
    overlap_duplicates in_memory (codes "me") (codes "ch") from_peer [] cleared refl nothing_seen
      (omega arith)

abbrev first_item : Item
first_item = record { promise = 1; channel = codes "ch"; payload = codes "a" }

abbrev second_item : Item
second_item = record { promise = 2; channel = codes "ch"; payload = codes "b" }

abbrev session_calls : List Call
session_calls =
    publishes first_item
    ∷ connected_event
    ∷ publishes second_item
    ∷ finishes true
    ∷ finishes false
    ∷ []

fifo_example : accounted (calls session_calls new_socket) ≡ published_all session_calls
fifo_example = fifo session_calls (tt, (tt, (tt, (tt, (tt, tt)))))

new_socket-IsBusy : IsBusy new_socket
new_socket-IsBusy = record { works = λ e. cc; rests = λ e. refl }

calls-IsBusy_example : IsBusy (calls session_calls new_socket)
calls-IsBusy_example = calls-IsBusy session_calls new_socket new_socket-IsBusy

-- The first message is in flight.
abbrev sending : Socket
sending = record {
  state = Queue.State.connected;
  queue = first_item ∷ [];
  is_processing = true;
  in_flight = some first_item;
  settled = [];
}

disconnect_drops_next_example :
    let t = finish true (publish second_item (disconnect sending).0) in
    (t.queue ≡ [])
    × (t.in_flight ≡ none)
    × (t.settled
        ≡ ([] ++ map (λ (item : Item). (item.promise, Outcome.resolved false)) (first_item ∷ []))
          ++ (1, Outcome.resolved true) ∷ [])
disconnect_drops_next_example = disconnect_drops_next sending first_item second_item true refl refl

-- Two messages are queued, of which the second fails.
abbrev two_queued : Socket
two_queued = record sending { queue = first_item ∷ second_item ∷ []; in_flight = none }

queue_drains_example :
    let t = calls (map finishes (true ∷ false ∷ [])) (peek two_queued.queue two_queued) in
    (t.queue ≡ [])
    × (t.in_flight ≡ none)
    × (t.is_processing ≡ false)
    × (t.settled ≡ (1, Outcome.resolved true) ∷ (2, Outcome.rejected) ∷ [])
queue_drains_example = queue_drains (true ∷ false ∷ []) two_queued refl

-- A transport that nobody has connected yet, and a session of it: it is connected, subscribes,
-- reconnects twice, publishes and is told of an error before the link opens.
abbrev new_direct : Direct
new_direct = record {
  socket = new_socket;
  waiting = [];
  closing = [];
  settled = [];
  subscriptions = [];
  asked = [];
}

abbrev direct_session : List Step
direct_session =
    Step.connects 4
    ∷ Step.link_opened
    ∷ Step.subscribes (codes "ch")
    ∷ Step.reconnects 5
    ∷ Step.publishes first_item
    ∷ Step.link_failed
    ∷ Step.reconnects 6
    ∷ Step.link_opened
    ∷ []

transport_accounted_example :
    ((j : ℕ)
      → promises j (steps direct_session new_direct)
        ≡ promises j new_direct + count (is j) (4 ∷ 5 ∷ 6 ∷ []))
    × ((steps direct_session new_direct).socket
        ≡ calls
            (Call.connects ∷ connected_event ∷ publishes first_item ∷ connected_event ∷ [])
            new_socket)
    × AllDistinct (steps direct_session new_direct).subscriptions
transport_accounted_example = transport_accounted direct_session new_direct tt
