-- ===== src/Transport/Queue.antt =====
-- packages/core/src/transport/websocket/index.ts: the state of the connection and the queue of
-- outgoing messages.
--
-- `_processQueue` awaits each message, and other calls run while it waits. `Socket` is the state at
-- an `await`: `in_flight` is the item that the loop has peeked at and not yet heard of. A promise is
-- named by its item's number, and `settled` lists what the code does to promises, in order; for the
-- caller the first entry of a promise counts.
pub mod Order
pub mod Loss
pub mod Drain
use mobile_wallet_protocol.Prelude.{
  ℕ, Text, Bool, true, false, not, ◌||◌, Option, none, some, List, [], ◌∷◌, ◌++◌, map,
  if◌then◌else◌,
}

pub data State : Type 0 where
  disconnected connecting connected : State

pub data Outcome : Type 0 where
  resolved : Bool → Outcome
  rejected : Outcome

-- `QueuedItem`.
pub record Item : Type 0 where
  pub promise : ℕ
  pub channel : Text
  pub payload : Text

pub record Socket : Type 0 where
  pub state : State
  pub queue : List Item
  pub is_processing : Bool
  pub in_flight : Option Item
  pub settled : List (ℕ × Outcome)

abbrev pub same_state : State → State → Bool
same_state disconnected disconnected = true
same_state connecting connecting = true
same_state connected connected = true
same_state _ _ = false

-- `setState`: the event is emitted on a change only.
pub set_state : State → Socket → Socket × List State
set_state new s = if same_state s.state new then (s, []) else (record s { state = new }, new ∷ [])

-- The head of the `while` loop: peek at the first item, or leave.
pub peek : List Item → Socket → Socket
peek [] s = record s { in_flight = none; is_processing = false }
peek (item ∷ rest) s = record s { in_flight = some item }

-- `_processQueue` up to its first `await`.
pub process_queue : Socket → Socket
process_queue s =
    if s.is_processing || not (same_state s.state connected)
    then s
    else peek s.queue (record s { is_processing = true })

-- `publish`.
pub publish : Item → Socket → Socket
publish item s = process_queue (record s { queue = s.queue ++ item ∷ [] })

abbrev pub shift : List Item → List Item
shift [] = []
shift (item ∷ rest) = rest

-- The `await` of `_process` is over, with success or an error; the loop goes on.
pub finish : Bool → Socket → Socket
finish ok s = elim s.in_flight [
  | none ↦ s
  | some item ↦ peek (shift s.queue) (record s {
    queue = shift s.queue;
    settled = s.settled ++ (item.promise, if ok then resolved true else rejected) ∷ [];
  })
]

-- The first statements of `disconnect`: every queued message is resolved with `false`.
unfoldable pub cancel_queue : Socket → Socket
cancel_queue s = record s {
  queue = [];
  settled = s.settled ++ map (λ item. (item.promise, resolved false)) s.queue;
}

-- The listeners of the connection's events.
pub on_connecting : Socket → Socket
on_connecting s = (set_state connecting s).0

pub on_connected : Socket → Socket
on_connected s = process_queue (set_state connected s).0

pub on_disconnected : Socket → Socket
on_disconnected s = (set_state disconnected s).0

-- `connect`: whether the connection is asked to connect.
pub connect : Socket → Socket × Bool
connect s =
    if same_state s.state connected || same_state s.state connecting
    then (s, false)
    else ((set_state connecting s).0, true)

-- `disconnect`: whether the connection is asked to disconnect.
unfoldable pub disconnect : Socket → Socket × Bool
disconnect s = (cancel_queue s, not (same_state s.state disconnected))

abbrev pub new_socket : Socket
new_socket = record {
  state = disconnected;
  queue = [];
  is_processing = false;
  in_flight = none;
  settled = [];
}

-- What a socket is told: calls of the client, and events of the connection.
pub data Call : Type 0 where
  publishes : Item → Call
  finishes : Bool → Call
  connects disconnects connecting_event connected_event disconnected_event subscribed_event : Call

unfoldable pub call : Call → Socket → Socket
call (publishes item) s = publish item s
call (finishes ok) s = finish ok s
call connects s = (connect s).0
call disconnects s = (disconnect s).0
call connecting_event s = on_connecting s
call connected_event s = on_connected s
call disconnected_event s = on_disconnected s
call subscribed_event s = process_queue s

unfoldable pub calls : List Call → Socket → Socket
calls [] s = s
calls (c ∷ cs) s = calls cs (call c s)
