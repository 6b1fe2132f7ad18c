-- ===== src/Transport/Direct.antt =====
-- packages/core/src/transport/websocket/index.ts: the transport over a connection of its own, that
-- no other instance shares.
--
-- A caller of `connect`, `disconnect` or `reconnect` is a number. `waiting` has the callers whose
-- promise waits for the link to open, in order, and whether an error of the link rejects it;
-- `closing` those that wait for it to close. `subscriptions` is Centrifuge's, and a transport's
-- listeners are on each of them.
pub mod Accounted
use mobile_wallet_protocol.Prelude.{
  ℕ, ◌+◌, ◌≡◌, refl, ap, sym, ◌∙◌, Text, includes, without, AllDistinct, append-AllDistinct,
  without-AllDistinct, count, count-append, Bool, true, false, ◌==◌, List, [], ◌∷◌, ◌++◌, arith,
  if◌then◌else◌, Bool-cases, inl, inr,
}
use mobile_wallet_protocol.Transport.Queue
use mobile_wallet_protocol.Transport.Queue.{
  Item, Socket, Call, same_state, publish, finish, process_queue, on_connecting, on_connected,
  on_disconnected, call, calls,
}

pub data Request : Type 0 where
  connect_link disconnect_link : Request

pub record Direct : Type 0 where
  pub socket : Socket
  pub waiting : List (ℕ × Bool)
  pub closing : List ℕ
  pub settled : List (ℕ × Bool)
  pub subscriptions : List Text
  pub asked : List Request

-- `connect`: a promise that is resolved at once, or one that waits.
pub connect : ℕ → Direct → Direct
connect caller d =
    let (s, asks) = Queue.connect d.socket in
    if asks
    then record d {
      socket = s;
      waiting = d.waiting ++ (caller, false) ∷ [];
      asked = d.asked ++ connect_link ∷ [];
    }
    else record d { socket = s; settled = d.settled ++ (caller, true) ∷ [] }

-- `disconnect`, which removes the subscriptions.
pub disconnect : ℕ → Direct → Direct
disconnect caller d =
    let (s, asks) = Queue.disconnect d.socket in
    if asks
    then record d {
      socket = s;
      closing = d.closing ++ caller ∷ [];
      subscriptions = [];
      asked = d.asked ++ disconnect_link ∷ [];
    }
    else record d { socket = s; settled = d.settled ++ (caller, true) ∷ [] }

-- `reconnect`: while the link is connecting it waits for that; it keeps the subscriptions.
pub reconnect : ℕ → Direct → Direct
reconnect caller d =
    if same_state d.socket.state Queue.State.connecting
    then record d { waiting = d.waiting ++ (caller, false) ∷ [] }
    else record d {
      waiting = d.waiting ++ (caller, true) ∷ [];
      asked = d.asked ++ disconnect_link ∷ connect_link ∷ [];
    }

-- `subscribe` up to the wait.
pub subscribe : Text → Direct → Direct
subscribe channel d =
    if includes d.subscriptions channel
    then d
    else record d { subscriptions = d.subscriptions ++ channel ∷ [] }

-- `clear`, past the storage.
pub clear : Text → Direct → Direct
clear channel d = record d { subscriptions = without channel d.subscriptions }

abbrev resolve_all : List ℕ → List (ℕ × Bool)
resolve_all [] = []
resolve_all (caller ∷ rest) = (caller, true) ∷ resolve_all rest

abbrev pub callers : List (ℕ × Bool) → List ℕ
callers [] = []
callers ((caller, ok) ∷ rest) = caller ∷ callers rest

-- The promises that an error rejects, and those that go on waiting.
abbrev rejected : List (ℕ × Bool) → List (ℕ × Bool)
rejected [] = []
rejected ((caller, true) ∷ rest) = (caller, false) ∷ rejected rest
rejected ((caller, false) ∷ rest) = rejected rest

abbrev patient : List (ℕ × Bool) → List (ℕ × Bool)
patient [] = []
patient ((caller, true) ∷ rest) = patient rest
patient ((caller, false) ∷ rest) = (caller, false) ∷ patient rest

-- The events of the link.
pub opened : Direct → Direct
opened d = record d {
  socket = on_connected d.socket;
  waiting = [];
  settled = d.settled ++ resolve_all (callers d.waiting);
}

pub closed : Direct → Direct
closed d = record d {
  socket = on_disconnected d.socket;
  closing = [];
  settled = d.settled ++ resolve_all d.closing;
}

pub failed : Direct → Direct
failed d = record d { waiting = patient d.waiting; settled = d.settled ++ rejected d.waiting }

pub data Step : Type 0 where
  connects disconnects reconnects : ℕ → Step
  subscribes clears : Text → Step
  publishes : Item → Step
  finishes : Bool → Step
  link_connecting link_opened link_closed link_failed subscribed : Step

pub step : Step → Direct → Direct
step (connects caller) d = connect caller d
step (disconnects caller) d = disconnect caller d
step (reconnects caller) d = reconnect caller d
step (subscribes channel) d = subscribe channel d
step (clears channel) d = clear channel d
step (publishes item) d = record d { socket = publish item d.socket }
step (finishes ok) d = record d { socket = finish ok d.socket }
step link_connecting d = record d { socket = on_connecting d.socket }
step link_opened d = opened d
step link_closed d = closed d
step link_failed d = failed d
step subscribed d = record d { socket = process_queue d.socket }

pub steps : List Step → Direct → Direct
steps [] d = d
steps (s ∷ rest) d = steps rest (step s d)

-- What the queue sees of a step.
abbrev queue_call : Step → List Call
queue_call (connects caller) = Call.connects ∷ []
queue_call (disconnects caller) = Call.disconnects ∷ []
queue_call (reconnects caller) = []
queue_call (subscribes channel) = []
queue_call (clears channel) = []
queue_call (publishes item) = Call.publishes item ∷ []
queue_call (finishes ok) = Call.finishes ok ∷ []
queue_call link_connecting = Call.connecting_event ∷ []
queue_call link_opened = Call.connected_event ∷ []
queue_call link_closed = Call.disconnected_event ∷ []
queue_call link_failed = []
queue_call subscribed = Call.subscribed_event ∷ []

abbrev pub queue_calls : List Step → List Call
queue_calls [] = []
queue_calls (s ∷ rest) = queue_call s ++ queue_calls rest

-- Who calls for a promise in a step.
abbrev caller_of : Step → List ℕ
caller_of (connects caller) = caller ∷ []
caller_of (disconnects caller) = caller ∷ []
caller_of (reconnects caller) = caller ∷ []
caller_of _ = []

abbrev pub all_callers : List Step → List ℕ
all_callers [] = []
all_callers (s ∷ rest) = caller_of s ++ all_callers rest

-- How many promises a caller has.
abbrev pub promises : ℕ → Direct → ℕ
promises j d =
    count (λ (k : ℕ). j == k) (callers d.settled)
    + count (λ (k : ℕ). j == k) (callers d.waiting)
    + count (λ (k : ℕ). j == k) d.closing
