-- ===== src/Transport/Shared.antt =====
-- packages/core/src/transport/websocket/shared-centrifuge.ts: one connection for a URL, shared by
-- the instances made for that URL.
--
-- The static map of contexts is seen at one URL, since every method reads and writes it at
-- `this.url` alone: `context` is `contexts.get(url)`. An instance is named by its place in the list.
-- The connection itself is Centrifuge's, outside the repository: its state is a field that only the
-- environment's steps and the calls below change, and what the code asks of it is returned as
-- `Request`s.
pub mod Loops
pub mod Consistent
pub mod Reachable
pub mod Misuse
pub mod Reconnect
pub mod Events
pub mod Closing
pub mod Options
pub mod Channels
use mobile_wallet_protocol.Prelude.{
  ℕ, zero, suc, ◌+◌, ◌-◌, Text, includes, without, length, get_elem?, set, Bool, true, false, not,
  Option, none, some, is_some, List, [], ◌∷◌, ◌++◌, ◌==◌, if◌then◌else◌,
}
use mobile_wallet_protocol.Kv.{Map, map_get, map_set, map_delete}

-- A count that code without a guard can take below 0; `negsuc n` is -(n + 1).
pub data ℤ : Type 0 where
  pos : ℕ → ℤ
  negsuc : ℕ → ℤ

abbrev pub increment : ℤ → ℤ
increment (pos n) = pos (suc n)
increment (negsuc zero) = pos zero
increment (negsuc (suc n)) = negsuc n

abbrev pub decrement : ℤ → ℤ
decrement (pos zero) = negsuc zero
decrement (pos (suc n)) = pos n
decrement (negsuc n) = negsuc (suc n)

abbrev pub is_zero : ℤ → Bool
is_zero (pos zero) = true
is_zero (pos (suc n)) = false
is_zero (negsuc n) = false

pub data Link : Type 0 where
  disconnected connecting connected : Link

-- What the code asks of Centrifuge, and the event that `connect` emits by itself.
pub data Request : Type 0 where
  connect_link disconnect_link emit_connected emit_disconnected : Request
  publish_on : Text → Request

-- `Context`; `closing` says that a callback waits for the link to close and then drops the context.
pub record Context : Type 0 where
  pub refcount : ℤ
  pub subscriptions : Map ℕ
  pub link : Link
  pub closing : Bool

pub record Instance : Type 0 where
  pub channels : List Text
  pub disconnected : Bool

pub record World : Type 0 where
  pub context : Option Context
  pub instances : List Instance

abbrev fresh_context : Context
fresh_context = record {
  refcount = pos 0;
  subscriptions = [];
  link = Link.disconnected;
  closing = false;
}

abbrev context_or_new : Option Context → Context
context_or_new none = fresh_context
context_or_new (some c) = c

-- The constructor: the new instance is the last.
unfoldable pub construct : World → World
construct w = record {
  context = some (record (context_or_new w.context) {
    refcount = increment (context_or_new w.context).refcount;
  });
  instances = w.instances ++ record { channels = []; disconnected = false } ∷ [];
}

-- `connect`: `setImmediate(() => this.emit("connected"))` when the link is up.
pub connect : World → List Request
connect w = elim w.context [
  | none ↦ []
  | some c ↦ elim c.link [
    | Link.connected ↦ emit_connected ∷ []
    | Link.connecting ↦ []
    | Link.disconnected ↦ connect_link ∷ []
  ]
]

-- `decrementChannelRef` on the context's subscriptions.
pub decrement_channel_ref : Text → Map ℕ → Map ℕ
decrement_channel_ref channel subs = elim (map_get subs channel) [
  | none ↦ subs
  | some count ↦
      if count - 1 == 0 then map_delete subs channel else map_set subs channel (count - 1)
]

-- The loop of `disconnect` over the instance's channels.
pub decrement_all : List Text → Map ℕ → Map ℕ
decrement_all [] subs = subs
decrement_all (channel ∷ rest) subs = decrement_all rest (decrement_channel_ref channel subs)

-- What `disconnect` leaves of the context; the last instance starts closing the link.
pub release : List Text → Context → Context
release channels c =
    let count = decrement c.refcount in
    record c {
      refcount = count;
      subscriptions = decrement_all channels c.subscriptions;
      closing = if is_zero count then true else c.closing;
    }

-- `disconnect` of an instance, which emits "disconnected" to its own listeners first.
pub leave : World → ℕ → Instance → Option Context → World × List Request
leave w i s none = (w, [])
leave w i s (some c) = (
  record {
    context = some (release s.channels c);
    instances = set w.instances i (record { channels = []; disconnected = true });
  },
  if is_zero (decrement c.refcount)
      then emit_disconnected ∷ disconnect_link ∷ []
      else emit_disconnected ∷ [],
)

pub disconnect : World → ℕ → World × List Request
unfolding leave
disconnect w i = elim (get_elem? w.instances i) [
  | none ↦ (w, [])
  | some s ↦ if s.disconnected then (w, []) else leave w i s w.context
]

-- Centrifuge reports another state of the link: it connects, or has connected.
abbrev pub with_link : Link → Option Context → Option Context
with_link l none = none
with_link l (some c) = some (record c { link = l })

-- Centrifuge reports that the link has closed: the callback of the last `disconnect` drops the
-- context, whoever uses it by then.
pub link_closed : World → World
link_closed w = elim w.context [
  | none ↦ w
  | some c ↦
      if c.closing
      then record w { context = none }
      else record w { context = some (record c { link = Link.disconnected }) }
]

abbrev add_channel : Text → List Text → List Text
add_channel channel channels =
    if includes channels channel then channels else channels ++ channel ∷ []

-- The count of a channel on one more instance; a channel's first subscription counts 1.
abbrev one_more : Option ℕ → ℕ
one_more none = 1
one_more (some count) = count + 1

unfoldable pub join_channel : Text → Instance → Context → Context
join_channel channel s c = if includes s.channels channel then c else record c {
  subscriptions = map_set c.subscriptions channel (one_more (map_get c.subscriptions channel));
}

-- `newSubscription`; `none` is the exception on a missing context or subscription.
unfoldable pub subscribe_in : World → ℕ → Text → Instance → Option Context → Option World
unfolding join_channel
subscribe_in w i channel s none = none
subscribe_in w i channel s (some c) =
    let joined = join_channel channel s c in
    elim (map_get joined.subscriptions channel) [
      | none ↦ none
      | some count ↦ some (record {
        context = some joined;
        instances = set w.instances i (record s { channels = add_channel channel s.channels });
      })
    ]

unfoldable pub new_subscription : World → ℕ → Text → Option World
unfolding subscribe_in
new_subscription w i channel = elim (get_elem? w.instances i) [
  | none ↦ none
  | some s ↦ subscribe_in w i channel s w.context
]

-- `getSubscription`: whether there is a subscription for the instance.
pub has_subscription : World → ℕ → Text → Bool
has_subscription w i channel = elim (get_elem? w.instances i) [
  | none ↦ false
  | some s ↦ if not (includes s.channels channel) then false else elim w.context [
    | none ↦ false
    | some c ↦ elim (map_get c.subscriptions channel) [ none ↦ false | some count ↦ true ]
  ]
]

abbrev decrement_in : Text → Option Context → Option Context
decrement_in channel none = none
decrement_in channel (some c) =
    some (record c { subscriptions = decrement_channel_ref channel c.subscriptions })

-- `removeSubscription`.
pub remove_subscription : World → ℕ → Text → World
remove_subscription w i channel = elim (get_elem? w.instances i) [
  | none ↦ w
  | some s ↦ record {
    context = decrement_in channel w.context;
    instances = set w.instances i (record s { channels = without channel s.channels });
  }
]

-- `SubscriptionProxy`: the instance and channel that it was made for, and whether it has been
-- unsubscribed.
pub record Proxy : Type 0 where
  pub instance_id : ℕ
  pub channel : Text
  pub has_unsubscribed : Bool

pub unsubscribe : World → Proxy → World × Proxy
unsubscribe w p =
    if p.has_unsubscribed
    then (w, p)
    else (remove_subscription w p.instance_id p.channel, record p { has_unsubscribed = true })

-- `publish`: on a missing context it returns as if it had published.
pub publish : World → Text → List Request
publish w channel = elim w.context [ none ↦ [] | some c ↦ publish_on channel ∷ [] ]

-- `subscriptions`: the channels of the proxies.
pub counted : List Text → Map ℕ → List Text
counted [] subs = []
counted (channel ∷ rest) subs =
    let later = counted rest subs in
    if is_some (map_get subs channel) then channel ∷ later else later

pub subscriptions : World → ℕ → List Text
unfolding counted
subscriptions w i = elim (get_elem? w.instances i) [
  | none ↦ []
  | some s ↦ elim w.context [ none ↦ [] | some c ↦ counted s.channels c.subscriptions ]
]

-- `state`: an instance that has disconnected says so whatever the link does.
pub state : World → ℕ → Link
state w i = elim (get_elem? w.instances i) [
  | none ↦ Link.disconnected
  | some s ↦
      if s.disconnected
      then Link.disconnected
      else elim w.context [ none ↦ Link.disconnected | some c ↦ c.link ]
]
