-- ===== src/Transport/Shared/Channels.antt =====
-- packages/core/src/transport/websocket/index.ts: `subscribe` and `clear` over a shared connection,
-- and whose listeners are on a channel's subscription.
--
-- A transport is the instance of the shared connection that it made. `listeners` has, for each
-- subscription of Centrifuge, the transports whose `publication` listener was put on it, once for
-- each time: `SubscriptionProxy.on` puts it on the subscription itself, where it stays until
-- Centrifuge is told to remove the subscription.
use mathlib.Core.Option.{some-injective}
use mobile_wallet_protocol.Prelude.{
  ℕ, ◌-◌, ◌<◌, ◌≡◌, refl, ◌∙◌, sym, Text, text_eq_refl, includes, includes-append, includes-without,
  without, subst, get_elem?, set, get_elem?-set_self, Bool, true, false, Option, none, some, List,
  [], ◌∷◌, ◌++◌, arith, if◌then◌else◌, Bool-cases, Option-cases, inl, inr, is_some,
}
use mobile_wallet_protocol.Kv.{Map, map_get, map_set, map_delete, map_get-map_set}
use mobile_wallet_protocol.Transport.Shared.Misuse.{remove_lem}
use mobile_wallet_protocol.Transport.Shared.{
  Context, Instance, World, decrement_channel_ref, one_more, join_channel, add_channel,
  subscribe_in, new_subscription, has_subscription, remove_subscription,
}

pub record Relay : Type 0 where
  pub world : World
  pub listeners : Map (List ℕ)

abbrev pub owners : Option (List ℕ) → List ℕ
owners none = []
owners (some ids) = ids

-- Whether Centrifuge still has a subscription for the channel.
abbrev is_kept : Text → Option Context → Bool
is_kept channel none = false
is_kept channel (some c) = is_some (map_get c.subscriptions channel)

-- `subscribe` up to the wait: the listeners are put on a new proxy only. `none` is an exception.
pub attach : ℕ → Text → Relay → Option World → Option Relay
attach i channel r none = none
attach i channel r (some w) = some (record {
  world = w;
  listeners = map_set r.listeners channel (owners (map_get r.listeners channel) ++ i ∷ []);
})

pub subscribe : ℕ → Text → Relay → Option Relay
subscribe i channel r =
    if has_subscription r.world i channel
    then some r
    else attach i channel r (new_subscription r.world i channel)

-- `clear`, past the storage: the listeners go with Centrifuge's subscription.
pub clear : ℕ → Text → Relay → Relay
clear i channel r =
    if has_subscription r.world i channel
    then (let w = remove_subscription r.world i channel in
        record {
          world = w;
          listeners =
              if is_kept channel w.context then r.listeners else map_delete r.listeners channel;
        })
    else r

has_subscription_lem :
    (w : World) (i : ℕ) (channel : Text) (s : Instance) (c : Context)
    → get_elem? w.instances i ≡ some s
    → w.context ≡ some c
    → has_subscription w i channel
      ≡ (if includes s.channels channel then is_some (map_get c.subscriptions channel) else false)
unfolding has_subscription
has_subscription_lem w i channel s c e at = rw (e, has_subscription, at) (ground arith)

map_get-set_self {ℓ} :
    {V : Type ℓ} (m : Map V) (k : Text) (v : V) → map_get (map_set m k v) k ≡ some v
map_get-set_self m k v = map_get-map_set m k k v ∙ (rw (text_eq_refl k) refl)

-- An instance that does not hold the channel yet joins it.
joined : Text → Instance → Context → Context
joined channel s c = join_channel channel s c

with_channel : ℕ → Text → Instance → Context → World → World
with_channel i channel s c w = record {
  context = some (joined channel s c);
  instances = set w.instances i (record s { channels = add_channel channel s.channels });
}

new_subscription_lem :
    (w : World) (i : ℕ) (channel : Text) (s : Instance) (c : Context)
    → get_elem? w.instances i ≡ some s
    → w.context ≡ some c
    → includes s.channels channel ≡ false
    → new_subscription w i channel ≡ some (with_channel i channel s c w)
unfolding new_subscription subscribe_in with_channel joined join_channel
new_subscription_lem w i channel s c e at fresh =
    rw (e, new_subscription, at, subscribe_in, join_channel, fresh)
      (ground (
        arith,
        map_get-map_set c.subscriptions channel channel
            (one_more (map_get c.subscriptions channel)),
        text_eq_refl channel,
      ))

with_channel-held :
    (w : World) (i : ℕ) (channel : Text) (s : Instance) (c : Context)
    → get_elem? w.instances i ≡ some s
    → includes s.channels channel ≡ false
    → has_subscription (with_channel i channel s c w) i channel ≡ true
unfolding with_channel joined join_channel
with_channel-held w i channel s c e fresh =
    let s' : Instance = record s { channels = add_channel channel s.channels } in
    has_subscription_lem (with_channel i channel s c w) i channel s' (joined channel s c)
      (get_elem?-set_self w.instances i s s' e) refl
    ∙ ground (
      arith,
      fresh,
      includes-append channel channel s.channels,
      map_get-map_set c.subscriptions channel channel (one_more (map_get c.subscriptions channel)),
      text_eq_refl channel,
    )

new_subscription-held :
    (w u : World) (i : ℕ) (channel : Text)
    → has_subscription w i channel ≡ false
    → new_subscription w i channel ≡ some u
    → has_subscription u i channel ≡ true
unfolding new_subscription subscribe_in has_subscription
new_subscription-held w u i channel out made = elim (Option-cases (get_elem? w.instances i)) [
  | inl missing ↦ absurd (cc (rw (missing, new_subscription) at made))
  | inr (s, e) ↦ elim (Option-cases w.context) [
    | inl gone ↦ absurd (cc (rw (e, new_subscription, gone, subscribe_in) at made))
    | inr (c, at) ↦ elim (Bool-cases (includes s.channels channel)) [
      | inl known ↦ elim (Option-cases (map_get c.subscriptions channel)) [
        | inl uncounted ↦ absurd (
            cc (rw (e, new_subscription, at, subscribe_in, join_channel, known, uncounted) at made))
        | inr (count, counted) ↦
            absurd (cc (rw (has_subscription_lem w i channel s c e at, known, counted) at out))
      ]
      | inr fresh ↦
          let joins =
            some-injective _ _ (sym (new_subscription_lem w i channel s c e at fresh) ∙ made) in
          subst (λ (v : World). has_subscription v i channel ≡ true) joins
            (with_channel-held w i channel s c e fresh)
    ]
  ]
]

-- A transport that subscribes again to a channel puts no second listener on it.
pub subscribe_again :
    (i : ℕ) (channel : Text) (r u : Relay)
    → subscribe i channel r ≡ some u
    → subscribe i channel u ≡ some u
unfolding subscribe attach
subscribe_again i channel r u e = elim (Bool-cases (has_subscription r.world i channel)) [
  | inl had ↦ ground arith
  | inr fresh ↦ elim (Option-cases (new_subscription r.world i channel)) [
    | inl refused ↦ absurd (ground arith)
    | inr (w, made) ↦ ground (arith, new_subscription-held r.world w i channel fresh made)
  ]
]

-- A count above one does not go when it is decremented.
decrement_kept :
    (channel : Text) (subs : Map ℕ) (count : ℕ)
    → map_get subs channel ≡ some count
    → 1 < count
    → is_some (map_get (decrement_channel_ref channel subs) channel) ≡ true
unfolding decrement_channel_ref
decrement_kept channel subs count e more = ground (arith, map_get-set_self subs channel (count - 1))

-- Where another instance holds the channel too, a transport that clears it leaves its listener
-- there, and one more is put on it when the transport subscribes again.
pub clear_leaves_listener :
    (i : ℕ) (channel : Text) (r : Relay) (s : Instance) (c : Context) (count : ℕ) (ids : List ℕ)
    → get_elem? r.world.instances i ≡ some s
    → includes s.channels channel ≡ true
    → r.world.context ≡ some c
    → map_get c.subscriptions channel ≡ some count
    → 1 < count
    → map_get r.listeners channel ≡ some ids
    → (map_get (clear i channel r).listeners channel ≡ some ids)
      × (u : Relay) × (subscribe i channel (clear i channel r) ≡ some u)
      × (map_get u.listeners channel ≡ some (ids ++ i ∷ []))
unfolding clear subscribe attach
clear_leaves_listener i channel r s c count ids e held at counted more listening =
    let s' : Instance = record s { channels = without channel s.channels } in
    let c' : Context = record c { subscriptions = decrement_channel_ref channel c.subscriptions } in
    let w' : World = record { context = some c'; instances = set r.world.instances i s' } in
    let kept = decrement_kept channel c.subscriptions count counted more in
    let cleared : clear i channel r ≡ record { world = w'; listeners = r.listeners } =
      rw
        (
          has_subscription_lem r.world i channel s c e at,
          held,
          counted,
          remove_lem r.world i channel s c e at,
          kept,
        )
        refl in
    let out : includes s'.channels channel ≡ false =
      includes-without channel channel s.channels ∙ (rw (text_eq_refl channel) refl) in
    let u : Relay = record {
      world = with_channel i channel s' c' w';
      listeners = map_set r.listeners channel (ids ++ i ∷ []);
    } in
    rw cleared (
      listening,
      u,
      rw
          (
            has_subscription_lem w' i channel s' c' (get_elem?-set_self r.world.instances i s s' e)
                refl,
            out,
            new_subscription_lem w' i channel s' c' (get_elem?-set_self r.world.instances i s s' e)
                refl out,
            listening,
          )
          refl,
      map_get-set_self r.listeners channel (ids ++ i ∷ []),
    )
