-- ===== src/Transport/Shared/Misuse.antt =====
-- What happens to the shared connection outside that discipline, and the guard of a proxy.
use mobile_wallet_protocol.Prelude.{
  ℕ, ◌-◌, ◌≡◌, refl, subst, ap, ◌∙◌, Text, without, text_eq_refl, length, get_elem?, set,
  get_elem?-set_self, get_elem?-append_last, length-set, one_if, true, false, none, some, [], ◌∷◌,
  ◌++◌, arith,
}
use mobile_wallet_protocol.Kv.{map_get}
use mobile_wallet_protocol.Transport.Shared.{
  pos, Link, Request, Context, Instance, World, construct, connect, leave, release, disconnect,
  link_closed, new_subscription, publish, remove_subscription, decrement_channel_ref, Proxy,
  unsubscribe, state,
}
use mobile_wallet_protocol.Transport.Shared.Loops.{count_of, count-decrement}

-- Where the last live instance disconnects and another is made before the link has closed, the new
-- one is live when the link closes, and yet `connect` asks for nothing, `newSubscription` throws, and
-- `publish` returns without publishing.
pub late_instance_orphaned :
    (w : World) (i : ℕ) (s : Instance) (c : Context) (channel : Text)
    → get_elem? w.instances i ≡ some s
    → s.disconnected ≡ false
    → w.context ≡ some c
    → c.refcount ≡ pos 1
    → let late = link_closed (construct (disconnect w i).0) in
      (get_elem? late.instances (length w.instances)
        ≡ some (record { channels = []; disconnected = false }))
      × (connect late ≡ [])
      × (new_subscription late (length w.instances) channel ≡ none)
      × (publish late channel ≡ [])
unfolding disconnect leave release construct link_closed connect new_subscription publish
late_instance_orphaned w i s c channel e live at one =
    let new : Instance = record { channels = []; disconnected = false } in
    let gone : Instance = record { channels = []; disconnected = true } in
    let last =
      subst (λ (n : ℕ). get_elem? (set w.instances i gone ++ new ∷ []) n ≡ some new)
        (length-set w.instances i gone) (get_elem?-append_last (set w.instances i gone) new) in
    rw (e, disconnect, live, at, leave, one, release)
      (last, refl, rw (last, new_subscription) refl, refl)

-- A proxy unsubscribes once: its second `unsubscribe` does nothing.
pub unsubscribe_again :
    (w : World) (p : Proxy) → let (u, q) = unsubscribe w p in unsubscribe u q ≡ (u, q)
unfolding unsubscribe
unsubscribe_again w p = ground arith

-- What `getSubscription` returns for a channel.
abbrev pub new_proxy : ℕ → Text → Proxy
new_proxy i channel = record { instance_id = i; channel = channel; has_unsubscribed = false }

pub remove_lem :
    (w : World) (i : ℕ) (channel : Text) (s : Instance) (c : Context)
    → get_elem? w.instances i ≡ some s
    → w.context ≡ some c
    → remove_subscription w i channel ≡ record {
      context = some (record c { subscriptions = decrement_channel_ref channel c.subscriptions });
      instances = set w.instances i (record s { channels = without channel s.channels });
    }
unfolding remove_subscription
remove_lem w i channel s c e at = rw (e, remove_subscription, at)

-- `getSubscription` makes a new proxy on each call, and an instance that unsubscribes by two of
-- them for one channel takes two from the channel's count, down to 0 at most.
pub two_proxies_take_two :
    (w : World) (i : ℕ) (channel : Text) (s : Instance) (c : Context)
    → get_elem? w.instances i ≡ some s
    → w.context ≡ some c
    → (d : Context) × ((unsubscribe
          (unsubscribe w (new_proxy i channel)).0
          (new_proxy i channel)).0.context
        ≡ some d)
      × (count_of (map_get d.subscriptions channel)
          ≡ count_of (map_get c.subscriptions channel) - 2)
unfolding unsubscribe
two_proxies_take_two w i channel s c e at =
    let part : Instance = record s { channels = without channel s.channels } in
    let subs = decrement_channel_ref channel c.subscriptions in
    let once : World = record {
      context = some (record c { subscriptions = subs });
      instances = set w.instances i part;
    } in
    (
      record c { subscriptions = decrement_channel_ref channel subs },
      ap (λ (u : World). (remove_subscription u i channel).context)
            (remove_lem w i channel s c e at)
          ∙ ap (λ (u : World). u.context)
              (remove_lem once i channel part (record c { subscriptions = subs })
                (get_elem?-set_self w.instances i s part e) refl),
      omega (
        arith,
        count-decrement channel channel subs,
        count-decrement channel channel c.subscriptions,
        ap one_if (text_eq_refl channel),
      ),
    )

-- An instance that has disconnected while others keep the link up: `connect` announces a connection
-- that its own `state` denies.
pub connect_after_disconnect :
    (w : World) (i : ℕ) (s : Instance) (c : Context)
    → get_elem? w.instances i ≡ some s
    → s.disconnected ≡ true
    → w.context ≡ some c
    → c.link ≡ Link.connected
    → (connect w ≡ Request.emit_connected ∷ []) × (state w i ≡ Link.disconnected)
unfolding connect state
connect_after_disconnect w i s c e left at up =
    (rw (at, connect, up) refl, rw (e, state, left) refl)
