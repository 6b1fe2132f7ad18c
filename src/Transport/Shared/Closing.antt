-- ===== src/Transport/Shared/Closing.antt =====
-- packages/core/src/transport/websocket/index.ts: `disconnect` of a transport over a shared
-- connection.
use mobile_wallet_protocol.Prelude.{
  ℕ, zero, suc, ◌<◌, ◌≡◌, refl, sym, ap, ◌∙◌, subst, Text, text_eq_refl, includes, without,
  includes-without, get_elem?, set, get_elem?-set_self, count, count-set, one_if, All-get_elem?,
  true, false, some, List, [], ◌∷◌, arith, ◌++◌, map, if◌then◌else◌, Option-cases, Bool-cases, inl,
  inr,
}
use mobile_wallet_protocol.Kv.{Map, map_get}
use mobile_wallet_protocol.Transport.Queue
use mobile_wallet_protocol.Transport.Queue.{Socket, resolved, same_state, cancel_queue}
use mobile_wallet_protocol.Transport.Shared.{
  Request, Context, Instance, World, decrement, is_zero, decrement_channel_ref, decrement_all,
  release, leave, disconnect, remove_subscription, counted, subscriptions,
}
use mobile_wallet_protocol.Transport.Shared.Loops.{count_of}
use mobile_wallet_protocol.Transport.Shared.Consistent.{
  gone, holds, IsTidy, Agrees, AgreesIf, IsConsistent,
}
use mobile_wallet_protocol.Transport.Shared.Misuse.{remove_lem}
use mobile_wallet_protocol.Transport.Shared.Reachable.{Reach, initial, Reach-IsConsistent}

-- The loop over the subscriptions.
pub remove_each : List Text → ℕ → World → World
remove_each [] i w = w
remove_each (channel ∷ rest) i w = remove_each rest i (remove_subscription w i channel)

-- What the connection is told once the queue is empty, unless the transport is disconnected.
close_connection : ℕ → World → World × List Request
unfolding remove_each
close_connection i w = disconnect (remove_each (subscriptions w i) i w) i

-- `disconnect` of the transport whose queue and state are `s`, over its instance `i`.
pub close_transport : Socket → ℕ → World → Socket × (World × List Request)
unfolding close_connection
close_transport s i w =
    let (s', asks) = Queue.disconnect s in (s', if asks then close_connection i w else (w, []))

without_all : List Text → List Text → List Text
without_all [] xs = xs
without_all (channel ∷ rest) xs = without_all rest (without channel xs)

includes-without_all :
    (chs xs : List Text) (b : Text)
    → includes (without_all chs xs) b ≡ (if includes chs b then false else includes xs b)
unfolding without_all includes
includes-without_all [] xs b = ground arith
includes-without_all (channel ∷ rest) xs b =
    ground (arith, includes-without_all rest (without channel xs) b, includes-without channel b xs)

nothing_included : (xs : List Text) → ((b : Text) → includes xs b ≡ false) → xs ≡ []
unfolding includes
nothing_included [] h = refl
nothing_included (x ∷ xs) h = ground (arith, h x, text_eq_refl x)

without_all_self : (xs : List Text) → without_all xs xs ≡ []
without_all_self xs =
    nothing_included (without_all xs xs)
      (λ (b : Text). ground (arith, includes-without_all xs xs b))

set-set : (xs : List Instance) (i : ℕ) (a b : Instance) → set (set xs i a) i b ≡ set xs i b
set-set [] i a b = refl
set-set (x ∷ xs) zero a b = refl
set-set (x ∷ xs) (suc i) a b = ap (◌∷◌ x) (set-set xs i a b)

requests : Context → List Request
requests c =
    if is_zero (decrement c.refcount)
    then Request.emit_disconnected ∷ Request.disconnect_link ∷ []
    else Request.emit_disconnected ∷ []

-- What `disconnect` leaves, given what is left of the instance's channels and of the counts.
left_by : World → ℕ → List Text → Context → World × List Request
left_by w i channels c =
    (record { context = some (release channels c); instances = set w.instances i gone }, requests c)

disconnect_live :
    (w : World) (i : ℕ) (s : Instance) (c : Context)
    → get_elem? w.instances i ≡ some s
    → s.disconnected ≡ false
    → w.context ≡ some c
    → disconnect w i ≡ left_by w i s.channels c
unfolding disconnect leave left_by requests
disconnect_live w i s c e live at = rw (e, disconnect, live, at, leave) refl

removed_then :
    (chs : List Text) (w : World) (i : ℕ) (s : Instance) (c : Context)
    → get_elem? w.instances i ≡ some s
    → s.disconnected ≡ false
    → w.context ≡ some c
    → disconnect (remove_each chs i w) i
      ≡ left_by w i
          (without_all chs s.channels)
          (record c { subscriptions = decrement_all chs c.subscriptions })
unfolding remove_each without_all decrement_all left_by requests
removed_then [] w i s c e live at = disconnect_live w i s c e live at
removed_then (channel ∷ rest) w i s c e live at =
    let s' : Instance = record s { channels = without channel s.channels } in
    let c' : Context = record c { subscriptions = decrement_channel_ref channel c.subscriptions } in
    let w' : World = record { context = some c'; instances = set w.instances i s' } in
    let c'' : Context = record c {
      subscriptions = decrement_all (channel ∷ rest) c.subscriptions;
    } in
    ap (λ (u : World). disconnect (remove_each rest i u) i) (remove_lem w i channel s c e at)
    ∙ removed_then rest w' i s' c' (get_elem?-set_self w.instances i s s' e) live refl
    ∙ ap
        (λ (xs : List Instance). (
          record {
            context = some (release (without_all rest (without channel s.channels)) c'');
            instances = xs;
          },
          requests c'',
        ))
        (set-set w.instances i s' gone)

-- A held channel is counted.
held_counted :
    (xs : List Instance) (i : ℕ) (s : Instance) (j : Text)
    → get_elem? xs i ≡ some s
    → includes s.channels j ≡ true
    → 0 < count (holds j) xs
unfolding includes
held_counted xs i s j e h = omega (arith, count-set (holds j) xs i s gone e, ap one_if h)

counted_all :
    (chs : List Text) (subs : Map ℕ)
    → ((j : Text) → includes chs j ≡ true → 0 < count_of (map_get subs j))
    → counted chs subs ≡ chs
unfolding counted includes
counted_all [] subs h = refl
counted_all (channel ∷ rest) subs h = ground (
  arith,
  h channel,
  text_eq_refl channel,
  counted_all rest subs (λ (j : Text) (p : includes rest j ≡ true). h j (ground (arith, p))),
)

close_live :
    (w : World) (i : ℕ) (s : Instance) (c : Context)
    → IsConsistent w
    → get_elem? w.instances i ≡ some s
    → s.disconnected ≡ false
    → w.context ≡ some c
    → close_connection i w ≡ disconnect w i
unfolding close_connection subscriptions left_by requests release decrement_all
close_live w i s c v e live at =
    let a : Agrees w.instances c = subst (AgreesIf w.instances) at v.agrees in
    let all : counted s.channels c.subscriptions ≡ s.channels =
      counted_all s.channels c.subscriptions (λ (j : Text) (p : includes s.channels j ≡ true).
        subst (λ (n : ℕ). 0 < n) (sym (a.counts j)) (held_counted w.instances i s j e p)) in
    let every : subscriptions w i ≡ s.channels = rw (e, subscriptions, at) all in
    let c' : Context = record c { subscriptions = decrement_all s.channels c.subscriptions } in
    ap (λ (chs : List Text). disconnect (remove_each chs i w) i) every
    ∙ removed_then s.channels w i s c e live at
    ∙ ap (λ (chs : List Text). left_by w i chs c') (without_all_self s.channels)
    ∙ sym (disconnect_live w i s c e live at)

close_nothing : (w : World) (i : ℕ) → subscriptions w i ≡ [] → close_connection i w ≡ disconnect w i
unfolding close_connection remove_each
close_nothing w i e = ap (λ (chs : List Text). disconnect (remove_each chs i w) i) e

close_connection_lem : {w : World} (i : ℕ) → Reach initial w → close_connection i w ≡ disconnect w i
unfolding subscriptions counted
close_connection_lem {w} i r = elim (Option-cases (get_elem? w.instances i)) [
  | inl missing ↦ close_nothing w i (rw (missing, subscriptions) refl)
  | inr (s, e) ↦ elim (Option-cases w.context) [
    | inl alone ↦ close_nothing w i (rw (e, subscriptions, alone) refl)
    | inr (c, at) ↦ elim (Bool-cases s.disconnected) [
      | inl left ↦
          let tidy : IsTidy s =
            All-get_elem? IsTidy w.instances i s (Reach-IsConsistent r).tidy e in
          close_nothing w i (rw (e, subscriptions, at, tidy.left left) refl)
      | inr live ↦ close_live w i s c (Reach-IsConsistent r) e live at
    ]
  ]
]

-- In every state that the shared connection reaches, whether its link is up or not, and whatever is
-- queued, a transport that disconnects resolves every queued message with `false` and empties its
-- queue. Where it is not disconnected, removing its subscriptions one by one and then disconnecting
-- its instance leaves the shared connection as the instance's own disconnect does, and asks the same
-- of it; where it is disconnected already, the shared connection is left alone.
pub close_transport_lem :
    {w : World} (s : Socket) (i : ℕ)
    → Reach initial w
    → let (s', asked) = close_transport s i w in
      (s'.queue ≡ [])
      × (s'.settled ≡ s.settled ++ map (λ item. (item.promise, resolved false)) s.queue)
      × (asked ≡ (if same_state s.state Queue.disconnected then (w, []) else disconnect w i))
unfolding close_transport Queue.disconnect cancel_queue
close_transport_lem {w} s i r = (refl, refl, ground (arith, close_connection_lem i r))
