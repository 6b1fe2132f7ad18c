-- ===== src/Transport/Direct/Accounted.antt =====
-- The promises, the queue and the subscriptions of a transport over a connection of its own.
use mobile_wallet_protocol.Prelude.{
  ℕ, ◌+◌, ◌≡◌, refl, ap, sym, ◌∙◌, includes, AllDistinct, append-AllDistinct, without-AllDistinct,
  count, count-append, Bool, true, false, ◌==◌, List, [], ◌∷◌, ◌++◌, arith, Bool-cases, inl, inr,
}
use mobile_wallet_protocol.Transport.Queue.{Socket, Call, call, calls}
use mobile_wallet_protocol.Transport.Direct.{
  Direct, connect, disconnect, reconnect, subscribe, clear, opened, closed, failed, resolve_all,
  callers, rejected, patient, Step, connects, disconnects, reconnects, subscribes, clears,
  publishes, finishes, link_connecting, link_opened, link_closed, link_failed, subscribed, step,
  steps, queue_call, queue_calls, caller_of, all_callers, promises,
}

abbrev pub is : ℕ → ℕ → Bool
is j k = j == k

callers-append : (xs ys : List (ℕ × Bool)) → callers (xs ++ ys) ≡ callers xs ++ callers ys
callers-append [] ys = refl
callers-append ((caller, ok) ∷ xs) ys = ap (◌∷◌ caller) (callers-append xs ys)

callers-resolve : (xs : List ℕ) → callers (resolve_all xs) ≡ xs
callers-resolve [] = refl
callers-resolve (x ∷ xs) = ap (◌∷◌ x) (callers-resolve xs)

count-callers_append :
    (j : ℕ) (xs ys : List (ℕ × Bool))
    → count (is j) (callers (xs ++ ys)) ≡ count (is j) (callers xs) + count (is j) (callers ys)
count-callers_append j xs ys =
    ap (count (is j)) (callers-append xs ys) ∙ count-append (is j) (callers xs) (callers ys)

count-split :
    (j : ℕ) (xs : List (ℕ × Bool))
    → count (is j) (callers (rejected xs)) + count (is j) (callers (patient xs))
      ≡ count (is j) (callers xs)
count-split j [] = refl
count-split j ((caller, true) ∷ xs) = omega (arith, count-split j xs)
count-split j ((caller, false) ∷ xs) = omega (arith, count-split j xs)

step-promises :
    (j : ℕ) (s : Step) (d : Direct)
    → promises j (step s d) ≡ promises j d + count (is j) (caller_of s)
unfolding step connect disconnect reconnect subscribe clear opened closed failed
step-promises j (connects caller) d = ground (
  arith,
  count-callers_append j d.settled ((caller, true) ∷ []),
  count-callers_append j d.waiting ((caller, false) ∷ []),
)
step-promises j (disconnects caller) d = ground (
  arith,
  count-callers_append j d.settled ((caller, true) ∷ []),
  count-append (is j) d.closing (caller ∷ []),
)
step-promises j (reconnects caller) d = ground (
  arith,
  count-callers_append j d.waiting ((caller, false) ∷ []),
  count-callers_append j d.waiting ((caller, true) ∷ []),
)
step-promises j (subscribes channel) d = ground arith
step-promises j (clears channel) d = omega arith
step-promises j (publishes item) d = omega arith
step-promises j (finishes ok) d = omega arith
step-promises j link_connecting d = omega arith
step-promises j link_opened d = omega (
  arith,
  count-callers_append j d.settled (resolve_all (callers d.waiting)),
  ap (count (is j)) (callers-resolve (callers d.waiting)),
)
step-promises j link_closed d = omega (
  arith,
  count-callers_append j d.settled (resolve_all d.closing),
  ap (count (is j)) (callers-resolve d.closing),
)
step-promises j link_failed d =
    omega (arith, count-callers_append j d.settled (rejected d.waiting), count-split j d.waiting)
step-promises j subscribed d = omega arith

step-socket : (s : Step) (d : Direct) → (step s d).socket ≡ calls (queue_call s) d.socket
unfolding step connect disconnect reconnect subscribe clear opened closed failed call calls
step-socket (connects caller) d = ground arith
step-socket (disconnects caller) d = ground arith
step-socket (reconnects caller) d = ground arith
step-socket (subscribes channel) d = ground arith
step-socket (clears channel) d = refl
step-socket (publishes item) d = refl
step-socket (finishes ok) d = refl
step-socket link_connecting d = refl
step-socket link_opened d = refl
step-socket link_closed d = refl
step-socket link_failed d = refl
step-socket subscribed d = refl

step-distinct :
    (s : Step) (d : Direct) → AllDistinct d.subscriptions → AllDistinct (step s d).subscriptions
unfolding step connect disconnect reconnect subscribe clear opened closed failed
step-distinct (connects caller) d h = ground (arith, h)
step-distinct (disconnects caller) d h = ground (arith, h)
step-distinct (reconnects caller) d h = ground (arith, h)
step-distinct (subscribes channel) d h = elim (Bool-cases (includes d.subscriptions channel)) [
  | inl had ↦ rw had h
  | inr new ↦ rw new (append-AllDistinct channel d.subscriptions new h)
]
step-distinct (clears channel) d h = without-AllDistinct channel d.subscriptions h
step-distinct (publishes item) d h = h
step-distinct (finishes ok) d h = h
step-distinct link_connecting d h = h
step-distinct link_opened d h = h
step-distinct link_closed d h = h
step-distinct link_failed d h = h
step-distinct subscribed d h = h

calls-append : (cs ds : List Call) (s : Socket) → calls (cs ++ ds) s ≡ calls ds (calls cs s)
unfolding calls
calls-append [] ds s = refl
calls-append (c ∷ cs) ds s = calls-append cs ds (call c s)

-- Whatever calls and events come, each call of `connect`, `disconnect` and `reconnect` has one
-- promise, which waits or was settled once; the state and the queue are what the queue's own calls
-- and events make of them, which `reconnect` is none of; and no channel is subscribed to twice, if
-- none was.
pub transport_accounted :
    (ss : List Step) (d : Direct)
    → AllDistinct d.subscriptions
    → ((j : ℕ) → promises j (steps ss d) ≡ promises j d + count (is j) (all_callers ss))
      × ((steps ss d).socket ≡ calls (queue_calls ss) d.socket)
      × AllDistinct (steps ss d).subscriptions
unfolding steps calls
transport_accounted [] d h = (λ j. omega arith, refl, h)
transport_accounted (s ∷ ss) d h =
    let rest = transport_accounted ss (step s d) (step-distinct s d h) in
    (
      λ j. omega (
        arith,
        rest.0 j,
        step-promises j s d,
        count-append (is j) (caller_of s) (all_callers ss),
      ),
      rest.1
          ∙ ap (calls (queue_calls ss)) (step-socket s d)
          ∙ sym (calls-append (queue_call s) (queue_calls ss) d.socket),
      rest.2,
    )
