-- ===== src/Transport/Queue/Order.antt =====
-- Messages are sent in the order of their publishing, and none is lost, while no `disconnect` comes
-- in the middle of a message.
use mathlib.Core.List.{append_assoc, append-nil}
use mobile_wallet_protocol.Prelude.{
  ℕ, ◌≡◌, refl, ap, ◌∙◌, sym, Bool, true, false, Option, none, some, List, [], ◌∷◌, ◌++◌, map,
  arith,
}
use mobile_wallet_protocol.Transport.Queue.{
  State, Item, Socket, Outcome, Call, publishes, finishes, connects, disconnects, connecting_event,
  connected_event, disconnected_event, subscribed_event, set_state, peek, process_queue, publish,
  shift, finish, cancel_queue, on_connecting, on_connected, on_disconnected, connect, disconnect,
  call, calls, new_socket,
}

abbrev pub promises : List Item → List ℕ
promises [] = []
promises (item ∷ rest) = item.promise ∷ promises rest

abbrev pub settled_promises : List (ℕ × Outcome) → List ℕ
settled_promises [] = []
settled_promises ((p, o) ∷ rest) = p ∷ settled_promises rest

-- The promises that were settled and those that wait, in order.
abbrev pub accounted : Socket → List ℕ
accounted s = settled_promises s.settled ++ promises s.queue

abbrev pub published : Call → List ℕ
published (publishes item) = item.promise ∷ []
published (finishes ok) = []
published connects = []
published disconnects = []
published connecting_event = []
published connected_event = []
published disconnected_event = []
published subscribed_event = []

abbrev pub published_all : List Call → List ℕ
published_all [] = []
published_all (c ∷ cs) = published c ++ published_all cs

abbrev IsHead : Option Item → List Item → Bool → Type 0
IsHead none queue processing = processing ≡ false
IsHead (some item) [] processing = ⊥
IsHead (some item) (first ∷ rest) processing = (item ≡ first) × (processing ≡ true)

-- The item in flight is the first of the queue.
pub record IsOrderly (s : Socket) : Type 0 where
  pub head : IsHead s.in_flight s.queue s.is_processing

-- The calls that do not interrupt a message.
abbrev pub NotInterrupted : Call → Socket → Type 0
NotInterrupted disconnects s = s.in_flight ≡ none
NotInterrupted (publishes item) s = Unit
NotInterrupted (finishes ok) s = Unit
NotInterrupted connects s = Unit
NotInterrupted connecting_event s = Unit
NotInterrupted connected_event s = Unit
NotInterrupted disconnected_event s = Unit
NotInterrupted subscribed_event s = Unit

call-IsOrderly : (c : Call) (s : Socket) → NotInterrupted c s → IsOrderly s → IsOrderly (call c s)
unfolding call publish process_queue peek finish connect disconnect cancel_queue on_connecting
    on_connected on_disconnected set_state
call-IsOrderly (publishes item) s n v = record { head = ground (arith, v.head) }
call-IsOrderly _ s n v = record { head = ground (arith, v.head) }

promises-append : (xs ys : List Item) → promises (xs ++ ys) ≡ promises xs ++ promises ys
promises-append [] ys = refl
promises-append (x ∷ xs) ys = ap (◌∷◌ x.promise) (promises-append xs ys)

settled-append :
    (xs ys : List (ℕ × Outcome))
    → settled_promises (xs ++ ys) ≡ settled_promises xs ++ settled_promises ys
settled-append [] ys = refl
settled-append ((p, o) ∷ xs) ys = ap (◌∷◌ p) (settled-append xs ys)

settled-cancelled :
    (xs : List Item)
    → settled_promises (map (λ item. (item.promise, Outcome.resolved false)) xs) ≡ promises xs
settled-cancelled [] = refl
settled-cancelled (x ∷ xs) = ap (◌∷◌ x.promise) (settled-cancelled xs)

accounted-peek : (q : List Item) (s : Socket) → accounted (peek q s) ≡ accounted s
unfolding peek
accounted-peek [] s = refl
accounted-peek (x ∷ q) s = refl

accounted-process_queue : (s : Socket) → accounted (process_queue s) ≡ accounted s
unfolding process_queue peek
accounted-process_queue s = ground arith

accounted-set_state : (t : State) (s : Socket) → accounted (set_state t s).0 ≡ accounted s
unfolding set_state
accounted-set_state t s = ground arith

accounted-publish :
    (item : Item) (s : Socket) → accounted (publish item s) ≡ accounted s ++ item.promise ∷ []
unfolding publish
accounted-publish item s =
    accounted-process_queue (record s { queue = s.queue ++ item ∷ [] })
    ∙ (rw (promises-append s.queue (item ∷ []))
        (sym (append_assoc (settled_promises s.settled) (promises s.queue) (item.promise ∷ []))))

accounted-cancel_queue : (s : Socket) → accounted (cancel_queue s) ≡ accounted s
unfolding cancel_queue
accounted-cancel_queue s =
    append-nil _
    ∙ (settled-append s.settled _
        ∙ ap (◌++◌ (settled_promises s.settled)) (settled-cancelled s.queue))

finish-none : (ok : Bool) (s : Socket) → s.in_flight ≡ none → finish ok s ≡ s
unfolding finish
finish-none ok s e = ground arith

finish_first :
    (ok : Bool) (s : Socket) (item : Item) (rest : List Item)
    → s.in_flight ≡ some item
    → s.queue ≡ item ∷ rest
    → accounted (finish ok s) ≡ accounted s
unfolding finish
finish_first ok s item rest ef eq =
    rw (ef, finish)
      (accounted-peek (shift s.queue) _
        ∙ (rw (settled-append s.settled, eq)
            (append_assoc (settled_promises s.settled) (item.promise ∷ []) (promises rest))))

accounted-finish : (ok : Bool) (s : Socket) → IsOrderly s → accounted (finish ok s) ≡ accounted s
unfolding finish
accounted-finish ok s v = go s.in_flight s.queue refl refl v.head
  where
    go :
        (f : Option Item) (q : List Item)
        → s.in_flight ≡ f
        → s.queue ≡ q
        → IsHead f q s.is_processing
        → accounted (finish ok s) ≡ accounted s
    go none q ef eq h = ap (λ (t : Socket). accounted t) (finish-none ok s ef)
    go (some item) [] ef eq h = absurd h
    go (some item) (first ∷ rest) ef eq h =
        finish_first ok s item rest ef (eq ∙ ap (λ (t : Item). t ∷ rest) (sym h.0))

accounted-connect : (s : Socket) → accounted (connect s).0 ≡ accounted s
unfolding connect
accounted-connect s = ground (arith, accounted-set_state State.connecting s)

accounted-call :
    (c : Call) (s : Socket)
    → NotInterrupted c s
    → IsOrderly s
    → accounted (call c s) ≡ accounted s ++ published c
unfolding call on_connecting on_connected on_disconnected connect disconnect
accounted-call (publishes item) s n v = accounted-publish item s
accounted-call (finishes ok) s n v = accounted-finish ok s v ∙ sym (append-nil _)
accounted-call connects s n v = accounted-connect s ∙ sym (append-nil _)
accounted-call disconnects s n v = accounted-cancel_queue s ∙ sym (append-nil _)
accounted-call connecting_event s n v = accounted-set_state State.connecting s ∙ sym (append-nil _)
accounted-call connected_event s n v =
    accounted-process_queue (set_state State.connected s).0
    ∙ (accounted-set_state State.connected s ∙ sym (append-nil _))
accounted-call disconnected_event s n v =
    accounted-set_state State.disconnected s ∙ sym (append-nil _)
accounted-call subscribed_event s n v = accounted-process_queue s ∙ sym (append-nil _)

-- No `disconnect` comes while a message is in flight.
abbrev pub NeverInterrupted : List Call → Socket → Type 0
NeverInterrupted [] s = Unit
NeverInterrupted (c ∷ cs) s = NotInterrupted c s × NeverInterrupted cs (call c s)

calls-accounted :
    (cs : List Call) (s : Socket)
    → NeverInterrupted cs s
    → IsOrderly s
    → accounted (calls cs s) ≡ accounted s ++ published_all cs
unfolding calls
calls-accounted [] s n v = sym (append-nil _)
calls-accounted (c ∷ cs) s n v =
    calls-accounted cs (call c s) n.1 (call-IsOrderly c s n.0 v)
    ∙ (rw (accounted-call c s n.0 v) (append_assoc (accounted s) (published c) (published_all cs)))

-- Whatever calls and events come, in any order, if no `disconnect` comes while a message is in
-- flight: the promises settled so far, followed by those of the messages still queued, are the
-- promises of the published messages in the order of publishing. None is lost, settled twice or
-- overtaken.
pub fifo :
    (cs : List Call)
    → NeverInterrupted cs new_socket
    → accounted (calls cs new_socket) ≡ published_all cs
fifo cs n = calls-accounted cs new_socket n (record { head = refl })
