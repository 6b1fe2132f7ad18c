-- ===== src/Transport/Queue/Loss.antt =====
-- A `disconnect` in the middle of a message, and what the loop promises in every case.
use mobile_wallet_protocol.Prelude.{
  ◌≡◌, ◌≢◌, Bool, true, false, none, some, List, [], ◌∷◌, ◌++◌, map, arith, if◌then◌else◌,
}
use mobile_wallet_protocol.Transport.Queue.{
  State, Item, Socket, Outcome, Call, publishes, set_state, peek, process_queue, publish, finish,
  cancel_queue, on_connecting, on_connected, on_disconnected, connect, disconnect, call, calls,
}

-- While the connection is up, a queued message keeps the loop busy; with no message in flight the
-- loop is not running.
pub record IsBusy (s : Socket) : Type 0 where
  pub works : s.state ≡ State.connected → s.queue ≢ [] → s.in_flight ≢ none
  pub rests : s.in_flight ≡ none → s.is_processing ≡ false

call-IsBusy : (c : Call) (s : Socket) → IsBusy s → IsBusy (call c s)
unfolding call publish process_queue peek finish connect disconnect cancel_queue on_connecting
    on_connected on_disconnected set_state
call-IsBusy (publishes item) s v = record {
  works = ground (arith, v.works, v.rests);
  rests = ground (arith, v.rests);
}
call-IsBusy _ s v = record {
  works = ground (arith, v.works, v.rests);
  rests = ground (arith, v.rests);
}

-- From a socket where a queued message on a live connection keeps the loop busy and the loop rests
-- with nothing in flight, the same holds after any calls and events, a `disconnect` in the middle
-- of a message among them.
pub calls-IsBusy : (cs : List Call) (s : Socket) → IsBusy s → IsBusy (calls cs s)
unfolding calls
calls-IsBusy [] s v = v
calls-IsBusy (c ∷ cs) s v = calls-IsBusy cs (call c s) (call-IsBusy c s v)

-- When the client disconnects while a message is in flight and then publishes another, the end of
-- the first takes the second from the queue: nothing is queued or in flight then, and the promise
-- of the second is not among those that were settled in between.
pub disconnect_drops_next :
    (s : Socket) (first next : Item) (ok : Bool)
    → s.in_flight ≡ some first
    → s.is_processing ≡ true
    → let t = finish ok (publish next (disconnect s).0) in
      (t.queue ≡ [])
      × (t.in_flight ≡ none)
      × (t.settled
          ≡ (s.settled ++ map (λ item. (item.promise, Outcome.resolved false)) s.queue)
            ++ (first.promise, if ok then Outcome.resolved true else Outcome.rejected) ∷ [])
unfolding finish publish disconnect cancel_queue process_queue peek
disconnect_drops_next s first next ok e busy = (ground arith, ground arith, ground arith)
