-- ===== src/Transport/Queue/Drain.antt =====
-- The loop of `_processQueue` ends.
use mathlib.Core.List.{append_assoc, append-nil}
use mobile_wallet_protocol.Prelude.{
  ℕ, ◌≡◌, refl, ◌∙◌, sym, Bool, true, false, none, some, List, [], ◌∷◌, ◌++◌, map, length, arith,
  if◌then◌else◌,
}
use mobile_wallet_protocol.Transport.Queue.{
  Item, Socket, Outcome, finishes, peek, finish, call, calls,
}

-- What each queued message comes to, given the ends of its `await`.
abbrev pub outcomes : List Item → List Bool → List (ℕ × Outcome)
outcomes [] oks = []
outcomes (item ∷ rest) [] = []
outcomes (item ∷ rest) (ok ∷ oks) =
    (item.promise, if ok then Outcome.resolved true else Outcome.rejected) ∷ outcomes rest oks

drain :
    (q : List Item) (oks : List Bool) (s : Socket)
    → length oks ≡ length q
    → s.queue ≡ q
    → let t = calls (map finishes oks) (peek q s) in
      (t.queue ≡ [])
      × (t.in_flight ≡ none)
      × (t.is_processing ≡ false)
      × (t.settled ≡ s.settled ++ outcomes q oks)
unfolding calls call finish peek
drain [] [] s e at = (at, refl, refl, sym (append-nil s.settled))
drain [] (ok ∷ oks) s e at = absurd (omega arith)
drain (item ∷ rest) [] s e at = absurd (omega arith)
drain (item ∷ rest) (ok ∷ oks) s e at =
    let entry : ℕ × Outcome =
      (item.promise, if ok then Outcome.resolved true else Outcome.rejected) in
    let s' : Socket = record s {
      in_flight = some item;
      queue = rest;
      settled = s.settled ++ entry ∷ [];
    } in
    let ih = drain rest oks s' (omega arith) refl in
    rw at (ih.0, ih.1, ih.2, ih.3 ∙ append_assoc s.settled (entry ∷ []) (outcomes rest oks))

-- Once the loop has taken up the first message of a queue, it ends after as many messages as are
-- queued, whatever each of them comes to: the queue is empty then, the loop no longer runs, and
-- each promise was settled once, in order, with the outcome of its own message.
pub queue_drains :
    (oks : List Bool) (s : Socket)
    → length oks ≡ length s.queue
    → let t = calls (map finishes oks) (peek s.queue s) in
      (t.queue ≡ [])
      × (t.in_flight ≡ none)
      × (t.is_processing ≡ false)
      × (t.settled ≡ s.settled ++ outcomes s.queue oks)
queue_drains oks s e = drain s.queue oks s e refl
