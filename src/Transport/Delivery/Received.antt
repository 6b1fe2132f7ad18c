-- ===== src/Transport/Delivery/Received.antt =====
-- What a receiver delivers of a sender's messages, one by one.
use native.Mathlib.Decide.{dec_lt}
use mobile_wallet_protocol.Prelude.{
  ℕ, suc, ◌+◌, ◌-◌, ◌≤◌, ◌<◌, ◌≡◌, refl, ap, ◌∙◌, sym, Text, text_eq, false, List, [], ◌∷◌, ◌++◌,
  map, arith, drop, length, drop-nil,
}
use mobile_wallet_protocol.Kv.{IkvStore}
use mobile_wallet_protocol.Transport.Incoming.{
  TransportMessage, Event, message, error, receive, handle_incoming,
}
use mobile_wallet_protocol.Transport.Incoming.Once.{deliveries, handle-receive}
use mobile_wallet_protocol.Transport.Incoming.Known.{HasSeen, receive-new, receive-old}
use mobile_wallet_protocol.Transport.History.{handle_each}
use mobile_wallet_protocol.Transport.Delivery.Sent.{wire, numbered, read_message-wire}

pub deliveries-append :
    (xs ys : List Event) → deliveries (xs ++ ys) ≡ deliveries xs ++ deliveries ys
deliveries-append [] ys = refl
deliveries-append (message channel payload ∷ xs) ys =
    ap (◌∷◌ (message channel payload)) (deliveries-append xs ys)
deliveries-append (error code ∷ xs) ys = deliveries-append xs ys

module _ (kv : IkvStore) (client : Text) (channel sender : Text) where
  open kv use {Store}

  module _ (other : text_eq sender client ≡ false) where
    handle-wire :
        (m : TransportMessage) (st : Store)
        → handle_incoming kv client channel (wire m) st ≡ receive kv client channel m st
    handle-wire m st = handle-receive kv client channel (wire m) m st (read_message-wire m)

    -- A new message of the sender is delivered and remembered, and an old one changes nothing.
    pub handle-wire_new :
        (m : TransportMessage) (n : ℕ) (st : Store)
        → m.client_id ≡ sender
        → HasSeen kv client channel sender n st
        → n < m.nonce
        → ((handle_incoming kv client channel (wire m) st).0 ≡ message channel m.payload ∷ [])
          × HasSeen kv client channel sender m.nonce
              (handle_incoming kv client channel (wire m) st).1
    handle-wire_new m n st from h new =
        rw (handle-wire m st) (receive-new kv client channel sender other m n st from h new)

    pub handle-wire_old :
        (m : TransportMessage) (n : ℕ) (st : Store)
        → m.client_id ≡ sender
        → HasSeen kv client channel sender n st
        → m.nonce ≤ n
        → handle_incoming kv client channel (wire m) st ≡ ([], st)
    handle-wire_old m n st from h old =
        handle-wire m st ∙ receive-old kv client channel sender other m n st from h old

    abbrev first : ℕ → Text → TransportMessage
    first n payload = record { client_id = sender; nonce = n + 1; payload = payload }

    abbrev after_first : ℕ → Text → Store → Store
    after_first n payload st = (handle_incoming kv client channel (wire (first n payload)) st).1

    -- Of the messages after `n`, those above the latest nonce are delivered, in their order.
    pub handle_each-numbered :
        (ps : List Text) (n latest : ℕ) (st : Store)
        → HasSeen kv client channel sender latest st
        → deliveries (handle_each kv client channel (map wire (numbered sender n ps)) st).0
          ≡ map (message channel) (drop (latest - n) ps)
    unfolding handle_each numbered
    handle_each-numbered [] n latest st h = sym (ap (map (message channel)) (drop-nil (latest - n)))
    handle_each-numbered (p ∷ ps) n latest st h =
        let m = first n p in
        let more =
          (handle_each kv client channel (map wire (numbered sender (n + 1) ps))
            (after_first n p st)).0 in
        elim (dec_lt n latest) [
          | yes old ↦
              let same = handle-wire_old m latest st refl h (omega arith) in
              let k : latest - n ≡ suc (latest - (n + 1)) = omega arith in
              rw (same, k) (handle_each-numbered ps (n + 1) latest st h)
          | no new ↦
              let fresh = handle-wire_new m latest st refl h (omega arith) in
              let k : latest - n ≡ 0 = omega arith in
              let k' : (n + 1) - (n + 1) ≡ 0 = omega arith in
              let ih = handle_each-numbered ps (n + 1) (n + 1) (after_first n p st) fresh.1 in
              deliveries-append (handle_incoming kv client channel (wire m) st).0 more
              ∙ (rw (fresh.0, k) (ap (◌∷◌ (message channel p)) (ih ∙ (rw k' refl))))
        ]

    -- Where none of them was seen before, the last one is the latest afterwards.
    pub handle_each-HasSeen :
        (ps : List Text) (n latest : ℕ) (st : Store)
        → latest ≤ n
        → HasSeen kv client channel sender latest st
        → (k : ℕ) × (latest ≤ k)
          × (k - n ≡ length ps)
          × HasSeen kv client channel sender k
              (handle_each kv client channel (map wire (numbered sender n ps)) st).1
    unfolding handle_each numbered
    handle_each-HasSeen [] n latest st new h = (latest, omega arith, omega arith, h)
    handle_each-HasSeen (p ∷ ps) n latest st new h =
        let fresh = handle-wire_new (first n p) latest st refl h (omega arith) in
        let ih =
          handle_each-HasSeen ps (n + 1) (n + 1) (after_first n p st) (omega arith) fresh.1 in
        (ih.0, omega (arith, ih.1), omega (arith, ih.1, ih.2), ih.3)
