-- ===== src/Transport/Delivery/Arrivals.antt =====
-- What a receiver delivers whatever the relay makes of a sender's messages on their way, where no two
-- of its handlers overlap.
use native.Mathlib.Decide.{dec_lt}
use mathlib.Core.List.{Sublistᴰ}
use mobile_wallet_protocol.Prelude.{
  ℕ, suc, ◌+◌, ◌-◌, ◌<◌, ◌≡◌, ap, subst, Text, text_eq, inl, inr, false, List, [], ◌∷◌, map, arith,
  drop, ◌⊎◌,
}
use mobile_wallet_protocol.Kv.{IkvStore}
use mobile_wallet_protocol.Transport.Incoming.{TransportMessage, Event, message, handle_incoming}
use mobile_wallet_protocol.Transport.Incoming.Once.{deliveries}
use mobile_wallet_protocol.Transport.Incoming.Known.{HasSeen}
use mobile_wallet_protocol.Transport.History.{handle_each}
use mobile_wallet_protocol.Transport.Delivery.Sent.{wire, numbered}
use mobile_wallet_protocol.Transport.Delivery.Received.{
  deliveries-append, handle-wire_new, handle-wire_old,
}

abbrev pub OneOf : TransportMessage → List TransportMessage → Type 0
OneOf m [] = ⊥
OneOf m (sent ∷ rest) = (m ≡ sent) ⊎ OneOf m rest

-- Each is one of the messages that were sent.
abbrev pub AllOf : List TransportMessage → List TransportMessage → Type 0
AllOf sent [] = Unit
AllOf sent (m ∷ rest) = OneOf m sent × AllOf sent rest

module _ (sender : Text) where
  numbered-OneOf :
      (ps : List Text) (n : ℕ) (m : TransportMessage)
      → OneOf m (numbered sender n ps)
      → (m.client_id ≡ sender) × (n < m.nonce)
  unfolding numbered
  numbered-OneOf [] n m none_sent = elim none_sent [ ]
  numbered-OneOf (p ∷ ps) n m (inl e) = (
    ap (λ (x : TransportMessage). x.client_id) e,
    omega (arith, ap (λ (x : TransportMessage). x.nonce) e),
  )
  numbered-OneOf (p ∷ ps) n m (inr o) =
      let later = numbered-OneOf ps (n + 1) m o in (later.0, omega (arith, later.1))

  module _ (channel : Text) where
    -- A sent message comes before what is left of the texts after it.
    leads :
        (ps : List Text) (n latest : ℕ) (m : TransportMessage) (after : List Event)
        → OneOf m (numbered sender n ps)
        → latest < m.nonce
        → Sublistᴰ after (map (message channel) (drop (m.nonce - n) ps))
        → Sublistᴰ
            (message channel m.payload ∷ after)
            (map (message channel) (drop (latest - n) ps))
    unfolding numbered
    leads [] n latest m after none_sent new rest = elim none_sent [ ]
    leads (p ∷ ps) n latest m after (inl e) new rest =
        let at : m.nonce - n ≡ 1 = omega (arith, ap (λ (x : TransportMessage). x.nonce) e) in
        let none_seen : latest - n ≡ 0 = omega (arith, ap (λ (x : TransportMessage). x.nonce) e) in
        let tail =
          subst (λ (k : ℕ). Sublistᴰ after (map (message channel) (drop k (p ∷ ps)))) at rest in
        rw none_seen
          (Sublistᴰ.cons-cons (ap (λ (x : TransportMessage). message channel x.payload) e) tail)
    leads (p ∷ ps) n latest m after (inr o) new rest =
        let later = (numbered-OneOf ps (n + 1) m o).1 in
        let at : m.nonce - n ≡ suc (m.nonce - (n + 1)) = omega (arith, later) in
        let ih =
          leads ps (n + 1) latest m after o new
            (subst (λ (k : ℕ). Sublistᴰ after (map (message channel) (drop k (p ∷ ps)))) at rest) in
        elim (dec_lt n latest) [
          | yes old ↦ let k : latest - n ≡ suc (latest - (n + 1)) = omega (arith, old) in rw k ih
          | no up_to ↦
              let k : latest - n ≡ 0 = omega (arith, up_to) in
              let k' : latest - (n + 1) ≡ 0 = omega (arith, up_to) in
              rw k (
                Sublistᴰ.cons (
                  subst
                    (λ (i : ℕ).
                      Sublistᴰ (message channel m.payload ∷ after)
                        (map (message channel) (drop i ps)))
                    k' ih))
        ]

empty : (events : List Event) → Sublistᴰ [] events
empty [] = Sublistᴰ.slnil
empty (e ∷ events) = Sublistᴰ.cons (empty events)

-- Whatever of another client's messages reaches a receiver, repeated, late, out of order or not at
-- all, where the handlers run one after another, each to its end before the next begins, as those of
-- a fetched history do: it delivers some of the messages above the latest it has seen, each at most
-- once and in the order of sending.
pub deliveries_sublist :
    (kv : IkvStore) (client channel sender : Text) (ps : List Text) (n latest : ℕ)
    (arrived : List TransportMessage) (st : kv.Store)
    → text_eq sender client ≡ false
    → HasSeen kv client channel sender latest st
    → AllOf (numbered sender n ps) arrived
    → Sublistᴰ
        (deliveries (handle_each kv client channel (map wire arrived) st).0)
        (map (message channel) (drop (latest - n) ps))
unfolding handle_each
deliveries_sublist kv client channel sender ps n latest [] st other h all =
    empty (map (message channel) (drop (latest - n) ps))
deliveries_sublist kv client channel sender ps n latest (m ∷ arrived) st other h all =
    let one = numbered-OneOf sender ps n m all.0 in
    let st' = (handle_incoming kv client channel (wire m) st).1 in
    elim (dec_lt latest m.nonce) [
      | yes new ↦
          let fresh = handle-wire_new kv client channel sender other m latest st one.0 h new in
          let ih =
            deliveries_sublist kv client channel sender ps n m.nonce arrived st' other fresh.1
              all.1 in
          rw
            (
              deliveries-append (handle_incoming kv client channel (wire m) st).0
                  (handle_each kv client channel (map wire arrived) st').0,
              fresh.0,
            )
            (leads sender channel ps n latest m _ all.0 new ih)
      | no old ↦
          let same =
            handle-wire_old kv client channel sender other m latest st one.0 h
              (omega (arith, old)) in
          rw same (deliveries_sublist kv client channel sender ps n latest arrived st other h all.1)
    ]
