-- ===== src/Transport/Incoming/Known.antt =====
-- What the handler does with a message of a sender whose latest nonce is known.
use mobile_wallet_protocol.Prelude.{
  ℕ, ◌≤◌, ◌<◌, ◌≡◌, Text, text_eq, text_eq_iff, text_eq_refl, false, some, [], ◌∷◌, arith,
}
use mobile_wallet_protocol.Kv.{IkvStore, Map, map_get, map_set, map_get-map_set}
use mobile_wallet_protocol.Transport.Storage.{get_latest_nonces}
use mobile_wallet_protocol.Transport.Storage.Nonces.{get_latest_nonces-set}
use mobile_wallet_protocol.Transport.Incoming.{
  TransportMessage, message, nonce_or_zero, accept, receive,
}

module _ (kv : IkvStore) (client channel sender : Text) where
  open kv use {Store}

  -- The receiver's record of the channel can be read, and the sender's latest nonce is `n`.
  pub record HasSeen (n : ℕ) (st : Store) : Type 0 where
    pub latest : Map ℕ
    pub readable : get_latest_nonces kv client channel st ≡ some latest
    pub nonce : nonce_or_zero (map_get latest sender) ≡ n

  module _ (other : text_eq sender client ≡ false) where
    -- A new message of the sender is delivered and remembered.
    pub receive-new :
        (m : TransportMessage) (n : ℕ) (st : Store)
        → m.client_id ≡ sender
        → HasSeen n st
        → n < m.nonce
        → ((receive kv client channel m st).0 ≡ message channel m.payload ∷ [])
          × HasSeen m.nonce (receive kv client channel m st).1
    unfolding receive accept
    receive-new m n st from h new = (
      ground (arith, h.readable, h.nonce),
      record {
        latest = map_set h.latest m.client_id m.nonce;
        readable = ground (
          arith,
          h.readable,
          h.nonce,
          get_latest_nonces-set kv client channel channel (map_set h.latest m.client_id m.nonce) st,
          text_eq_refl channel,
        );
        nonce = ground (
          arith,
          map_get-map_set h.latest m.client_id sender m.nonce,
          text_eq_iff m.client_id sender,
        );
      },
    )

    -- An old one changes nothing.
    pub receive-old :
        (m : TransportMessage) (n : ℕ) (st : Store)
        → m.client_id ≡ sender
        → HasSeen n st
        → m.nonce ≤ n
        → receive kv client channel m st ≡ ([], st)
    unfolding receive accept
    receive-old m n st from h old = ground (arith, h.readable, h.nonce)
