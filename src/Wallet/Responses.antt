-- ===== src/Wallet/Responses.antt =====
-- `sendResponse` and `handleMessage` of a wallet.
use mobile_wallet_protocol.Prelude.{◌≡◌, refl, Text, true, some, ◌∷◌, arith}
use mobile_wallet_protocol.Domain.{connected, Session, message, not_before}
use mobile_wallet_protocol.Json.{Json, stringify}
use mobile_wallet_protocol.Kv.{IkvStore}
use mobile_wallet_protocol.Exec.{returns}
use mobile_wallet_protocol.Client.{
  publishes, emits_message, Environment, IKeyManager, Client, current_session, or_throw, emit,
}
use mobile_wallet_protocol.Client.Codec.{encode_protocol}
use mobile_wallet_protocol.Client.Sending.{send_message_live}
use mobile_wallet_protocol.Wallet.{Peer, send_response, handle_message}

module _ (kv : IkvStore) (km : IKeyManager) (env : Environment) (peer : Peer) where
  -- In a live session, a response that can be encrypted is sent, if the transport takes it.
  pub response_live :
      (sealed : Text) (payload : Json) (s : Session) (c : Client kv.Store)
      → c.session ≡ some s
      → c.state ≡ connected
      → not_before s.expires_at (env.now c.log) ≡ true
      → km.encrypt (stringify (encode_protocol (message payload))) s.their_public_key ≡ some sealed
      → env.answer (publishes s.channel sealed ∷ c.log) ≡ returns true
      → send_response kv km env peer payload c
        ≡ (returns tt, record c { log = publishes s.channel sealed ∷ c.log })
  unfolding send_response current_session or_throw
  response_live sealed payload s c es on live made sent = ground (
    arith,
    es,
    on,
    send_message_live kv km env s.channel sealed (message payload) s c es live made sent,
  )

  -- A wallet tells its listeners of a message.
  pub message_told :
      (payload : Json) (c : Client kv.Store)
      → handle_message kv km env peer (message payload) c
        ≡ (returns tt, record c { log = emits_message payload ∷ c.log })
  unfolding handle_message emit
  message_told payload c = refl
