-- ===== src/Dapp/Failed.antt =====
-- What a dApp's client refuses, and which messages it passes on.
use mobile_wallet_protocol.Prelude.{◌≡◌, ◌⊎◌, Text, false, Option, none, arith}
use mobile_wallet_protocol.Domain.{
  disconnected, session_error, session_invalid_state, connection_mode, ProtocolMessage,
  handshake_offer, handshake_ack, message,
}
use mobile_wallet_protocol.Json.{Json}
use mobile_wallet_protocol.Kv.{IkvStore}
use mobile_wallet_protocol.Exec.{returns, throws}
use mobile_wallet_protocol.Client.{Environment, IKeyManager, Client, is_disconnected, is_connected}
use mobile_wallet_protocol.Dapp.{Peer, mode_or_default, connect, send_request, handle_message}

module _ (kv : IkvStore) (km : IKeyManager) (env : Environment) (peer : Peer) where
  -- A dApp's `connect` throws, and changes nothing, on a client that is not disconnected and on a mode
  -- that is none of the two.
  pub connect_refused :
      (mode : Option Text) (payload : Option Json) (c : Client kv.Store)
      → (is_disconnected c.state ≡ false)
        ⊎ (connection_mode (mode_or_default kv km env peer mode) ≡ none)
      → connect kv km env peer mode payload c ≡ (throws (session_error session_invalid_state), c)
  unfolding connect
  connect_refused mode payload c h = ground arith

  -- A request to a wallet that is not connected throws and sends nothing.
  send_request_refused :
      (payload : Json) (c : Client kv.Store)
      → is_connected c.state ≡ false
      → send_request kv km env peer payload c ≡ (throws (session_error session_invalid_state), c)
  unfolding send_request
  send_request_refused payload c h = ground arith

  -- A disconnected client passes nothing on, whatever arrives.
  handle_message_ignores :
      (m : ProtocolMessage) (c : Client kv.Store)
      → c.state ≡ disconnected
      → handle_message kv km env peer m c ≡ (returns tt, c)
  unfolding handle_message
  handle_message_ignores (handshake_offer p) c e = ground arith
  handle_message_ignores handshake_ack c e = ground arith
  handle_message_ignores (message v) c e = ground arith
