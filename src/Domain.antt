-- ===== src/Domain.antt =====
-- packages/core/src/domain: the error codes and classes, the client's states, connection modes,
-- keys, sessions, session requests and protocol messages.
pub use mobile_wallet_protocol.Json.{Number, num, nan, not_before, before, is_nan}
use mobile_wallet_protocol.Json.{Json}
use mobile_wallet_protocol.Prelude.{
  ℕ, Text, codes, text_eq, Option, none, some, List, if◌then◌else◌,
}

-- errors.ts
pub data ErrorCode : Type 0 where
  session_expired session_not_found session_invalid_state session_save_failed : ErrorCode
  transport_disconnected transport_publish_failed transport_subscribe_failed : ErrorCode
  transport_history_failed transport_parse_failed transport_reconnect_failed : ErrorCode
  decryption_failed invalid_key request_expired : ErrorCode
  otp_incorrect otp_max_attempts_reached otp_entry_timeout unknown : ErrorCode

-- The classes of errors.ts with their code; a message is not modelled. `foreign` is any other
-- `Error`, thrown by the platform or a dependency.
pub data Error : Type 0 where
  protocol_error session_error transport_error crypto_error : ErrorCode → Error
  foreign : ℕ → Error

pub data Result {ℓ} (A : Type ℓ) : Type ℓ where
  ok : A → Result A
  err : Error → Result A

-- client-state.ts
pub data ClientState : Type 0 where
  disconnected connecting connected : ClientState

-- connection-mode.ts: a mode arrives as an untyped value.
pub data Mode : Type 0 where
  trusted untrusted : Mode

unfoldable pub connection_mode : Text → Option Mode
connection_mode t =
    if text_eq t (codes "trusted")
    then some trusted
    else if text_eq t (codes "untrusted")
    then some untrusted
    else none

abbrev pub Bytes : Type 0
Bytes = List ℕ

-- key-pair.ts
pub record KeyPair : Type 0 where
  pub public_key : Bytes
  pub private_key : Bytes

-- session.ts
pub record Session : Type 0 where
  pub id : Text
  pub channel : Text
  pub key_pair : KeyPair
  pub their_public_key : Bytes
  pub expires_at : Number

-- protocol-message.ts; the payload of an application message is any value.
pub record HandshakeOfferPayload : Type 0 where
  pub public_key_b64 : Text
  pub channel_id : Text
  pub otp : Option Text
  pub deadline : Option ℕ

pub data ProtocolMessage : Type 0 where
  handshake_offer : HandshakeOfferPayload → ProtocolMessage
  handshake_ack : ProtocolMessage
  message : Json → ProtocolMessage

-- session-request.ts; `initial_message` is the payload of the message.
pub record SessionRequest : Type 0 where
  pub id : Text
  pub mode : Text
  pub channel : Text
  pub public_key_b64 : Text
  pub expires_at : ℕ
  pub initial_message : Option Json
