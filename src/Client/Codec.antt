-- ===== src/Client/Codec.antt =====
-- Protocol messages as JSON, and back.
--
-- packages/core/src/base-client.ts hands the value that it has parsed to the handlers unchecked;
-- `decode_protocol` has only the values that `encode_protocol` makes and others of the same fields.
-- A message that lacks a field that its handler reads is dropped here, where the code goes on with
-- `undefined`.
use mobile_wallet_protocol.Prelude.{
  ℕ, ◌≡◌, refl, Text, codes, text_eq, Option, none, some, arith, if◌then◌else◌,
}
use mobile_wallet_protocol.Domain.{
  ProtocolMessage, handshake_offer, handshake_ack, message, HandshakeOfferPayload,
}
use mobile_wallet_protocol.Json.{
  Json, number, string, object, Fields, no_fields, field, find_field, get_field, as_string,
  as_number,
}

-- `JSON.stringify` leaves out what is undefined.
abbrev optional : Text → Option Json → Fields → Fields
optional name none rest = rest
optional name (some v) rest = field name v rest

abbrev text_value : Option Text → Option Json
text_value none = none
text_value (some t) = some (string t)

abbrev number_value : Option ℕ → Option Json
number_value none = none
number_value (some n) = some (number n)

unfoldable pub encode_offer : HandshakeOfferPayload → Json
encode_offer p = object (
    field (codes "publicKeyB64") (string p.public_key_b64) (
      field (codes "channelId") (string p.channel_id) (
        optional (codes "otp") (text_value p.otp)
          (optional (codes "deadline") (number_value p.deadline) no_fields))))

unfoldable pub encode_protocol : ProtocolMessage → Json
unfolding encode_offer
encode_protocol (handshake_offer p) = object (
    field (codes "type") (string (codes "handshake-offer"))
      (field (codes "payload") (encode_offer p) no_fields))
encode_protocol handshake_ack =
    object (field (codes "type") (string (codes "handshake-ack")) no_fields)
encode_protocol (message v) =
    object (field (codes "type") (string (codes "message")) (field (codes "payload") v no_fields))

infixl 5 ◌>>=◌
abbrev ◌>>=◌ : {A B : Type 0} → Option A → (A → Option B) → Option B
none >>= f = none
some a >>= f = f a

unfoldable pub decode_offer : Json → Option HandshakeOfferPayload
unfolding find_field text_eq
decode_offer v = do
  key ← as_string (get_field (codes "publicKeyB64") v)
  channel_id ← as_string (get_field (codes "channelId") v)
  some (record {
    public_key_b64 = key;
    channel_id = channel_id;
    otp = as_string (get_field (codes "otp") v);
    deadline = as_number (get_field (codes "deadline") v);
  })

abbrev as_offer : Option HandshakeOfferPayload → Option ProtocolMessage
as_offer none = none
as_offer (some p) = some (handshake_offer p)

-- What a handler makes of the value, by its `type`; one of another type is passed over.
decode_typed : Text → Option Json → Option ProtocolMessage
unfolding decode_offer
decode_typed kind payload =
    if text_eq kind (codes "handshake-offer")
    then as_offer (payload >>= decode_offer)
    else if text_eq kind (codes "handshake-ack")
    then some handshake_ack
    else if text_eq kind (codes "message")
    then (payload >>= λ v. some (message v))
    else none

unfoldable pub decode_protocol : Json → Option ProtocolMessage
unfolding find_field text_eq decode_typed
decode_protocol v = do
  kind ← as_string (get_field (codes "type") v)
  decode_typed kind (get_field (codes "payload") v)

decode_offer-encode_offer : (p : HandshakeOfferPayload) → decode_offer (encode_offer p) ≡ some p
unfolding decode_offer encode_offer
decode_offer-encode_offer p = ground arith

-- A protocol message is read back as it was written.
pub decode_protocol-encode_protocol :
    (m : ProtocolMessage) → decode_protocol (encode_protocol m) ≡ some m
unfolding decode_protocol encode_protocol
decode_protocol-encode_protocol (handshake_offer p) = ground arith
decode_protocol-encode_protocol handshake_ack = refl
decode_protocol-encode_protocol (message v) = refl
