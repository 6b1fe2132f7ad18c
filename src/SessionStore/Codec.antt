-- ===== src/SessionStore/Codec.antt =====
-- `SerializableSession`: a session as the JSON object that is stored, and back.
use mobile_wallet_protocol.Prelude.{ℕ, ◌≡◌, codes, Option, none, some, text_eq}
use mobile_wallet_protocol.Domain.{num, Session}
use mobile_wallet_protocol.Json.{
  Json, of_number, string, object, no_fields, field, find_field, get_field, as_string, as_number,
}
use mobile_wallet_protocol.Base64
use mobile_wallet_protocol.Base64.{AreBytes}
use mobile_wallet_protocol.Base64.RoundTrip.{decode-encode}

unfoldable pub encode_session : Session → Json
encode_session s = object (
    field (codes "id") (string s.id) (
      field (codes "channel") (string s.channel) (
        field (codes "keyPair")
          (object (
            field (codes "publicKeyB64") (string (Base64.encode s.key_pair.public_key)) (
              field (codes "privateKeyB64") (string (Base64.encode s.key_pair.private_key))
                no_fields)))
          (field (codes "theirPublicKeyB64") (string (Base64.encode s.their_public_key))
            (field (codes "expiresAt") (of_number s.expires_at) no_fields)))))

infixl 5 ◌>>=◌
abbrev ◌>>=◌ : {A B : Type 0} → Option A → (A → Option B) → Option B
none >>= f = none
some a >>= f = f a

unfoldable pub decode_session : Json → Option Session
unfolding find_field text_eq
decode_session v = do
  id ← as_string (get_field (codes "id") v)
  channel ← as_string (get_field (codes "channel") v)
  keys ← get_field (codes "keyPair") v
  public ← as_string (get_field (codes "publicKeyB64") keys)
  private ← as_string (get_field (codes "privateKeyB64") keys)
  theirs ← as_string (get_field (codes "theirPublicKeyB64") v)
  expiry ← as_number (get_field (codes "expiresAt") v)
  some (record {
    id = id;
    channel = channel;
    key_pair = record { public_key = Base64.decode public; private_key = Base64.decode private };
    their_public_key = Base64.decode theirs;
    expires_at = num expiry;
  })

-- What a session's keys are: `Uint8Array`s.
pub record IsStorable (s : Session) : Type 0 where
  pub public : AreBytes s.key_pair.public_key
  pub private : AreBytes s.key_pair.private_key
  pub theirs : AreBytes s.their_public_key

-- A stored session whose expiry is a number is read back as it was.
pub decode_session-encode_session :
    (s : Session) (n : ℕ)
    → s.expires_at ≡ num n
    → IsStorable s
    → decode_session (encode_session s) ≡ some s
unfolding decode_session encode_session
decode_session-encode_session s n e h = rw (
  decode-encode s.key_pair.public_key h.public,
  decode-encode s.key_pair.private_key h.private,
  decode-encode s.their_public_key h.theirs,
  e,
)
