-- ===== src/Wallet/Created.antt =====
-- The session that a wallet makes of a request, and the offer that it makes of the session.
use mobile_wallet_protocol.Prelude.{
  ℕ, ◌+◌, ◌≡◌, refl, Text, codes, ◌++◌, Option, some, true, Option-cases, inl, inr, arith,
}
use mobile_wallet_protocol.Domain.{Bytes, Session, SessionRequest, num}
use mobile_wallet_protocol.SessionStore.{default_session_ttl}
use mobile_wallet_protocol.Kv.{IkvStore}
use mobile_wallet_protocol.Exec.{returns}
use mobile_wallet_protocol.Client.{Environment, IKeyManager, Client, or_throw, require}
use mobile_wallet_protocol.Wallet.{Peer, rest_after, without_first, create_session, offer_payload}

module _ (kv : IkvStore) (km : IKeyManager) (env : Environment) (peer : Peer) where
  -- It has the request's identifier and key, and a channel and a key pair of its own.
  pub create-returns :
      (request : SessionRequest) (s : Session) (c u : Client kv.Store)
      → create_session kv km env peer request c ≡ (returns s, u)
      → (peer.base64_to_bytes request.public_key_b64 ≡ some s.their_public_key)
        × (s.id ≡ request.id)
        × (s.channel ≡ codes "session:" ++ peer.uuid c.log)
  unfolding create_session or_throw require
  create-returns request s c u e =
      elim (Option-cases (peer.base64_to_bytes request.public_key_b64)) [
        | inl failed ↦ absurd (ground arith)
        | inr (key, k) ↦ (ground arith, ground arith, ground arith)
      ]

  -- The offer names the channel without its prefix.
  pub offer-channel :
      (s : Session) (otp : Option Text) (deadline : Option ℕ) (id : Text)
      → s.channel ≡ codes "session:" ++ id
      → (offer_payload kv km env peer s otp deadline).channel_id ≡ id
  unfolding offer_payload without_first rest_after
  offer-channel s otp deadline id e = rw e refl

  -- The offer has the session's public key.
  pub offer-key :
      (s : Session) (otp : Option Text) (deadline : Option ℕ)
      → (offer_payload kv km env peer s otp deadline).public_key_b64
        ≡ peer.bytes_to_base64 s.key_pair.public_key
  unfolding offer_payload
  offer-key s otp deadline = refl

  pub offer-otp :
      (s : Session) (otp : Option Text) (deadline : Option ℕ)
      → (offer_payload kv km env peer s otp deadline).otp ≡ otp
  unfolding offer_payload
  offer-otp s otp deadline = refl

  -- The session is made where the request's key can be decoded and is valid.
  pub create_live :
      (request : SessionRequest) (key : Bytes) (c : Client kv.Store)
      → peer.base64_to_bytes request.public_key_b64 ≡ some key
      → km.validate_peer_key key ≡ true
      → create_session kv km env peer request c ≡ (
        returns (record {
          id = request.id;
          channel = codes "session:" ++ peer.uuid c.log;
          key_pair = km.generate_key_pair c.log;
          their_public_key = key;
          expires_at = num (env.now c.log + default_session_ttl);
        }),
        c,
      )
  unfolding create_session or_throw require
  create_live request key c decoded valid = rw (decoded, valid) refl
