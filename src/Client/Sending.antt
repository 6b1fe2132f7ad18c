-- ===== src/Client/Sending.antt =====
-- What `sendMessage` sends, when it throws, and what the peer makes of the message.
use mobile_wallet_protocol.Prelude.{
  ◌≡◌, refl, Text, Bool-cases, Option-cases, inl, inr, true, Option, none, some, ◌∷◌, arith,
}
use mobile_wallet_protocol.Domain.{
  session_error, session_invalid_state, Session, ProtocolMessage, not_before,
}
use mobile_wallet_protocol.Json.{stringify}
use mobile_wallet_protocol.Kv.{IkvStore}
use mobile_wallet_protocol.Exec.{returns, throws, Exec}
use mobile_wallet_protocol.Client.{
  publishes, Environment, IKeyManager, Client, or_throw, require, ask, clock, expired_session,
  check_session_expiry, current_session, send_message, decrypt_with, decrypt_message, dispatch,
  receive, on_message,
}
use mobile_wallet_protocol.Client.Codec.{encode_protocol, decode_protocol-encode_protocol}

module _ (kv : IkvStore) (km : IKeyManager) (env : Environment) where
  -- A message that was sent went out once, on the channel that was asked for, encrypted for the
  -- peer of a session that had not expired; nothing else of the client changed.
  pub send_message-returns :
      (channel : Text) (m : ProtocolMessage) (c u : Client kv.Store)
      → send_message kv km env channel m c ≡ (returns tt, u)
      → (s : Session) × (encrypted : Text) × (c.session ≡ some s)
        × (not_before s.expires_at (env.now c.log) ≡ true)
        × (km.encrypt (stringify (encode_protocol m)) s.their_public_key ≡ some encrypted)
        × (u ≡ record c { log = publishes channel encrypted ∷ c.log })
  unfolding send_message current_session or_throw check_session_expiry expired_session require ask
      clock
  send_message-returns channel m c u e = go c.session refl
    where
      go :
          (o : Option Session)
          → c.session ≡ o
          → (s : Session) × (encrypted : Text) × (c.session ≡ some s)
            × (not_before s.expires_at (env.now c.log) ≡ true)
            × (km.encrypt (stringify (encode_protocol m)) s.their_public_key ≡ some encrypted)
            × (u ≡ record c { log = publishes channel encrypted ∷ c.log })
      go none es = absurd (ground arith)
      go (some s) es = elim (Bool-cases (not_before s.expires_at (env.now c.log))) [
        | inr stale ↦ absurd (ground arith)
        | inl live ↦
            elim (Option-cases (km.encrypt (stringify (encode_protocol m)) s.their_public_key)) [
              | inl failed ↦ absurd (ground arith)
              | inr (encrypted, made) ↦ (s, encrypted, es, live, made, ground arith)
            ]
      ]

  -- In a live session, a message that can be encrypted is sent, if the transport takes it.
  pub send_message_live :
      (channel encrypted : Text) (m : ProtocolMessage) (s : Session) (c : Client kv.Store)
      → c.session ≡ some s
      → not_before s.expires_at (env.now c.log) ≡ true
      → km.encrypt (stringify (encode_protocol m)) s.their_public_key ≡ some encrypted
      → env.answer (publishes channel encrypted ∷ c.log) ≡ returns true
      → send_message kv km env channel m c
        ≡ (returns tt, record c { log = publishes channel encrypted ∷ c.log })
  unfolding send_message current_session or_throw check_session_expiry expired_session require ask
      clock
  send_message_live channel encrypted m s c es live made sent = ground arith

  -- With no session nothing is sent, and the client stays as it is.
  pub send_without_session :
      (channel : Text) (m : ProtocolMessage) (c : Client kv.Store)
      → c.session ≡ none
      → send_message kv km env channel m c ≡ (throws (session_error session_invalid_state), c)
  unfolding send_message current_session or_throw
  send_without_session channel m c e = ground arith

  -- The peer's listener, given what was sent, runs its handler on the message, where the session's
  -- key decrypts it and the session has not expired.
  pub on_message-send :
      (m : ProtocolMessage) (encrypted : Text) (s : Session) (c : Client kv.Store)
      (handler : ProtocolMessage → Exec (Client kv.Store) (Unit {0}))
      → c.session ≡ some s
      → not_before s.expires_at (env.now c.log) ≡ true
      → km.decrypt encrypted s.key_pair.private_key ≡ some (stringify (encode_protocol m))
      → on_message kv km env handler encrypted c ≡ handler m c
  unfolding on_message receive check_session_expiry expired_session decrypt_message decrypt_with
      dispatch clock
  on_message-send m encrypted s c handler es live de =
      ground (arith, decode_protocol-encode_protocol m)
