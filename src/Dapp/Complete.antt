-- ===== src/Dapp/Complete.antt =====
-- When the untrusted flow of a dApp comes to its end.
use mobile_wallet_protocol.Prelude.{ℕ, ◌≡◌, refl, Text, leb, ltb, true, false, some, ◌∷◌, arith}
use mobile_wallet_protocol.Domain.{
  Bytes, Session, SessionRequest, handshake_ack, HandshakeOfferPayload, not_before,
}
use mobile_wallet_protocol.Json.{Str, stringify}
use mobile_wallet_protocol.Kv.{IkvStore}
use mobile_wallet_protocol.SessionStore.View.{set-returns}
use mobile_wallet_protocol.Exec.{returns, bind-goes}
use mobile_wallet_protocol.Client.{
  Log, subscribes, clears, connects, publishes, emits_otp_required, Environment, IKeyManager,
  Client, set_state, set_session, emit, or_throw, require, ask, ask_, clock, store_set,
  current_session,
}
use mobile_wallet_protocol.Client.Codec.{encode_protocol}
use mobile_wallet_protocol.Client.Sending.{send_message_live}
use mobile_wallet_protocol.Client.Steps.{ask_-goes}
use mobile_wallet_protocol.Dapp.Otp.{
  otp_loop, accepted, EntersWithin, otp_attempts, otp_accepted_iff,
}
use mobile_wallet_protocol.Dapp.{
  Peer, await_offer, wait_for_untrusted_offer, settle, given_deadline, given_otp, handle_otp_input,
  create_final_session, finalize_untrusted, acknowledge, execute_untrusted,
}
use mobile_wallet_protocol.Dapp.Stages.{final_session}
use mobile_wallet_protocol.Dapp.Connected.{waiting_log}

module _ (kv : IkvStore) (km : IKeyManager) (env : Environment) (peer : Peer) where
  -- What the world does for the untrusted flow to succeed.
  pub record IsWilling (s : Session) (request : SessionRequest) (log : Log) : Type 0 where
    pub offer : HandshakeOfferPayload
    pub expected : Text
    pub deadline : ℕ
    pub key : Bytes
    pub encrypt : Str → Text
    pub answers : (l : Log) → env.answer l ≡ returns true
    pub offered : peer.offer (waiting_log kv km env peer request log) ≡ some offer
    pub in_time : leb request.expires_at (env.now (waiting_log kv km env peer request log)) ≡ false
    pub otp : given_otp kv km env peer offer.otp ≡ some expected
    pub until : given_deadline kv km env peer offer.deadline ≡ some deadline
    pub open_still : ltb deadline (env.now (waiting_log kv km env peer request log)) ≡ false
    pub entered :
        EntersWithin expected otp_attempts
          (peer.user (emits_otp_required deadline ∷ waiting_log kv km env peer request log))
    pub decoded : peer.base64_to_bytes offer.public_key_b64 ≡ some key
    pub valid : km.validate_peer_key key ≡ true
    pub encrypts : (p : Str) → km.encrypt p key ≡ some (encrypt p)
    pub live : (l : Log) → not_before s.expires_at (env.now l) ≡ true

  wait-goes :
      (expiry : ℕ) (offer : HandshakeOfferPayload) (c : Client kv.Store)
      → peer.offer c.log ≡ some offer
      → leb expiry (env.now c.log) ≡ false
      → wait_for_untrusted_offer kv km env peer expiry c ≡ (returns offer, c)
  unfolding wait_for_untrusted_offer await_offer clock or_throw
  wait-goes expiry offer c offered early = ground arith

  otp-goes :
      (offer : HandshakeOfferPayload) (expected : Text) (deadline : ℕ) (c : Client kv.Store)
      → given_otp kv km env peer offer.otp ≡ some expected
      → given_deadline kv km env peer offer.deadline ≡ some deadline
      → ltb deadline (env.now c.log) ≡ false
      → otp_loop expected 0 (peer.user (emits_otp_required deadline ∷ c.log)) ≡ accepted
      → handle_otp_input kv km env peer offer c
        ≡ (returns tt, record c { log = emits_otp_required deadline ∷ c.log })
  unfolding handle_otp_input settle clock or_throw emit
  otp-goes offer expected deadline c otp until early done = ground arith

  pub final-goes :
      (s : Session) (offer : HandshakeOfferPayload) (key : Bytes) (c : Client kv.Store)
      → peer.base64_to_bytes offer.public_key_b64 ≡ some key
      → km.validate_peer_key key ≡ true
      → create_final_session kv km env peer s offer c ≡ (returns (final_session s offer key), c)
  unfolding create_final_session or_throw require
  final-goes s offer key c decoded valid = ground arith

  acknowledge-goes :
      (f : Session) (encrypted : Text) (c : Client kv.Store)
      → c.session ≡ some f
      → ((l : Log) → env.answer l ≡ returns true)
      → ((l : Log) → not_before f.expires_at (env.now l) ≡ true)
      → km.encrypt (stringify (encode_protocol handshake_ack)) f.their_public_key ≡ some encrypted
      → acknowledge kv km env peer f c ≡ (
        returns tt,
        record c { log = publishes f.channel encrypted ∷ subscribes f.channel ∷ c.log },
      )
  unfolding acknowledge
  acknowledge-goes f encrypted c e answers live made =
      rw (ask_-goes kv env (subscribes f.channel) c answers) (
        send_message_live kv km env f.channel encrypted handshake_ack f
          (record c { log = subscribes f.channel ∷ c.log }) e (live _) made (answers _))

  finalize-goes :
      (channel : Text) (f : Session) (c : Client kv.Store)
      → c.session ≡ some f
      → ((l : Log) → env.answer l ≡ returns true)
      → ((l : Log) → not_before f.expires_at (env.now l) ≡ true)
      → (finalize_untrusted kv km env peer channel c).0 ≡ returns tt
  unfolding finalize_untrusted current_session or_throw store_set ask_ ask set_state emit
  finalize-goes channel f c e answers live = ground (
    arith,
    answers (clears channel ∷ c.log),
    set-returns kv (env.now c.log) f c.store (live c.log),
  )

  -- The untrusted flow does return where the transport answers, the wallet's offer comes in time with
  -- a password, a deadline that has not passed and a valid key, the user enters the password within
  -- three tries, the acknowledgement can be encrypted, and the session does not expire meanwhile.
  pub execute_untrusted_live :
      (s : Session) (request : SessionRequest) (c : Client kv.Store)
      → IsWilling s request c.log
      → (execute_untrusted kv km env peer s request c).0 ≡ returns tt
  unfolding execute_untrusted set_session
  execute_untrusted_live s request c w = bind-goes _ (ask_-goes kv env connects c w.answers) (
      bind-goes _ (ask_-goes kv env (subscribes request.channel) _ w.answers) (
        bind-goes _ (wait-goes request.expires_at w.offer _ w.offered w.in_time) (
          bind-goes _
            (otp-goes w.offer w.expected w.deadline _ w.otp w.until w.open_still
              ((otp_accepted_iff w.expected _).1 w.entered))
            (bind-goes _ (final-goes s w.offer w.key _ w.decoded w.valid) (
              bind-goes _
                (acknowledge-goes (final_session s w.offer w.key)
                  (w.encrypt (stringify (encode_protocol handshake_ack))) _ refl w.answers w.live
                  (w.encrypts _))
                (finalize-goes request.channel (final_session s w.offer w.key) _ refl w.answers
                  w.live))))))
