-- ===== src/Wallet/Complete.antt =====
-- When the untrusted flow of a wallet comes to its end.
use mobile_wallet_protocol.Prelude.{ℕ, ◌+◌, ◌≡◌, refl, Text, leb, true, false, some, ◌∷◌, arith}
use mobile_wallet_protocol.Domain.{Session, SessionRequest, handshake_offer, not_before}
use mobile_wallet_protocol.Json.{stringify}
use mobile_wallet_protocol.Kv.{IkvStore}
use mobile_wallet_protocol.SessionStore.View.{set-returns}
use mobile_wallet_protocol.Exec.{returns, bind-goes}
use mobile_wallet_protocol.Client.{
  Log, connects, subscribes, clears, publishes, emits_display_otp, Environment, IKeyManager, Client,
  set_state, set_session, emit, or_throw, require, ask, ask_, clock, store_set, current_session,
}
use mobile_wallet_protocol.Client.Codec.{encode_protocol}
use mobile_wallet_protocol.Client.Sending.{send_message_live}
use mobile_wallet_protocol.Client.Steps.{ask_-goes}
use mobile_wallet_protocol.Wallet.Otp.{otp_of}
use mobile_wallet_protocol.Wallet.{
  Peer, otp_timeout, offer_payload, send_handshake_offer, wait_for_ack, finalize, execute_untrusted,
}
use mobile_wallet_protocol.Wallet.Connected.{subscribed_log}

module _ (kv : IkvStore) (km : IKeyManager) (env : Environment) (peer : Peer) where
  offer-goes :
      (channel otp encrypted : Text) (deadline : ℕ) (s : Session) (c : Client kv.Store)
      → c.session ≡ some s
      → not_before s.expires_at (env.now c.log) ≡ true
      → km.encrypt
          (stringify (
            encode_protocol
              (handshake_offer (offer_payload kv km env peer s (some otp) (some deadline)))))
          s.their_public_key
        ≡ some encrypted
      → env.answer (publishes channel encrypted ∷ c.log) ≡ returns true
      → send_handshake_offer kv km env peer channel (some otp) (some deadline) c
        ≡ (returns tt, record c { log = publishes channel encrypted ∷ c.log })
  unfolding send_handshake_offer current_session or_throw
  offer-goes channel otp encrypted deadline s c es live made sent =
      let sent_lem =
        send_message_live kv km env channel encrypted
          (handshake_offer (offer_payload kv km env peer s (some otp) (some deadline))) s c es live
          made sent in
      ground (arith, sent_lem)

  ack-goes :
      (deadline : ℕ) (c : Client kv.Store)
      → leb deadline (env.now c.log) ≡ false
      → peer.ack c.log ≡ true
      → wait_for_ack kv km env peer deadline c ≡ (returns tt, c)
  unfolding wait_for_ack clock require
  ack-goes deadline c early came = ground arith

  finalize-goes :
      (channel : Text) (s : Session) (c : Client kv.Store)
      → c.session ≡ some s
      → ((l : Log) → env.answer l ≡ returns true)
      → not_before s.expires_at (env.now c.log) ≡ true
      → (finalize kv km env peer channel c).0 ≡ returns tt
  unfolding finalize current_session or_throw store_set ask_ ask set_state emit
  finalize-goes channel s c e answers live =
      ground
        (arith, answers (clears channel ∷ c.log), set-returns kv (env.now c.log) s c.store live)

  -- The untrusted flow of a wallet does return where the transport answers, the offer that
  -- it sends can be encrypted, the acknowledgement comes within the password's time, and the session does not expire
  -- meanwhile.
  pub execute_live :
      (s : Session) (request : SessionRequest) (encrypted : Text) (c : Client kv.Store)
      → let log = subscribed_log s request c.log in
        let deadline = env.now log + otp_timeout in
        let offered =
          publishes request.channel encrypted
          ∷ emits_display_otp (otp_of (peer.random log)) deadline
          ∷ log in
        ((l : Log) → env.answer l ≡ returns true)
        → ((l : Log) → not_before s.expires_at (env.now l) ≡ true)
        → km.encrypt
            (stringify (
              encode_protocol (
                handshake_offer (
                  offer_payload kv km env peer s
                    (some (otp_of (peer.random log)))
                    (some deadline)))))
            s.their_public_key
          ≡ some encrypted
        → leb deadline (env.now offered) ≡ false
        → peer.ack offered ≡ true
        → (execute_untrusted kv km env peer s request c).0 ≡ returns tt
  unfolding execute_untrusted set_session emit clock
  execute_live s request encrypted c answers live made early came =
      bind-goes _ (ask_-goes kv env connects c answers) (
        bind-goes _ (ask_-goes kv env (subscribes request.channel) _ answers) (
          bind-goes _ (ask_-goes kv env (subscribes s.channel) _ answers) (
            bind-goes _
              (offer-goes request.channel _ encrypted _ s _ refl (live _) made (answers _))
              (bind-goes _ (ack-goes _ _ early came)
                (finalize-goes request.channel s _ refl answers (live _))))))
