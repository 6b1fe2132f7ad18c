-- ===== src/Wallet/Connected.antt =====
-- What holds of a wallet's client when its untrusted flow has returned.
use mobile_wallet_protocol.Prelude.{
  ℕ, ◌+◌, ◌≡◌, refl, ap, ◌∙◌, sym, Text, length, Bool-cases, inl, inr, true, some, ◌∷◌, arith,
}
use mobile_wallet_protocol.Domain.{Session, SessionRequest, handshake_offer, not_before}
use mobile_wallet_protocol.Json.{stringify}
use mobile_wallet_protocol.Kv.{IkvStore}
use mobile_wallet_protocol.SessionStore.View.{set-rejects}
use mobile_wallet_protocol.Exec.{returns, continue, bind-returns, ◌>>◌}
use mobile_wallet_protocol.Client.{
  Log, connects, subscribes, publishes, emits_display_otp, Environment, IKeyManager, Client,
  set_state, set_session, emit, or_throw, require, ask, ask_, clock, store_set, current_session,
}
use mobile_wallet_protocol.Client.Codec.{encode_protocol}
use mobile_wallet_protocol.Client.Sending.{send_message-returns}
use mobile_wallet_protocol.Client.Steps.{IsJoined, IsJoined-from, ask_-then}
use mobile_wallet_protocol.Wallet.Otp.{otp_of, length-otp_of}
use mobile_wallet_protocol.Wallet.{
  Peer, otp_timeout, offer_payload, send_handshake_offer, wait_for_ack, finalize, execute_untrusted,
}

-- The log when the password is drawn.
abbrev pub subscribed_log : Session → SessionRequest → Log → Log
subscribed_log s request log = subscribes s.channel ∷ subscribes request.channel ∷ connects ∷ log

module _ (kv : IkvStore) (km : IKeyManager) (env : Environment) (peer : Peer) where
  offer-returns :
      (channel : Text) (otp : Text) (deadline : ℕ) (s : Session) (c u : Client kv.Store)
      → c.session ≡ some s
      → send_handshake_offer kv km env peer channel (some otp) (some deadline) c ≡ (returns tt, u)
      → (encrypted : Text) × (km.encrypt
            (stringify (
              encode_protocol
                (handshake_offer (offer_payload kv km env peer s (some otp) (some deadline)))))
            s.their_public_key
          ≡ some encrypted)
        × (u ≡ record c { log = publishes channel encrypted ∷ c.log })
  unfolding send_handshake_offer current_session or_throw
  offer-returns channel otp deadline s c u es e =
      let sent =
        send_message-returns kv km env channel
          (handshake_offer (offer_payload kv km env peer s (some otp) (some deadline))) c u
          (ground arith) in
      (sent.1, ground (arith, sent.2, sent.4), sent.5)

  ack-returns :
      (deadline : ℕ) (c u : Client kv.Store)
      → wait_for_ack kv km env peer deadline c ≡ (returns tt, u)
      → (peer.ack c.log ≡ true) × (u ≡ c)
  unfolding wait_for_ack clock require
  ack-returns deadline c u e = elim (Bool-cases (peer.ack c.log)) [
    | inl came ↦ (came, ground arith)
    | inr missing ↦ absurd (ground arith)
  ]

  finalize-returns :
      (channel : Text) (s : Session) (c u : Client kv.Store)
      → c.session ≡ some s
      → finalize kv km env peer channel c ≡ (returns tt, u)
      → IsJoined kv env s c u
  unfolding finalize current_session or_throw store_set ask_ ask set_state emit
  finalize-returns channel s c u es e =
      elim (Bool-cases (not_before s.expires_at (env.now c.log))) [
        | inr stale ↦ absurd (ground (arith, set-rejects kv (env.now c.log) s c.store stale))
        | inl live ↦ record {
          log = c.log;
          session = ground arith;
          state = ground arith;
          live = live;
          stored = ground arith;
        }
      ]

  -- From the password on.
  tail-returns :
      (channel : Text) (otp : Text) (deadline : ℕ) (s : Session) (c u : Client kv.Store)
      → c.session ≡ some s
      → continue
          (send_handshake_offer kv km env peer channel (some otp) (some deadline) c)
          (λ _. wait_for_ack kv km env peer deadline >> finalize kv km env peer channel)
        ≡ (returns tt, u)
      → (encrypted : Text) × (km.encrypt
            (stringify (
              encode_protocol
                (handshake_offer (offer_payload kv km env peer s (some otp) (some deadline)))))
            s.their_public_key
          ≡ some encrypted)
        × (peer.ack (publishes channel encrypted ∷ c.log) ≡ true)
        × IsJoined kv env s c u
  tail-returns channel otp deadline s c u es e =
      let (a, w, m, rest) =
        bind-returns (send_handshake_offer kv km env peer channel (some otp) (some deadline) c) _
          e in
      let sent = offer-returns channel otp deadline s c w es m in
      let (b, v, n, end) = bind-returns (wait_for_ack kv km env peer deadline w) _ rest in
      let came = ack-returns deadline w v n in
      (
        sent.0,
        sent.1,
        ap (λ (x : Client kv.Store). peer.ack x.log) (sym sent.2) ∙ came.0,
        IsJoined-from kv env s c v u (ap (λ (x : Client kv.Store). x.store) (came.1 ∙ sent.2)) (
            finalize-returns channel s v u
              (ap (λ (x : Client kv.Store). x.session) (came.1 ∙ sent.2) ∙ es) end),
      )

  -- The untrusted flow of a wallet returns only after the dApp's acknowledgement has come: the
  -- password that the user is shown, of six digits, went out encrypted in the offer, with its
  -- deadline, on the request's channel, and the acknowledgement followed. The client is then
  -- connected, and the session, which had not expired, has been given to the session store.
  pub execute_untrusted_lem :
      (s : Session) (request : SessionRequest) (c u : Client kv.Store)
      → execute_untrusted kv km env peer s request c ≡ (returns tt, u)
      → let log = subscribed_log s request c.log in
        let otp = otp_of (peer.random log) in
        let deadline = env.now log + otp_timeout in
        (length otp ≡ 6)
        × (encrypted : Text) × (km.encrypt
              (stringify (
                encode_protocol
                  (handshake_offer (offer_payload kv km env peer s (some otp) (some deadline)))))
              s.their_public_key
            ≡ some encrypted)
        × (peer.ack (publishes request.channel encrypted ∷ emits_display_otp otp deadline ∷ log)
            ≡ true)
        × IsJoined kv env s c u
  unfolding execute_untrusted set_session emit clock
  execute_untrusted_lem s request c u e =
      let one = ask_-then kv env connects _ c u e in
      let two =
        ask_-then kv env (subscribes request.channel) _ (record c { log = connects ∷ c.log }) u
          one in
      let three =
        ask_-then kv env (subscribes s.channel) _
          (record c { log = subscribes request.channel ∷ connects ∷ c.log }) u two in
      let log = subscribed_log s request c.log in
      let otp = otp_of (peer.random log) in
      let deadline = env.now log + otp_timeout in
      let shown : Client kv.Store = record c {
        session = some s;
        log = emits_display_otp otp deadline ∷ log;
      } in
      let done = tail-returns request.channel otp deadline s shown u refl three in
      (
        length-otp_of (peer.random log),
        done.0,
        done.1,
        done.2,
        IsJoined-from kv env s c shown u refl done.3,
      )
