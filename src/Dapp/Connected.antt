-- ===== src/Dapp/Connected.antt =====
-- What holds of a dApp's client whose `connect` has returned.
use mobile_wallet_protocol.Prelude.{ℕ, ◌≡◌, refl, ap, subst, ◌∙◌, Text, true, some, ◌∷◌}
use mobile_wallet_protocol.Domain.{Bytes, Session, SessionRequest, HandshakeOfferPayload}
use mobile_wallet_protocol.Kv.{IkvStore}
use mobile_wallet_protocol.Exec.{bind-returns, continue, returns, ◌>>=◌, ◌>>◌}
use mobile_wallet_protocol.Client.{
  Log, connects, subscribes, emits_otp_required, Environment, IKeyManager, Client, set_session,
}
use mobile_wallet_protocol.Dapp.Otp.{EntersWithin, otp_attempts, otp_accepted_iff}
use mobile_wallet_protocol.Dapp.{
  Peer, handle_otp_input, create_final_session, finalize_untrusted, acknowledge, execute_untrusted,
}
use mobile_wallet_protocol.Dapp.Stages.{
  final_session, otp-returns, final-returns, finalize-returns, acknowledge-returns, wait-then,
}
use mobile_wallet_protocol.Client.Steps.{IsJoined, IsJoined-from, ask_-then}

module _ (kv : IkvStore) (km : IKeyManager) (env : Environment) (peer : Peer) where
  -- The end of the untrusted flow.
  tail-returns :
      (f : Session) (channel : Text) (c u : Client kv.Store)
      → c.session ≡ some f
      → continue (acknowledge kv km env peer f c) (λ _. finalize_untrusted kv km env peer channel)
        ≡ (returns tt, u)
      → IsJoined kv env f c u
  tail-returns f channel c u es e =
      let (a, w, m, rest) = bind-returns (acknowledge kv km env peer f c) _ e in
      let acked = acknowledge-returns kv km env peer f c w m in
      IsJoined-from kv env f c w u (ap (λ (v : Client kv.Store). v.store) acked.1) (
        finalize-returns kv km env peer channel f w u
          (ap (λ (v : Client kv.Store). v.session) acked.1 ∙ es) rest)

  -- The part of the untrusted flow that follows the password.
  complete-returns :
      (s : Session) (offer : HandshakeOfferPayload) (channel : Text) (c u : Client kv.Store)
      → continue (create_final_session kv km env peer s offer c) (λ f.
        set_session (some f)
        >> (acknowledge kv km env peer f >> finalize_untrusted kv km env peer channel))
        ≡ (returns tt, u)
      → (key : Bytes) × (peer.base64_to_bytes offer.public_key_b64 ≡ some key)
        × (km.validate_peer_key key ≡ true)
        × IsJoined kv env (final_session s offer key) c u
  unfolding set_session
  complete-returns s offer channel c u e =
      let (f, w, m, rest) = bind-returns (create_final_session kv km env peer s offer c) _ e in
      let made = final-returns kv km env peer s f offer c w m in
      (
        made.0,
        made.1,
        made.2,
        subst (λ (g : Session). IsJoined kv env g c u) made.3
            (subst (λ (v : Client kv.Store). IsJoined kv env f v u) made.4
              (IsJoined-from kv env f w (record w { session = some f }) u refl
                (tail-returns f channel (record w { session = some f }) u refl rest))),
      )

  -- The log when the handler starts to wait for the offer.
  abbrev pub waiting_log : SessionRequest → Log → Log
  waiting_log request log = subscribes request.channel ∷ connects ∷ log

  -- From the password on.
  otp-then :
      (s : Session) (offer : HandshakeOfferPayload) (channel : Text) (c u : Client kv.Store)
      → continue (handle_otp_input kv km env peer offer c) (λ _.
        create_final_session kv km env peer s offer >>= λ f.
        set_session (some f)
        >> (acknowledge kv km env peer f >> finalize_untrusted kv km env peer channel))
        ≡ (returns tt, u)
      → (expected : Text) × (deadline : ℕ) × (key : Bytes) × (offer.otp ≡ some expected)
        × EntersWithin expected otp_attempts (peer.user (emits_otp_required deadline ∷ c.log))
        × (peer.base64_to_bytes offer.public_key_b64 ≡ some key)
        × (km.validate_peer_key key ≡ true)
        × IsJoined kv env (final_session s offer key) c u
  otp-then s offer channel c u e =
      let (a, w, m, rest) = bind-returns (handle_otp_input kv km env peer offer c) _ e in
      let entered = otp-returns kv km env peer offer c w m in
      let done = complete-returns s offer channel w u rest in
      (
        entered.0,
        entered.1,
        done.0,
        entered.2,
        (otp_accepted_iff entered.0 _).0 entered.3,
        done.1,
        done.2,
        IsJoined-from kv env (final_session s offer done.0) c w u
            (ap (λ (v : Client kv.Store). v.store) entered.4) done.3,
      )

  -- The untrusted flow of a dApp returns only after the user has entered the password of the
  -- wallet's offer within three tries. The client is then connected, in the session that the offer
  -- completes, on the wallet's channel and with the wallet's key, which was validated. That session
  -- had not expired, and has been given to the session store.
  pub execute_untrusted-returns :
      (s : Session) (request : SessionRequest) (c u : Client kv.Store)
      → execute_untrusted kv km env peer s request c ≡ (returns tt, u)
      → (offer : HandshakeOfferPayload) × (peer.offer (waiting_log request c.log) ≡ some offer)
        × (expected : Text) × (deadline : ℕ) × (key : Bytes) × (offer.otp ≡ some expected)
        × EntersWithin expected otp_attempts
            (peer.user (emits_otp_required deadline ∷ waiting_log request c.log))
        × (peer.base64_to_bytes offer.public_key_b64 ≡ some key)
        × (km.validate_peer_key key ≡ true)
        × IsJoined kv env (final_session s offer key) c u
  unfolding execute_untrusted
  execute_untrusted-returns s request c u e =
      let asked =
        ask_-then kv env (subscribes request.channel) _ (record c { log = connects ∷ c.log }) u
          (ask_-then kv env connects _ c u e) in
      let (offer, got, rest) =
        wait-then kv km env peer request.expires_at _ (record c { log = waiting_log request c.log })
          u asked in
      let done =
        otp-then s offer request.channel (record c { log = waiting_log request c.log }) u rest in
      (
        offer,
        got,
        done.0,
        done.1,
        done.2,
        done.3,
        done.4,
        done.5,
        done.6,
        IsJoined-from kv env _ c (record c { log = waiting_log request c.log }) u refl done.7,
      )
