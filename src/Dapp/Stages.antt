-- ===== src/Dapp/Stages.antt =====
-- What each step of the dApp's handlers has done when it returns.
use mobile_wallet_protocol.Prelude.{
  ℕ, ◌++◌, ◌≡◌, refl, subst, Text, codes, Bool-cases, Option-cases, inl, inr, true, Option, some,
  ◌∷◌, arith,
}
use mobile_wallet_protocol.Domain.{Bytes, Session, handshake_ack, HandshakeOfferPayload, not_before}
use mobile_wallet_protocol.Json.{Json}
use mobile_wallet_protocol.Kv.{IkvStore}
use mobile_wallet_protocol.SessionStore.View.{set-rejects}
use mobile_wallet_protocol.Exec.{bind-returns, continue, returns, throws, waits, Exec}
use mobile_wallet_protocol.Client.{
  subscribes, publishes, emits_otp_required, Environment, IKeyManager, Client, set_state, emit,
  or_throw, require, ask, ask_, clock, store_set, current_session,
}
use mobile_wallet_protocol.Client.Sending.{send_message-returns}
use mobile_wallet_protocol.Client.Steps.{IsJoined}
use mobile_wallet_protocol.Dapp.Otp.{accepted, otp_loop}
use mobile_wallet_protocol.Dapp.{
  Peer, await_offer, wait_for_untrusted_offer, settle, given_deadline, given_otp, handle_otp_input,
  create_final_session, finalize_untrusted, acknowledge, pending_session, session_request,
}

-- The session that an offer completes.
abbrev pub final_session : Session → HandshakeOfferPayload → Bytes → Session
final_session s offer key = record s {
  channel = codes "session:" ++ offer.channel_id;
  their_public_key = key;
}

module _ (kv : IkvStore) (km : IKeyManager) (env : Environment) (peer : Peer) where
  -- The request names the pending session, and has its public key.
  pub request-pending :
      (mode : Text) (payload : Option Json) (c : Client kv.Store)
      → let s = pending_session kv km env peer c in
        let request = session_request kv km env peer mode payload c in
        (request.id ≡ s.id) × (request.public_key_b64 ≡ peer.bytes_to_base64 s.key_pair.public_key)
  unfolding pending_session session_request
  request-pending mode payload c = (refl, refl)

  -- `_waitForHandshakeOffer` returned what the wallet sent, before the request's expiry.
  pub wait-returns :
      (expiry : ℕ) (c u : Client kv.Store) (offer : HandshakeOfferPayload)
      → wait_for_untrusted_offer kv km env peer expiry c ≡ (returns offer, u)
      → (peer.offer c.log ≡ some offer) × (u ≡ c)
  unfolding wait_for_untrusted_offer await_offer clock or_throw
  wait-returns expiry c u offer e = (ground arith, ground arith)

  pub otp-returns :
      (offer : HandshakeOfferPayload) (c u : Client kv.Store)
      → handle_otp_input kv km env peer offer c ≡ (returns tt, u)
      → (expected : Text) × (deadline : ℕ) × (offer.otp ≡ some expected)
        × (otp_loop expected 0 (peer.user (emits_otp_required deadline ∷ c.log)) ≡ accepted)
        × (u ≡ record c { log = emits_otp_required deadline ∷ c.log })
  unfolding handle_otp_input settle clock or_throw emit
  otp-returns offer c u e = elim (Option-cases (given_deadline kv km env peer offer.deadline)) [
    | inl missing ↦ absurd (ground arith)
    | inr (deadline, d) ↦ elim (Option-cases (given_otp kv km env peer offer.otp)) [
      | inl missing ↦ absurd (ground arith)
      | inr (expected, o) ↦ (expected, deadline, ground arith, ground arith, ground arith)
    ]
  ]

  pub final-returns :
      (s f : Session) (offer : HandshakeOfferPayload) (c u : Client kv.Store)
      → create_final_session kv km env peer s offer c ≡ (returns f, u)
      → (key : Bytes) × (peer.base64_to_bytes offer.public_key_b64 ≡ some key)
        × (km.validate_peer_key key ≡ true)
        × (f ≡ final_session s offer key)
        × (u ≡ c)
  unfolding create_final_session or_throw require
  final-returns s f offer c u e = elim (Option-cases (peer.base64_to_bytes offer.public_key_b64)) [
    | inl failed ↦ absurd (ground arith)
    | inr (key, k) ↦ (key, k, ground arith, ground arith, ground arith)
  ]

  pub finalize-returns :
      (channel : Text) (f : Session) (c u : Client kv.Store)
      → c.session ≡ some f
      → finalize_untrusted kv km env peer channel c ≡ (returns tt, u)
      → IsJoined kv env f c u
  unfolding finalize_untrusted current_session or_throw store_set ask_ ask set_state emit
  finalize-returns channel f c u es e =
      elim (Bool-cases (not_before f.expires_at (env.now c.log))) [
        | inr stale ↦ absurd (ground (arith, set-rejects kv (env.now c.log) f c.store stale))
        | inl live ↦ record {
          log = c.log;
          session = ground arith;
          state = ground arith;
          live = live;
          stored = ground arith;
        }
      ]

  pub acknowledge-returns :
      (s : Session) (c u : Client kv.Store)
      → acknowledge kv km env peer s c ≡ (returns tt, u)
      → (encrypted : Text) × (u
          ≡ record c { log = publishes s.channel encrypted ∷ subscribes s.channel ∷ c.log })
  unfolding acknowledge ask_ ask
  acknowledge-returns s c u e =
      elim (env.answer (subscribes s.channel ∷ c.log))
          as (λ r.
            env.answer (subscribes s.channel ∷ c.log) ≡ r
            → (encrypted : Text) × (u ≡ record c {
              log = publishes s.channel encrypted ∷ subscribes s.channel ∷ c.log;
            })) [
              | returns b ↦ λ q.
                  let sent =
                    send_message-returns kv km env s.channel handshake_ack
                      (record c { log = subscribes s.channel ∷ c.log }) u (ground arith) in
                  (sent.1, sent.5)
              | throws x ↦ λ q. absurd (ground arith)
              | waits ↦ λ q. absurd (ground arith)
            ]
        refl

  pub wait-then :
      (expiry : ℕ) (f : HandshakeOfferPayload → Exec (Client kv.Store) (Unit {0}))
      (c u : Client kv.Store)
      → continue (wait_for_untrusted_offer kv km env peer expiry c) f ≡ (returns tt, u)
      → (offer : HandshakeOfferPayload) × (peer.offer c.log ≡ some offer)
        × (f offer c ≡ (returns tt, u))
  wait-then expiry f c u e =
      let (offer, w, m, rest) =
        bind-returns (wait_for_untrusted_offer kv km env peer expiry c) f e in
      let got = wait-returns expiry c w offer m in
      (offer, got.0, subst (λ (v : Client kv.Store). f offer v ≡ (returns tt, u)) got.1 rest)
