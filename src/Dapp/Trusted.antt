-- ===== src/Dapp/Trusted.antt =====
-- What holds of a dApp's client when its trusted flow has returned.
use mobile_wallet_protocol.Prelude.{
  ℕ, ◌≡◌, refl, ap, subst, Bool-cases, inl, inr, true, false, some, ◌∷◌, arith, Text, ltb,
}
use mobile_wallet_protocol.Domain.{
  Bytes, Session, SessionRequest, HandshakeOfferPayload, not_before,
}
use mobile_wallet_protocol.Kv.{IkvStore}
use mobile_wallet_protocol.SessionStore.View.{set-rejects, set-returns}
use mobile_wallet_protocol.Exec.{bind-goes, bind-returns, continue, returns, ◌>>◌}
use mobile_wallet_protocol.Client.{
  Log, subscribes, clears, connects, Environment, IKeyManager, Client, set_state, set_session, emit,
  or_throw, require, ask, ask_, clock, store_set, current_session,
}
use mobile_wallet_protocol.Client.Steps.{IsJoined, IsJoined-from, ask_-then, ask_-goes}
use mobile_wallet_protocol.Dapp.{
  Peer, await_offer, wait_for_trusted_offer, create_final_session, create_trusted_session,
  finalize_trusted, execute_trusted,
}
use mobile_wallet_protocol.Dapp.Stages.{final_session, final-returns}
use mobile_wallet_protocol.Dapp.Connected.{waiting_log}

module _ (kv : IkvStore) (km : IKeyManager) (env : Environment) (peer : Peer) where
  wait-returns :
      (expiry : ℕ) (c u : Client kv.Store) (offer : HandshakeOfferPayload)
      → wait_for_trusted_offer kv km env peer expiry c ≡ (returns offer, u)
      → (peer.offer c.log ≡ some offer) × (u ≡ c)
  unfolding wait_for_trusted_offer await_offer clock or_throw
  wait-returns expiry c u offer e = (ground arith, ground arith)

  finalize-returns :
      (channel : Text) (f : Session) (c u : Client kv.Store)
      → c.session ≡ some f
      → finalize_trusted kv km env peer f channel c ≡ (returns tt, u)
      → IsJoined kv env f c u
  unfolding finalize_trusted current_session or_throw store_set ask_ ask set_state emit
  finalize-returns channel f c u es e =
      elim (Bool-cases (not_before f.expires_at (env.now c.log))) [
        | inr stale ↦ absurd (ground (arith, set-rejects kv (env.now c.log) f c.store stale))
        | inl live ↦ record {
          log = c.log;
          session = ground arith;
          state = ground arith;
          live = live;
          stored = ground arith;
        }
      ]

  offer-then :
      (s : Session) (offer : HandshakeOfferPayload) (channel : Text) (c u : Client kv.Store)
      → continue
          (create_trusted_session kv km env peer s offer c)
          (λ f. set_session (some f) >> finalize_trusted kv km env peer f channel)
        ≡ (returns tt, u)
      → (key : Bytes) × (peer.base64_to_bytes offer.public_key_b64 ≡ some key)
        × (km.validate_peer_key key ≡ true)
        × IsJoined kv env (final_session s offer key) c u
  unfolding set_session create_trusted_session
  offer-then s offer channel c u e =
      let (f, w, m, rest) = bind-returns (create_trusted_session kv km env peer s offer c) _ e in
      let made = final-returns kv km env peer s f offer c w m in
      let joined = finalize-returns channel f (record w { session = some f }) u refl rest in
      (
        made.0,
        made.1,
        made.2,
        subst (λ (g : Session). IsJoined kv env g c u) made.3
            (IsJoined-from kv env f c (record w { session = some f }) u
              (ap (λ (v : Client kv.Store). v.store) made.4) joined),
      )

  -- The trusted flow of a dApp returns only after the wallet's offer has come, with a valid key. The
  -- client is then connected, in the session that the offer completes; that session had not expired,
  -- and has been given to the session store.
  pub execute_trusted-returns :
      (s : Session) (request : SessionRequest) (c u : Client kv.Store)
      → execute_trusted kv km env peer s request c ≡ (returns tt, u)
      → (offer : HandshakeOfferPayload) × (peer.offer (waiting_log kv km env peer request c.log)
          ≡ some offer)
        × (key : Bytes) × (peer.base64_to_bytes offer.public_key_b64 ≡ some key)
        × (km.validate_peer_key key ≡ true)
        × IsJoined kv env (final_session s offer key) c u
  unfolding execute_trusted
  execute_trusted-returns s request c u e =
      let two =
        ask_-then kv env (subscribes request.channel) _ (record c { log = connects ∷ c.log }) u
          (ask_-then kv env connects _ c u e) in
      let waiting : Client kv.Store = record c { log = waiting_log kv km env peer request c.log } in
      let (offer, w, m, rest) =
        bind-returns (wait_for_trusted_offer kv km env peer request.expires_at waiting) _ two in
      let got = wait-returns request.expires_at waiting w offer m in
      let done = offer-then s offer request.channel w u rest in
      (
        offer,
        got.0,
        done.0,
        done.1,
        done.2,
        IsJoined-from kv env _ c w u (ap (λ (v : Client kv.Store). v.store) got.1) done.3,
      )

  finalize-goes :
      (channel : Text) (f : Session) (c : Client kv.Store)
      → c.session ≡ some f
      → ((l : Log) → env.answer l ≡ returns true)
      → not_before f.expires_at (env.now c.log) ≡ true
      → (finalize_trusted kv km env peer f channel c).0 ≡ returns tt
  unfolding finalize_trusted current_session or_throw store_set ask_ ask set_state emit
  finalize-goes channel f c e answers live = ground (
    arith,
    answers (subscribes f.channel ∷ c.log),
    answers (clears channel ∷ subscribes f.channel ∷ c.log),
    set-returns kv (env.now c.log) f c.store live,
  )

  wait-goes :
      (expiry : ℕ) (offer : HandshakeOfferPayload) (c : Client kv.Store)
      → peer.offer c.log ≡ some offer
      → ltb expiry (env.now c.log) ≡ false
      → wait_for_trusted_offer kv km env peer expiry c ≡ (returns offer, c)
  unfolding wait_for_trusted_offer await_offer clock or_throw
  wait-goes expiry offer c offered early = ground arith

  final-goes :
      (s : Session) (offer : HandshakeOfferPayload) (key : Bytes) (c : Client kv.Store)
      → peer.base64_to_bytes offer.public_key_b64 ≡ some key
      → km.validate_peer_key key ≡ true
      → create_trusted_session kv km env peer s offer c ≡ (returns (final_session s offer key), c)
  unfolding create_trusted_session create_final_session or_throw require
  final-goes s offer key c decoded valid = ground arith

  -- The trusted flow of a dApp does return where the transport answers, the request has not expired
  -- when the wait begins, the wallet's offer comes with a valid key, and the session has not expired
  -- when it is stored.
  pub execute_trusted_live :
      (s : Session) (request : SessionRequest) (offer : HandshakeOfferPayload) (key : Bytes)
      (c : Client kv.Store)
      → let log = waiting_log kv km env peer request c.log in
        ((l : Log) → env.answer l ≡ returns true)
        → peer.offer log ≡ some offer
        → ltb request.expires_at (env.now log) ≡ false
        → peer.base64_to_bytes offer.public_key_b64 ≡ some key
        → km.validate_peer_key key ≡ true
        → not_before s.expires_at (env.now log) ≡ true
        → (execute_trusted kv km env peer s request c).0 ≡ returns tt
  unfolding execute_trusted set_session
  execute_trusted_live s request offer key c answers offered early decoded valid live =
      bind-goes _ (ask_-goes kv env connects c answers) (
        bind-goes _ (ask_-goes kv env (subscribes request.channel) _ answers) (
          bind-goes _ (wait-goes request.expires_at offer _ offered early) (
            bind-goes _ (final-goes s offer key _ decoded valid)
              (finalize-goes request.channel (final_session s offer key) _ refl answers live))))
