-- ===== src/Agreement.antt =====
-- packages/dapp-client/src and packages/wallet-client/src together: the session that the two clients
-- hold after the handshake.
use mobile_wallet_protocol.Prelude.{
  ℕ, ◌≡◌, ap, ◌∙◌, sym, subst, Text, codes, length, ◌+◌, ◌++◌, ◌∷◌, Option, some,
}
use mathlib.Core.Option.{some-injective}
use mobile_wallet_protocol.Domain.{Bytes, Session, SessionRequest, HandshakeOfferPayload, connected}
use mobile_wallet_protocol.Json.{Json}
use mobile_wallet_protocol.Kv.{IkvStore}
use mobile_wallet_protocol.Exec.{returns}
use mobile_wallet_protocol.Client.{emits_otp_required, Environment, IKeyManager, Client}
use mobile_wallet_protocol.Dapp
use mobile_wallet_protocol.Dapp.{pending_session, session_request, create_final_session}
use mobile_wallet_protocol.Dapp.Connected.{execute_untrusted-returns, waiting_log}
use mobile_wallet_protocol.Dapp.Otp.{EntersWithin, otp_attempts}
use mobile_wallet_protocol.Dapp.Stages.{final-returns, final_session, request-pending}
use mobile_wallet_protocol.Wallet
use mobile_wallet_protocol.Wallet.{create_session, offer_payload, otp_timeout}
use mobile_wallet_protocol.Wallet.Connected.{execute_untrusted_lem, subscribed_log}
use mobile_wallet_protocol.Wallet.Created.{create-returns, offer-channel, offer-key, offer-otp}
use mobile_wallet_protocol.Wallet.Otp.{otp_of}

-- The two ends of one session: the same identifier and channel, and each has the other's public key.
pub record IsPair (dapp wallet : Session) : Type 0 where
  pub id : dapp.id ≡ wallet.id
  pub channel : dapp.channel ≡ wallet.channel
  pub wallet_key : dapp.their_public_key ≡ wallet.key_pair.public_key
  pub dapp_key : wallet.their_public_key ≡ dapp.key_pair.public_key

module _ (kd kw : IkvStore) (dkm wkm : IKeyManager) (denv wenv : Environment) (dapp : Dapp.Peer)
    (wallet : Wallet.Peer) (name : Text) (payload : Option Json) (started : Client kd.Store)
    (there : (b : Bytes) → wallet.base64_to_bytes (dapp.bytes_to_base64 b) ≡ some b)
    (back : (b : Bytes) → dapp.base64_to_bytes (wallet.bytes_to_base64 b) ≡ some b) where
  abbrev shown : SessionRequest
  shown = session_request kd dkm denv dapp name payload started

  abbrev pending : Session
  pending = pending_session kd dkm denv dapp started

  abbrev offer_of : Session → Option Text → Option ℕ → HandshakeOfferPayload
  offer_of = offer_payload kw wkm wenv wallet

  offered-IsPair :
      (otp : Option Text) (deadline : Option ℕ) (wc wu : Client kw.Store) (w : Session)
      (theirs : Bytes)
      → create_session kw wkm wenv wallet shown wc ≡ (returns w, wu)
      → dapp.base64_to_bytes (offer_of w otp deadline).public_key_b64 ≡ some theirs
      → IsPair (final_session pending (offer_of w otp deadline) theirs) w
  offered-IsPair otp deadline wc wu w theirs made decoded =
      let named = request-pending kd dkm denv dapp name payload started in
      let (key, id, channel) = create-returns kw wkm wenv wallet shown w wc wu made in
      record {
        id = sym named.0 ∙ sym id;
        channel =
            ap (λ (t : Text). codes "session:" ++ t)
              (offer-channel kw wkm wenv wallet w otp deadline (wallet.uuid wc.log) channel)
            ∙ sym channel;
        wallet_key = some-injective _ _ (
            sym decoded
            ∙ ap dapp.base64_to_bytes (offer-key kw wkm wenv wallet w otp deadline)
            ∙ back w.key_pair.public_key);
        dapp_key =
            some-injective _ _
              (sym key ∙ ap wallet.base64_to_bytes named.1 ∙ there pending.key_pair.public_key);
      }

  -- When the wallet has made its session of a dApp's request, and the dApp has completed its own
  -- with the offer that the wallet makes of it, the two sessions are the ends of one: base64 is
  -- taken to decode what was encoded, on either side.
  pub sessions_agree :
      (otp : Option Text) (deadline : Option ℕ) (dc du : Client kd.Store) (wc wu : Client kw.Store)
      (w f : Session)
      → create_session kw wkm wenv wallet shown wc ≡ (returns w, wu)
      → create_final_session kd dkm denv dapp pending (offer_of w otp deadline) dc ≡ (returns f, du)
      → IsPair f w
  sessions_agree otp deadline dc du wc wu w f made completed =
      let (theirs, decoded, valid, final, same) =
        final-returns kd dkm denv dapp pending f (offer_of w otp deadline) dc du completed in
      subst (λ (g : Session). IsPair g w) (sym final)
        (offered-IsPair otp deadline wc wu w theirs made decoded)

  -- The password that the wallet shows, and its deadline.
  abbrev pub password : Session → Client kw.Store → Text
  password w wc = otp_of (wallet.random (subscribed_log w shown wc.log))

  abbrev pub open_until : Session → Client kw.Store → ℕ
  open_until w wc = wenv.now (subscribed_log w shown wc.log) + otp_timeout

  -- When both ends of an untrusted handshake have returned, the wallet's for a session that it made
  -- of the dApp's request, and the dApp's with the wallet's offer, both clients are connected, in
  -- the two ends of one session, and the user has entered on the dApp's side, within three tries,
  -- the six digits that the wallet showed. Base64 is taken to decode what was encoded.
  pub handshake_pairs :
      (dc du : Client kd.Store) (wc ws wu : Client kw.Store) (w : Session)
      → create_session kw wkm wenv wallet shown wc ≡ (returns w, ws)
      → Wallet.execute_untrusted kw wkm wenv wallet w shown ws ≡ (returns tt, wu)
      → dapp.offer (waiting_log kd dkm denv dapp shown dc.log)
        ≡ some (offer_of w (some (password w ws)) (some (open_until w ws)))
      → Dapp.execute_untrusted kd dkm denv dapp pending shown dc ≡ (returns tt, du)
      → (f : Session) × IsPair f w
        × (du.session ≡ some f)
        × (du.state ≡ connected)
        × (wu.session ≡ some w)
        × (wu.state ≡ connected)
        × (length (password w ws) ≡ 6)
        × (deadline : ℕ) × EntersWithin
            (password w ws)
            otp_attempts
            (dapp.user (emits_otp_required deadline ∷ waiting_log kd dkm denv dapp shown dc.log))
  handshake_pairs dc du wc ws wu w made accepted carried completed =
      let (digits, encrypted, sealed, acked, held) =
        execute_untrusted_lem kw wkm wenv wallet w shown ws wu accepted in
      let (offer, got, expected, deadline, theirs, asked, entered, decoded, valid, joined) =
        execute_untrusted-returns kd dkm denv dapp pending shown dc du completed in
      let same : offer ≡ offer_of w (some (password w ws)) (some (open_until w ws)) =
        some-injective _ _ (sym got ∙ carried) in
      (
        final_session pending offer theirs,
        subst (λ (o : HandshakeOfferPayload). IsPair (final_session pending o theirs) w) (sym same)
            (offered-IsPair (some (password w ws)) (some (open_until w ws)) wc ws w theirs made (
              ap (λ (o : HandshakeOfferPayload). dapp.base64_to_bytes o.public_key_b64) (sym same)
              ∙ decoded)),
        joined.session,
        joined.state,
        held.session,
        held.state,
        digits,
        deadline,
        subst
            (λ (t : Text).
              EntersWithin t otp_attempts (
                dapp.user
                  (emits_otp_required deadline ∷ waiting_log kd dkm denv dapp shown dc.log)))
            (some-injective _ _ (
              sym asked
              ∙ ap (λ (o : HandshakeOfferPayload). o.otp) same
              ∙ offer-otp kw wkm wenv wallet w (some (password w ws)) (some (open_until w ws))))
            entered,
      )
