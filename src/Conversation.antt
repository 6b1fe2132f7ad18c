-- ===== src/Conversation.antt =====
-- packages/dapp-client/src, packages/wallet-client/src and packages/core/src/base-client.ts together:
-- a request of a connected dApp and the response of its wallet, in the two ends of one session.
use mobile_wallet_protocol.Prelude.{◌≡◌, ap, ◌∙◌, sym, subst, Text, true, some, ◌∷◌}
use mobile_wallet_protocol.Domain.{connected, Session, message, not_before}
use mobile_wallet_protocol.Json.{Json, Str, stringify}
use mobile_wallet_protocol.Kv.{IkvStore}
use mobile_wallet_protocol.Exec.{returns}
use mobile_wallet_protocol.Client.{
  publishes, emits_message, Environment, IKeyManager, Client, on_message,
}
use mobile_wallet_protocol.Client.Codec.{encode_protocol}
use mobile_wallet_protocol.Client.Sending.{on_message-send}
use mobile_wallet_protocol.Dapp
use mobile_wallet_protocol.Dapp.Requests
use mobile_wallet_protocol.Wallet
use mobile_wallet_protocol.Wallet.Responses
use mobile_wallet_protocol.Agreement.{IsPair}

-- What one party's key manager encrypts for a session, the other's decrypts with the session's key.
abbrev pub Opens : IKeyManager → IKeyManager → Session → Type 0
Opens sender receiver s =
    (plain : Str) (sealed : Text)
    → sender.encrypt plain s.key_pair.public_key ≡ some sealed
    → receiver.decrypt sealed s.key_pair.private_key ≡ some plain

module _ (kd kw : IkvStore) (dkm wkm : IKeyManager) (denv wenv : Environment) (dapp : Dapp.Peer)
    (wallet : Wallet.Peer) (d w : Session) (dc : Client kd.Store) (wc : Client kw.Store)
    (sealed : Text) (payload : Json) where
  -- In the two ends of one session, neither expired, a request that the connected dApp can encrypt
  -- and the transport takes is published on the wallet's channel, and the wallet, given what was
  -- published, tells its listeners of the request, and neither client changes otherwise. The key
  -- managers are taken to decrypt what the other encrypts.
  pub request_arrives :
      IsPair d w
      → Opens dkm wkm w
      → dc.session ≡ some d
      → dc.state ≡ connected
      → not_before d.expires_at (denv.now dc.log) ≡ true
      → dkm.encrypt (stringify (encode_protocol (message payload))) d.their_public_key ≡ some sealed
      → denv.answer (publishes d.channel sealed ∷ dc.log) ≡ returns true
      → wc.session ≡ some w
      → not_before w.expires_at (wenv.now wc.log) ≡ true
      → (Dapp.send_request kd dkm denv dapp payload dc
          ≡ (returns tt, record dc { log = publishes w.channel sealed ∷ dc.log }))
        × (on_message kw wkm wenv (Wallet.handle_message kw wkm wenv wallet) sealed wc
            ≡ (returns tt, record wc { log = emits_message payload ∷ wc.log }))
  request_arrives p opens es on live made sent ew fresh = (
    subst
        (λ (channel : Text).
          Dapp.send_request kd dkm denv dapp payload dc
          ≡ (returns tt, record dc { log = publishes channel sealed ∷ dc.log }))
        p.channel (Requests.request_live kd dkm denv dapp sealed payload d dc es on live made sent),
    on_message-send kw wkm wenv (message payload) sealed w wc
          (Wallet.handle_message kw wkm wenv wallet) ew fresh
          (opens _ sealed (ap (dkm.encrypt _) (sym p.wallet_key) ∙ made))
        ∙ Responses.message_told kw wkm wenv wallet payload wc,
  )

  -- In the two ends of one session, neither expired, a response that the connected wallet can
  -- encrypt and the transport takes is published on the dApp's channel, and the dApp, if it is
  -- connected, given what was published, tells its listeners of the response, and neither client
  -- changes otherwise. The key managers are taken to decrypt what the other encrypts.
  pub response_arrives :
      IsPair d w
      → Opens wkm dkm d
      → wc.session ≡ some w
      → wc.state ≡ connected
      → not_before w.expires_at (wenv.now wc.log) ≡ true
      → wkm.encrypt (stringify (encode_protocol (message payload))) w.their_public_key ≡ some sealed
      → wenv.answer (publishes w.channel sealed ∷ wc.log) ≡ returns true
      → dc.session ≡ some d
      → dc.state ≡ connected
      → not_before d.expires_at (denv.now dc.log) ≡ true
      → (Wallet.send_response kw wkm wenv wallet payload wc
          ≡ (returns tt, record wc { log = publishes d.channel sealed ∷ wc.log }))
        × (on_message kd dkm denv (Dapp.handle_message kd dkm denv dapp) sealed dc
            ≡ (returns tt, record dc { log = emits_message payload ∷ dc.log }))
  response_arrives p opens ew on live made sent es up fresh = (
    subst
        (λ (channel : Text).
          Wallet.send_response kw wkm wenv wallet payload wc
          ≡ (returns tt, record wc { log = publishes channel sealed ∷ wc.log }))
        (sym p.channel)
        (Responses.response_live kw wkm wenv wallet sealed payload w wc ew on live made sent),
    on_message-send kd dkm denv (message payload) sealed d dc (Dapp.handle_message kd dkm denv dapp)
          es fresh (opens _ sealed (ap (wkm.encrypt _) (sym p.dapp_key) ∙ made))
        ∙ Requests.message_told kd dkm denv dapp payload dc up,
  )
