-- ===== src/Tests/Agreements.antt =====
-- The theorem on the handshake at a dApp and a wallet that connect, the wallet showing 100007.
use mobile_wallet_protocol.Prelude.{
  ℕ, ◌+◌, ◌≡◌, refl, codes, length, true, none, some, [], ◌∷◌, inl,
}
use mobile_wallet_protocol.Domain.{connected, num, Session, SessionRequest, HandshakeOfferPayload}
use mobile_wallet_protocol.Json.{Str}
use mobile_wallet_protocol.Kv.{in_memory, Map}
use mobile_wallet_protocol.Exec.{returns}
use mobile_wallet_protocol.SessionStore.{default_session_ttl}
use mobile_wallet_protocol.Client.{Client}
use mobile_wallet_protocol.Dapp
use mobile_wallet_protocol.Dapp.{pending_session, session_request}
use mobile_wallet_protocol.Dapp.Complete.{IsWilling, execute_untrusted_live}
use mobile_wallet_protocol.Dapp.Otp.{submits, EntersWithin, otp_attempts}
use mobile_wallet_protocol.Wallet
use mobile_wallet_protocol.Wallet.{offer_payload, otp_timeout}
use mobile_wallet_protocol.Wallet.Complete.{execute_live}
use mobile_wallet_protocol.Wallet.Created.{create_live}
use mobile_wallet_protocol.Wallet.Otp.{otp_of, to_string}
use mobile_wallet_protocol.Agreement.{IsPair, handshake_pairs}
use mobile_wallet_protocol.Tests.{alice}
use mobile_wallet_protocol.Tests.World.{world, keys, idle, pair}

-- Two peers for which the base64 text of some bytes is the bytes.
abbrev wallet_peer : Wallet.Peer
wallet_peer = record {
  uuid = λ log. codes "u";
  random = λ log. 7;
  ack = λ log. true;
  base64_to_bytes = λ t. some t;
  bytes_to_base64 = λ b. b;
}

abbrev theirs : Session
theirs = record {
  id = codes "r";
  channel = codes "session:u";
  key_pair = alice.key_pair;
  their_public_key = alice.key_pair.public_key;
  expires_at = num (20 + default_session_ttl);
}

abbrev offer : HandshakeOfferPayload
offer =
    offer_payload in_memory keys world wallet_peer theirs (some (otp_of 7))
      (some (20 + otp_timeout))

abbrev pub dapp_peer : Dapp.Peer
dapp_peer = record {
  uuid = λ log. codes "r";
  offer = λ log. some offer;
  user = λ log. submits (codes "100007") ∷ [];
  base64_to_bytes = λ t. some t;
  bytes_to_base64 = λ b. b;
}

abbrev request : SessionRequest
request = session_request in_memory keys world dapp_peer (codes "untrusted") none idle

abbrev pending : Session
pending = pending_session in_memory keys world dapp_peer idle

willing : IsWilling in_memory keys world dapp_peer pending request []
unfolding session_request pending_session offer_payload otp_of to_string
willing = record {
  offer = offer;
  expected = codes "100007";
  deadline = 20 + otp_timeout;
  key = alice.key_pair.public_key;
  encrypt = λ plain. codes "x";
  answers = λ log. refl;
  offered = refl;
  in_time = refl;
  otp = refl;
  until = refl;
  open_still = refl;
  entered = inl refl;
  decoded = refl;
  valid = refl;
  encrypts = λ plain. refl;
  live = λ log. refl;
}

abbrev joined : Client (Map Str)
joined = (Dapp.execute_untrusted in_memory keys world dapp_peer pending request idle).1

abbrev accepted : Client (Map Str)
accepted = (Wallet.execute_untrusted in_memory keys world wallet_peer theirs request idle).1

handshake_pairs_example :
    (f : Session) × IsPair f theirs
    × (joined.session ≡ some f)
    × (joined.state ≡ connected)
    × (accepted.session ≡ some theirs)
    × (accepted.state ≡ connected)
    × (length (otp_of 7) ≡ 6)
    × (deadline : ℕ) × EntersWithin (otp_of 7) otp_attempts (submits (codes "100007") ∷ [])
unfolding session_request pending_session offer_payload
handshake_pairs_example =
    handshake_pairs in_memory in_memory keys keys world world dapp_peer wallet_peer
      (codes "untrusted") none idle (λ b. refl) (λ b. refl) idle joined idle idle accepted theirs
      (create_live in_memory keys world wallet_peer request alice.key_pair.public_key idle refl
        refl)
      (pair (Wallet.execute_untrusted in_memory keys world wallet_peer theirs request idle)
        (returns tt)
        (execute_live in_memory keys world wallet_peer theirs request (codes "x") idle (λ log. refl)
          (λ log. refl) refl refl refl))
      refl
      (pair (Dapp.execute_untrusted in_memory keys world dapp_peer pending request idle)
        (returns tt)
        (execute_untrusted_live in_memory keys world dapp_peer pending request idle willing))
