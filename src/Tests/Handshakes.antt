-- ===== src/Tests/Handshakes.antt =====
-- The theorems on the connections of a dApp and a wallet at concrete inputs.
use mobile_wallet_protocol.Prelude.{
  ℕ, ◌≡◌, ◌⊎◌, refl, Text, codes, length, text_eq, true, none, some, [], ◌∷◌, inl, inr,
}
use mobile_wallet_protocol.Domain.{
  disconnected, connection_mode, request_expired, session_error, SessionRequest, untrusted, Bytes,
  HandshakeOfferPayload,
}
use mobile_wallet_protocol.Json.{Str}
use mobile_wallet_protocol.Kv.{in_memory, Map}
use mobile_wallet_protocol.Exec.{returns}
use mobile_wallet_protocol.Client.{Client}
use mobile_wallet_protocol.Client.Steps.{IsJoined}
use mobile_wallet_protocol.Dapp
use mobile_wallet_protocol.Dapp.{execute_untrusted, execute_trusted}
use mobile_wallet_protocol.Dapp.Trusted.{execute_trusted_live, execute_trusted-returns}
use mobile_wallet_protocol.Dapp.Otp.{submits, EntersWithin, otp_attempts}
use mobile_wallet_protocol.Dapp.Stages.{final_session}
use mobile_wallet_protocol.Dapp.Connected.{execute_untrusted-returns}
use mobile_wallet_protocol.Dapp.Complete.{IsWilling, execute_untrusted_live}
use mobile_wallet_protocol.Wallet
use mobile_wallet_protocol.Wallet.Failed.{connect-throws, connect_expired}
use mobile_wallet_protocol.Wallet.Otp.{otp_of}
use mobile_wallet_protocol.Wallet.Connected.{execute_untrusted_lem}
use mobile_wallet_protocol.Wallet.Complete.{execute_live}
use mobile_wallet_protocol.Tests.{alice}
use mobile_wallet_protocol.Tests.World.{world, keys, wallet_peer, idle, pair}

-- A connection in which the user enters a wrong password first.
abbrev offer : HandshakeOfferPayload
offer = record {
  public_key_b64 = codes "k";
  channel_id = codes "u";
  otp = some (codes "123456");
  deadline = some 60;
}

abbrev dapp_peer : Dapp.Peer
dapp_peer = record {
  uuid = λ log. codes "u";
  offer = λ log. some offer;
  user = λ log. submits (codes "1") ∷ submits (codes "123456") ∷ [];
  base64_to_bytes = λ t. some (9 ∷ []);
  bytes_to_base64 = λ b. codes "k";
}

abbrev request : SessionRequest
request = record {
  id = codes "r";
  mode = codes "untrusted";
  channel = codes "handshake:r";
  public_key_b64 = codes "k";
  expires_at = 50;
  initial_message = none;
}

abbrev willing : IsWilling in_memory keys world dapp_peer alice request []
willing = record {
  offer = offer;
  expected = codes "123456";
  deadline = 60;
  key = 9 ∷ [];
  encrypt = λ plain. codes "x";
  answers = λ log. refl;
  offered = refl;
  in_time = refl;
  otp = refl;
  until = refl;
  open_still = refl;
  entered = inr (inl refl);
  decoded = refl;
  valid = refl;
  encrypts = λ plain. refl;
  live = λ log. refl;
}

abbrev joined : Client (Map Str)
joined = (execute_untrusted in_memory keys world dapp_peer alice request idle).1

execute_untrusted_live_example :
    (execute_untrusted in_memory keys world dapp_peer alice request idle).0 ≡ returns tt
execute_untrusted_live_example =
    execute_untrusted_live in_memory keys world dapp_peer alice request idle willing

execute_untrusted-returns_example :
    (o : HandshakeOfferPayload) × (some offer ≡ some o)
    × (expected : Text) × (deadline : ℕ) × (key : Bytes) × (o.otp ≡ some expected)
    × EntersWithin expected otp_attempts (submits (codes "1") ∷ submits (codes "123456") ∷ [])
    × (some (9 ∷ []) ≡ some key)
    × (true ≡ true)
    × IsJoined in_memory world (final_session alice o key) idle joined
execute_untrusted-returns_example =
    execute_untrusted-returns in_memory keys world dapp_peer alice request idle joined (
      pair (execute_untrusted in_memory keys world dapp_peer alice request idle) (returns tt)
        (execute_untrusted_live in_memory keys world dapp_peer alice request idle willing))

-- A wallet whose dApp acknowledges.
abbrev offered : Client (Map Str)
offered = (Wallet.execute_untrusted in_memory keys world wallet_peer alice request idle).1

execute_live_example :
    (Wallet.execute_untrusted in_memory keys world wallet_peer alice request idle).0 ≡ returns tt
execute_live_example =
    execute_live in_memory keys world wallet_peer alice request (codes "x") idle (λ log. refl)
      (λ log. refl) refl refl refl

execute_untrusted_lem_example :
    (length (otp_of 7) ≡ 6)
    × (encrypted : Text) × (some (codes "x") ≡ some encrypted)
    × (true ≡ true)
    × IsJoined in_memory world alice idle offered
execute_untrusted_lem_example =
    execute_untrusted_lem in_memory keys world wallet_peer alice request idle offered (
      pair (Wallet.execute_untrusted in_memory keys world wallet_peer alice request idle)
        (returns tt)
        (execute_live in_memory keys world wallet_peer alice request (codes "x") idle (λ log. refl)
          (λ log. refl) refl refl refl))

-- A request that has expired.
abbrev old_request : SessionRequest
old_request = record request { expires_at = 10 }

connect-throws_example : ((idle.state ≡ disconnected) × (idle.session ≡ none)) ⊎ (idle ≡ idle)
unfolding connection_mode text_eq
connect-throws_example =
    connect-throws in_memory keys world wallet_peer old_request idle idle
      (session_error request_expired)
      (connect_expired in_memory keys world wallet_peer untrusted old_request idle refl refl refl)

abbrev trusting : Client (Map Str)
trusting = (execute_trusted in_memory keys world dapp_peer alice request idle).1

execute_trusted-returns_example :
    (o : HandshakeOfferPayload) × (some offer ≡ some o)
    × (key : Bytes) × (some (9 ∷ []) ≡ some key)
    × (true ≡ true)
    × IsJoined in_memory world (final_session alice o key) idle trusting
execute_trusted-returns_example =
    execute_trusted-returns in_memory keys world dapp_peer alice request idle trusting (
      pair (execute_trusted in_memory keys world dapp_peer alice request idle) (returns tt) (
        execute_trusted_live in_memory keys world dapp_peer alice request offer (9 ∷ []) idle
          (λ log. refl) refl refl refl refl refl))
