-- ===== src/Tests/World.antt =====
-- A world where the transport answers and the time is 20, and another where it is 2000.
use mobile_wallet_protocol.Prelude.{◌≡◌, ap, codes, true, none, some, [], ◌∷◌}
use mobile_wallet_protocol.Domain.{disconnected, connected, handshake_ack}
use mobile_wallet_protocol.Json.{Str, stringify}
use mobile_wallet_protocol.Kv.{Map}
use mobile_wallet_protocol.Exec.{returns}
use mobile_wallet_protocol.Client.{Environment, IKeyManager, Client}
use mobile_wallet_protocol.Client.Codec.{encode_protocol}
use mobile_wallet_protocol.Wallet
use mobile_wallet_protocol.Tests.{key_pair, alice, one_session}

abbrev pub world : Environment
world = record { answer = λ log. returns true; now = λ log. 20; can_reconnect = true }

abbrev pub late_world : Environment
late_world = record { answer = λ log. returns true; now = λ log. 2000; can_reconnect = true }

-- Every text is the encryption of the acknowledgement.
abbrev pub keys : IKeyManager
keys = record {
  generate_key_pair = λ log. key_pair;
  encrypt = λ plain key. some (codes "x");
  decrypt = λ encrypted key. some (stringify (encode_protocol handshake_ack));
  validate_peer_key = λ key. true;
}

abbrev pub wallet_peer : Wallet.Peer
wallet_peer = record {
  uuid = λ log. codes "u";
  random = λ log. 7;
  ack = λ log. true;
  base64_to_bytes = λ t. some (9 ∷ []);
  bytes_to_base64 = λ b. codes "k";
}

abbrev pub idle : Client (Map Str)
idle = record { session = none; state = disconnected; store = one_session; log = [] }

abbrev pub active : Client (Map Str)
active = record { session = some alice; state = connected; store = one_session; log = [] }

pub pair : {R S : Type 0} (p : R × S) (r : R) → p.0 ≡ r → p ≡ (r, p.1)
pair p r e = ap (λ (x : _). (x, p.1)) e
