-- ===== src/Tests/Exchanges.antt =====
-- The theorems on a request and a response at a dApp and a wallet whose key managers encrypt one
-- message.
use mobile_wallet_protocol.Prelude.{
  ◌≡◌, refl, Text, codes, text_eq, text_eq_iff, ◌&&◌, true, Option, none, some, [], ◌∷◌, arith,
  if◌then◌else◌,
}
use mobile_wallet_protocol.Domain.{connected, num, Session, message}
use mobile_wallet_protocol.Json.{
  Str, text, json, null, boolean, number, string, array, object, no_fields, field, stringify,
}
use mobile_wallet_protocol.Kv.{in_memory, Map}
use mobile_wallet_protocol.Exec.{returns}
use mobile_wallet_protocol.Client.{publishes, emits_message, IKeyManager, Client, on_message}
use mobile_wallet_protocol.Client.Codec.{encode_protocol}
use mobile_wallet_protocol.Dapp
use mobile_wallet_protocol.Wallet
use mobile_wallet_protocol.Agreement.{IsPair}
use mobile_wallet_protocol.Conversation.{request_arrives, response_arrives}
use mobile_wallet_protocol.Tests.World.{world, wallet_peer}
use mobile_wallet_protocol.Tests.Agreements.{dapp_peer}

abbrev only_message : Str
only_message = stringify (encode_protocol (message null))

-- The message whose payload is null is encrypted, and no other text.
abbrev seal : Str → Option Text
seal (json (object (field k (string t) (field l null no_fields)))) =
    if text_eq k (codes "type") && (text_eq t (codes "message") && text_eq l (codes "payload"))
    then some (codes "s")
    else none
seal _ = none

abbrev null_keys : IKeyManager
null_keys = record {
  generate_key_pair = λ log. record { public_key = []; private_key = [] };
  encrypt = λ plain key. seal plain;
  decrypt = λ sealed key. some only_message;
  validate_peer_key = λ key. true;
}

opened : (plain : Str) (sealed : Text) → seal plain ≡ some sealed → some only_message ≡ some plain
unfolding encode_protocol
opened (json (object (field k (string t) (field l null no_fields)))) sealed e = ground (
  arith,
  text_eq_iff k (codes "type"),
  text_eq_iff t (codes "message"),
  text_eq_iff l (codes "payload"),
)
opened (text t) sealed e = cc
opened (json null) sealed e = cc
opened (json (boolean b)) sealed e = cc
opened (json (number n)) sealed e = cc
opened (json (string t)) sealed e = cc
opened (json (array vs)) sealed e = cc
opened (json (object no_fields)) sealed e = cc
opened (json (object (field k null fs))) sealed e = cc
opened (json (object (field k (boolean b) fs))) sealed e = cc
opened (json (object (field k (number n) fs))) sealed e = cc
opened (json (object (field k (array vs) fs))) sealed e = cc
opened (json (object (field k (object gs) fs))) sealed e = cc
opened (json (object (field k (string t) no_fields))) sealed e = cc
opened (json (object (field k (string t) (field l (boolean b) fs)))) sealed e = cc
opened (json (object (field k (string t) (field l (number n) fs)))) sealed e = cc
opened (json (object (field k (string t) (field l (string u) fs)))) sealed e = cc
opened (json (object (field k (string t) (field l (array vs) fs)))) sealed e = cc
opened (json (object (field k (string t) (field l (object gs) fs)))) sealed e = cc
opened (json (object (field k (string t) (field l null (field m v fs))))) sealed e = cc

abbrev dapp_end : Session
dapp_end = record {
  id = codes "a";
  channel = codes "session:c";
  key_pair = record { public_key = 1 ∷ []; private_key = 2 ∷ [] };
  their_public_key = 3 ∷ [];
  expires_at = num 1000;
}

abbrev wallet_end : Session
wallet_end = record dapp_end {
  key_pair = record { public_key = 3 ∷ []; private_key = 4 ∷ [] };
  their_public_key = 1 ∷ [];
}

ends-IsPair : IsPair dapp_end wallet_end
ends-IsPair = record { id = refl; channel = refl; wallet_key = refl; dapp_key = refl }

abbrev holding : Session → Client (Map Str)
holding s = record { session = some s; state = connected; store = []; log = [] }

request_arrives_example :
    (Dapp.send_request in_memory null_keys world dapp_peer null (holding dapp_end) ≡ (
      returns tt,
      record (holding dapp_end) { log = publishes (codes "session:c") (codes "s") ∷ [] },
    ))
    × (on_message in_memory null_keys world
          (Wallet.handle_message in_memory null_keys world wallet_peer)
          (codes "s")
          (holding wallet_end)
        ≡ (returns tt, record (holding wallet_end) { log = emits_message null ∷ [] }))
unfolding encode_protocol text_eq
request_arrives_example =
    request_arrives in_memory in_memory null_keys null_keys world world dapp_peer wallet_peer
      dapp_end wallet_end (holding dapp_end) (holding wallet_end) (codes "s") null ends-IsPair
      opened refl refl refl refl refl refl refl

response_arrives_example :
    (Wallet.send_response in_memory null_keys world wallet_peer null (holding wallet_end) ≡ (
      returns tt,
      record (holding wallet_end) { log = publishes (codes "session:c") (codes "s") ∷ [] },
    ))
    × (on_message in_memory null_keys world
          (Dapp.handle_message in_memory null_keys world dapp_peer)
          (codes "s")
          (holding dapp_end)
        ≡ (returns tt, record (holding dapp_end) { log = emits_message null ∷ [] }))
unfolding encode_protocol text_eq
response_arrives_example =
    response_arrives in_memory in_memory null_keys null_keys world world dapp_peer wallet_peer
      dapp_end wallet_end (holding dapp_end) (holding wallet_end) (codes "s") null ends-IsPair
      opened refl refl refl refl refl refl refl refl
