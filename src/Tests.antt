-- ===== src/Tests.antt =====
-- The concrete data of the tests.
mod Sessions
mod Sockets
mod Sharing
mod World
mod Clients
mod Handshakes
mod Tools
mod Composed
mod Agreements
mod Exchanges
mod Managers
mod Runs
use mobile_wallet_protocol.Prelude.{Text, codes, Option, some, List, [], ◌∷◌}
use mobile_wallet_protocol.Domain.{Session, KeyPair, num}
use mobile_wallet_protocol.Json.{Str}
use mobile_wallet_protocol.Kv.{in_memory, Map}
use mobile_wallet_protocol.SessionStore

abbrev pub key_pair : KeyPair
key_pair = record { public_key = 1 ∷ 2 ∷ 3 ∷ []; private_key = 4 ∷ [] }

-- A session that expires at 1000.
abbrev pub alice : Session
alice = record {
  id = codes "a";
  channel = codes "session:c";
  key_pair = key_pair;
  their_public_key = 5 ∷ 6 ∷ [];
  expires_at = num 1000;
}

abbrev pub one_session : Map Str
one_session = (SessionStore.set in_memory 0 alice []).1
