-- ===== src/Transport/Storage.antt =====
-- packages/core/src/transport/websocket/store.ts: the client identifier, the nonce counter of each
-- channel, and the latest nonce seen from each sender on a channel.
--
-- A method takes the client identifier, which is fixed once the storage is created, and the key-value
-- storage. A stored record of nonces that is no JSON throws (`none`).
pub mod Keys
pub mod Nonces
use mobile_wallet_protocol.Prelude.{
  ℕ, ◌+◌, Text, codes, Option, none, some, List, [], ◌∷◌, ◌++◌, if◌then◌else◌,
}
use mobile_wallet_protocol.Domain.{Number, num, nan}
use mobile_wallet_protocol.Json.{
  Json, number, object, Fields, no_fields, field, Str, text, json, stringify, parse, is_falsy,
  parse_int, number_to_string,
}
use mobile_wallet_protocol.Kv.{IkvStore, Map, map_set}

unfoldable pub client_id_key : Text
client_id_key = codes "websocket-transport-client-id"

unfoldable pub nonce_key : Text → Text → Text
nonce_key client channel = codes "nonce:" ++ (client ++ (codes ":" ++ channel))

unfoldable pub latest_nonces_key : Text → Text → Text
latest_nonces_key client channel = codes "latest-nonces:" ++ (client ++ (codes ":" ++ channel))

-- `currentNonce + 1`.
abbrev pub next : Number → Number
next (num n) = num (n + 1)
next nan = nan

-- `Object.fromEntries(nonces)` and `new Map(Object.entries(parsed))`.
unfoldable pub from_entries : Map ℕ → Fields
from_entries [] = no_fields
from_entries ((sender, n) ∷ m) = field sender (number n) (from_entries m)

unfoldable pub entries : Fields → Map ℕ
entries no_fields = []
entries (field sender (number n) rest) = (sender, n) ∷ entries rest
entries (field sender Json.null rest) = entries rest
entries (field sender (Json.boolean b) rest) = entries rest
entries (field sender (Json.string t) rest) = entries rest
entries (field sender (Json.array xs) rest) = entries rest
entries (field sender (object fs) rest) = entries rest

abbrev pub nonces_of : Option Json → Option (Map ℕ)
nonces_of none = none
nonces_of (some (object fs)) = some (entries fs)
nonces_of (some Json.null) = none
nonces_of (some (Json.boolean b)) = some []
nonces_of (some (number n)) = some []
nonces_of (some (Json.string t)) = some []
nonces_of (some (Json.array xs)) = some []

-- A string as it was written, given the text of a JSON value.
abbrev pub characters : (Json → Text) → Str → Text
characters layout (text t) = t
characters layout (json v) = layout v

module _ (kv : IkvStore) where
  open kv use {Store}

  -- `create`: the stored client identifier, or a new one (`uuid`), which is stored.
  unfoldable pub create : (Json → Text) → Text → Store → Text × Store
  create layout uuid st = elim (kv.get st client_id_key) [
    | none ↦ (uuid, kv.set st client_id_key (text uuid))
    | some id ↦
        if is_falsy id
        then (uuid, kv.set st client_id_key (text uuid))
        else (characters layout id, st)
  ]

  module _ (client : Text) where
    unfoldable pub current_nonce : Option Str → Number
    current_nonce none = num 0
    current_nonce (some value) = if is_falsy value then num 0 else parse_int value

    unfoldable pub get_next_nonce : Text → Store → Number × Store
    unfolding current_nonce
    get_next_nonce channel st =
        let key = nonce_key client channel in
        let next_nonce = next (current_nonce (kv.get st key)) in
        (next_nonce, kv.set st key (number_to_string next_nonce))

    unfoldable pub latest_of : Option Str → Option (Map ℕ)
    latest_of none = some []
    latest_of (some value) = if is_falsy value then some [] else nonces_of (parse value)

    unfoldable pub get_latest_nonces : Text → Store → Option (Map ℕ)
    unfolding latest_of
    get_latest_nonces channel st = latest_of (kv.get st (latest_nonces_key client channel))

    unfoldable pub set_latest_nonces : Text → Map ℕ → Store → Store
    set_latest_nonces channel nonces st =
        kv.set st (latest_nonces_key client channel) (stringify (object (from_entries nonces)))

    unfoldable pub clear : Text → Store → Store
    clear channel st =
        kv.delete (kv.delete st (nonce_key client channel)) (latest_nonces_key client channel)
