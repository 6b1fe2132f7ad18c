-- ===== src/Transport/Incoming.antt =====
-- packages/core/src/transport/websocket/index.ts: incoming messages and their deduplication.
--
-- `handle_incoming` is the handler when nothing runs between its `await`s; Incoming/Race splits it
-- at them. The result lists the events that are emitted.
pub mod Once
pub mod Race
pub mod Known
use mobile_wallet_protocol.Prelude.{
  ℕ, Text, codes, text_eq, Option, none, some, List, [], ◌∷◌, ltb, if◌then◌else◌,
}
use mobile_wallet_protocol.Domain.{ErrorCode, transport_parse_failed, transport_history_failed}
use mobile_wallet_protocol.Json.{Json, Str, parse, get_field, as_string, as_number}
use mobile_wallet_protocol.Kv.{IkvStore, Map, map_get, map_set}
use mobile_wallet_protocol.Transport.Storage.{get_latest_nonces, set_latest_nonces}

-- The envelope of a message.
pub record TransportMessage : Type 0 where
  pub client_id : Text
  pub nonce : ℕ
  pub payload : Text

pub data Event : Type 0 where
  message : Text → Text → Event
  error : ErrorCode → Event

infixl 5 ◌>>=◌
abbrev ◌>>=◌ : {A B : Type 0} → Option A → (A → Option B) → Option B
none >>= f = none
some a >>= f = f a

-- `JSON.parse` and the checks of the three fields' types; `none` is an exception.
unfoldable pub read_message : Str → Option TransportMessage
read_message raw = do
  v ← parse raw
  client_id ← as_string (get_field (codes "clientId") v)
  nonce ← as_number (get_field (codes "nonce") v)
  payload ← as_string (get_field (codes "payload") v)
  some (record { client_id = client_id; nonce = nonce; payload = payload })

-- `latestNonces.get(clientId) || 0`.
abbrev pub nonce_or_zero : Option ℕ → ℕ
nonce_or_zero none = 0
nonce_or_zero (some n) = n

abbrev pub parse_failure : List Event
parse_failure = error transport_parse_failed ∷ []

module _ (kv : IkvStore) (client : Text) where
  open kv use {Store}

  unfoldable pub accept : Text → TransportMessage → Map ℕ → Store → List Event × Store
  accept channel m latest st =
      if ltb (nonce_or_zero (map_get latest m.client_id)) m.nonce
      then (
        message channel m.payload ∷ [],
        set_latest_nonces kv client channel (map_set latest m.client_id m.nonce) st,
      )
      else ([], st)

  unfoldable pub receive : Text → TransportMessage → Store → List Event × Store
  receive channel m st =
      if text_eq m.client_id client
      then ([], st)
      else elim (get_latest_nonces kv client channel st) [
        | none ↦ (parse_failure, st)
        | some latest ↦ accept channel m latest st
      ]

  unfoldable pub handle_incoming : Text → Str → Store → List Event × Store
  handle_incoming channel raw st = elim (read_message raw) [
    | none ↦ (parse_failure, st)
    | some m ↦ receive channel m st
  ]

  -- Handlers that run one after another, on messages of any channels.
  pub handle_all : List (Text × Str) → Store → Store
  handle_all [] st = st
  handle_all ((channel, raw) ∷ rest) st = handle_all rest (handle_incoming channel raw st).1
