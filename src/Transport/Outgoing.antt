-- ===== src/Transport/Outgoing.antt =====
-- packages/core/src/transport/websocket/index.ts: `_process`, which wraps a message in its envelope
-- and publishes it. `relay` is what the calls of Centrifuge's `publish` come to, by their number.
use mobile_wallet_protocol.Prelude.{ℕ, Text, codes, List, [], ◌∷◌, ◌++◌}
use mobile_wallet_protocol.Domain.{Result, ok, err, Number}
use mobile_wallet_protocol.Json.{Json, object, string, field, no_fields, of_number, Str, stringify}
use mobile_wallet_protocol.Kv.{IkvStore}
use mobile_wallet_protocol.Utils.Retry.{retry}
use mobile_wallet_protocol.Transport.Storage.{get_next_nonce}

abbrev pub max_retry_attempts : ℕ
max_retry_attempts = 5

abbrev pub base_retry_delay : ℕ
base_retry_delay = 100

-- `{ clientId, nonce, payload }`.
unfoldable pub envelope : Text → Number → Text → Json
envelope client nonce payload = object (
    field (codes "clientId") (string client) (
      field (codes "nonce") (of_number nonce) (field (codes "payload") (string payload) no_fields)))

-- What one `_process` leaves: its outcome, the waits between the attempts, the text that the relay
-- has taken, if any, and the storage. A nonce is used up even where no attempt succeeds.
pub record Processed (Store : Type 0) : Type 0 where
  pub outcome : Result (Unit {0})
  pub waits : List ℕ
  pub published : List Str
  pub store : Store

-- The relay has the text where an attempt succeeds; an attempt that fails leaves nothing there.
abbrev pub on_relay : Result (Unit {0}) → Str → List Str
on_relay (ok u) raw = raw ∷ []
on_relay (err e) raw = []

module _ (kv : IkvStore) (client : Text) where
  open kv use {Store}

  unfoldable pub process : (ℕ → Result (Unit {0})) → Text → Text → Store → Processed Store
  process relay channel payload st =
      let (nonce, st') = get_next_nonce kv client channel st in
      let (outcome, waits) = retry relay max_retry_attempts base_retry_delay in
      record {
        outcome = outcome;
        waits = waits;
        published = on_relay outcome (stringify (envelope client nonce payload));
        store = st';
      }

  -- What the relay has of the messages of a channel that are processed one after another, as
  -- `_processQueue` does: an error of one is caught. Each comes with what its calls of `publish` come
  -- to.
  unfoldable pub process_all : Text → List (Text × (ℕ → Result (Unit {0}))) → Store → List Str
  process_all channel [] st = []
  process_all channel ((payload, relay) ∷ rest) st =
      let done = process relay channel payload st in
      done.published ++ process_all channel rest done.store
