-- ===== src/Transport/History.antt =====
-- packages/core/src/transport/websocket/index.ts: `_fetchHistory`, over the relay's history.
use mobile_wallet_protocol.Prelude.{
  ℕ, Text, Bool, false, Option, none, some, List, [], ◌∷◌, ◌++◌, ◌==◌, if◌then◌else◌,
}
use mobile_wallet_protocol.Domain.{transport_history_failed}
use mobile_wallet_protocol.Json.{Str}
use mobile_wallet_protocol.Kv.{IkvStore}
use mobile_wallet_protocol.Transport.Incoming.{Event, error, handle_incoming}

-- How many publications are asked for at most.
abbrev pub history_fetch_limit : ℕ
history_fetch_limit = 50

-- What `sub.history` comes to: publications, oldest first, or an error, with its code if it has one.
pub data HistoryAnswer : Type 0 where
  publications : List Str → HistoryAnswer
  fails : Option ℕ → HistoryAnswer

-- Code 11 means that the connection has closed.
abbrev pub is_closed : Option ℕ → Bool
is_closed none = false
is_closed (some code) = code == 11

module _ (kv : IkvStore) (client : Text) where
  open kv use {Store}

  -- The loop; each call waits for the one before it.
  unfoldable pub handle_each : Text → List Str → Store → List Event × Store
  handle_each channel [] st = ([], st)
  handle_each channel (raw ∷ rest) st =
      let (events, st') = handle_incoming kv client channel raw st in
      let (more, st'') = handle_each channel rest st' in (events ++ more, st'')

  unfoldable pub handle_history : Text → HistoryAnswer → Store → List Event × Store
  handle_history channel (publications raws) st = handle_each channel raws st
  handle_history channel (fails code) st =
      if is_closed code then ([], st) else (error transport_history_failed ∷ [], st)

  -- `_fetchHistory`; `history` is the subscription's own, which is given the limit and nothing else.
  unfoldable pub fetch_history : Text → (ℕ → HistoryAnswer) → Store → List Event × Store
  unfolding handle_history
  fetch_history channel history st = handle_history channel (history history_fetch_limit) st
