-- ===== src/Tests/Managers.antt =====
-- The theorems on the wallet app's clients and storage at concrete inputs.
use mobile_wallet_protocol.Prelude.{
  ℕ, ◌≤◌, ◌≡◌, ◌⊎◌, refl, Text, codes, text_eq, All, is_some, true, none, some, [], arith,
}
use mobile_wallet_protocol.Json.{Str}
use mobile_wallet_protocol.Kv.{in_memory, map_get, Map}
use mobile_wallet_protocol.Kv.Prefixed.{Apart}
use mobile_wallet_protocol.Exec.{returns}
use mobile_wallet_protocol.SessionStore
use mobile_wallet_protocol.SessionStore.View.{view}
use mobile_wallet_protocol.Client.{Client}
use mobile_wallet_protocol.SessionManager.{Manager, resume_all_clients}
use mobile_wallet_protocol.SessionManager.Resumed.{IsJoined, resume_all_settles}
use mobile_wallet_protocol.Tests.{one_session}
use mobile_wallet_protocol.Tests.World.{world, keys, wallet_peer}

-- The app starts, with one session stored.
abbrev starting : Manager (Map Str)
starting = record { clients = []; store = one_session; notices = [] }

nobody : (id : Text) (c : Client (Map Str)) → map_get starting.clients id ≡ some c → IsJoined keys c
unfolding map_get
nobody id c e = cc

resume_all_settles_example :
    let (r, u) = resume_all_clients in_memory keys (λ id. world) (λ id. wallet_peer) 20 starting in
    (r ≡ returns tt)
    × All
        (λ s.
          (is_some (map_get u.clients s.id) ≡ true)
          ⊎ ((later : ℕ) → 20 ≤ later → view in_memory later u.store s.id ≡ none))
        (SessionStore.list in_memory 20 one_session).0
    × ((id : Text) (c : Client (Map Str)) → map_get u.clients id ≡ some c → IsJoined keys c)
resume_all_settles_example =
    resume_all_settles in_memory keys (λ id. world) (λ id. wallet_peer) 20 20 starting
      (λ id l. λ e. cc) (λ id. omega arith) nobody

-- The prefixes of a demonstration's dApp and wallet.
dapp_wallet-Apart : Apart (codes "dapp-") (codes "wallet-")
unfolding text_eq
dapp_wallet-Apart k j = refl
