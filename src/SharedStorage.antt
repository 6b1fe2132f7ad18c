-- ===== src/SharedStorage.antt =====
-- packages/core/src/session-store and packages/core/src/transport/websocket/store.ts on one storage,
-- as in apps/load-tests/src/client/session-pair.ts, which gives one `InMemoryKVStore` to both.
use mobile_wallet_protocol.Prelude.{ℕ, ◌≡◌, refl, Text, text_eq, List}
use mobile_wallet_protocol.Json.{Json}
use mobile_wallet_protocol.Kv.{IkvStore}
use mobile_wallet_protocol.SessionStore.{session_key, master_list_key, get_master_list}
use mobile_wallet_protocol.SessionStore.MasterList.{Call, calls}
use mobile_wallet_protocol.SessionStore.View.{view}
use mobile_wallet_protocol.SessionStore.Footprint
use mobile_wallet_protocol.SessionStore.Footprint.{calls_keep, view-congr, get_master_list-congr}
use mobile_wallet_protocol.Transport.Storage.{
  nonce_key, latest_nonces_key, client_id_key, get_latest_nonces,
}
use mobile_wallet_protocol.Transport.Storage.Nonces.{counter}
use mobile_wallet_protocol.Transport.Footprint as TransportFootprint
use mobile_wallet_protocol.Transport.Footprint.{
  Effect, effects, effects_keep, counter-congr, get_latest_nonces-congr,
}

nonce_key-IsForeign : (client channel : Text) → Footprint.IsForeign (nonce_key client channel)
unfolding session_key master_list_key nonce_key text_eq
nonce_key-IsForeign client channel = record { sessions = λ id. refl; master = refl }

latest_nonces_key-IsForeign :
    (client channel : Text) → Footprint.IsForeign (latest_nonces_key client channel)
unfolding session_key master_list_key latest_nonces_key text_eq
latest_nonces_key-IsForeign client channel = record { sessions = λ id. refl; master = refl }

session_key-IsForeign : (id : Text) → TransportFootprint.IsForeign (session_key id)
unfolding session_key client_id_key nonce_key latest_nonces_key text_eq
session_key-IsForeign id = record { client = refl; nonce = λ c ch. refl; latest = λ c ch. refl }

master_list_key-IsForeign : TransportFootprint.IsForeign master_list_key
unfolding master_list_key client_id_key nonce_key latest_nonces_key text_eq
master_list_key-IsForeign = record { client = refl; nonce = λ c ch. refl; latest = λ c ch. refl }

-- On a storage that the session store and a transport share, no method of the session store moves a
-- nonce counter or changes the record of seen nonces of a channel, and nothing that the transport
-- does adds, changes or removes a live session or changes the list of sessions.
pub storage_shared :
    (kv : IkvStore) (layout : Json → Text) (client : Text) (cs : List (ℕ × Call)) (es : List Effect)
    (st : kv.Store) (channel : Text) (now : ℕ) (id : Text)
    → (counter kv client channel (calls kv cs st) ≡ counter kv client channel st)
      × (get_latest_nonces kv client channel (calls kv cs st)
          ≡ get_latest_nonces kv client channel st)
      × (view kv now (effects kv layout client es st) id ≡ view kv now st id)
      × (get_master_list kv (effects kv layout client es st) ≡ get_master_list kv st)
storage_shared kv layout client cs es st channel now id =
    let written = calls kv cs st in
    let used = effects kv layout client es st in
    (
      counter-congr kv client channel written st
          (calls_keep kv (nonce_key client channel) (nonce_key-IsForeign client channel) cs st),
      get_latest_nonces-congr kv client channel written st (
          calls_keep kv (latest_nonces_key client channel)
            (latest_nonces_key-IsForeign client channel) cs st),
      view-congr kv now id used st
          (effects_keep kv layout client (session_key id) (session_key-IsForeign id) es st),
      get_master_list-congr kv used st
          (effects_keep kv layout client master_list_key master_list_key-IsForeign es st),
    )
