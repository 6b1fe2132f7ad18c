-- ===== src/Tests/Composed.antt =====
-- The theorems on components that work together, at concrete inputs.
use mathlib.Core.List.{Sublistᴰ}
use mobile_wallet_protocol.Prelude.{
  ℕ, zero, suc, ◌≡◌, ◌⊎◌, refl, sym, Text, codes, text_eq, ◌++◌, map, false, none, some, List, [],
  ◌∷◌, arith, inl, inr, take, drop, length, ◌-◌, All,
}
use mobile_wallet_protocol.Domain.{
  disconnected, session_error, request_expired, Result, ok, err, foreign, num,
}
use mobile_wallet_protocol.Json.{Str, find_field}
use mobile_wallet_protocol.Kv.{in_memory, map_get, Map}
use mobile_wallet_protocol.Exec.{throws}
use mobile_wallet_protocol.SessionStore.{get_master_list}
use mobile_wallet_protocol.SessionStore.MasterList.{
  Call, sets, gets, deletes, lists, collects, calls, empty-IsIndexed, IsIndexed,
}
use mobile_wallet_protocol.SessionStore.View.{view, view-missing}
use mobile_wallet_protocol.SessionStore.Refinement.{answers, Meets, store-Meets}
use mobile_wallet_protocol.Transport.Storage.{get_latest_nonces, clear}
use mobile_wallet_protocol.Transport.Storage.Nonces.{counter, clear_lem}
use mobile_wallet_protocol.Transport.Footprint.{Effect, creates, numbers, receives, effects}
use mobile_wallet_protocol.SharedStorage.{storage_shared}
use mobile_wallet_protocol.Transport.Incoming.{TransportMessage, message, read_message}
use mobile_wallet_protocol.Transport.Incoming.Once.{deliveries}
use mobile_wallet_protocol.Transport.Incoming.Known.{HasSeen}
use mobile_wallet_protocol.Transport.History.{
  HistoryAnswer, handle_each, fetch_history, publications,
}
use mobile_wallet_protocol.Transport.Outgoing.{envelope}
use mobile_wallet_protocol.Transport.Delivery.Sent.{wire, numbered, IsTaken, process_all-numbered}
use mobile_wallet_protocol.Transport.Delivery.Recovery.{KeepsLast, recovery_complete}
use mobile_wallet_protocol.Transport.Delivery.Others.{others, is_own}
use mobile_wallet_protocol.Transport.Delivery.Arrivals.{deliveries_sublist}
use mobile_wallet_protocol.Client.{Client}
use mobile_wallet_protocol.Dapp
use mobile_wallet_protocol.Dapp.{pending_session, session_request}
use mobile_wallet_protocol.Dapp.Aborted.{connect_aborts, connect_unanswered}
use mobile_wallet_protocol.Tests.{alice, one_session}
use mobile_wallet_protocol.Tests.Sessions.{alice-IsStorable}
use mobile_wallet_protocol.Tests.World.{world, keys, idle, pair}

-- A session is stored, listed, found, deleted and looked for.
abbrev store_calls : List (ℕ × Call)
store_calls =
    (10, sets alice)
    ∷ (20, lists)
    ∷ (30, gets (codes "a"))
    ∷ (40, collects)
    ∷ (2000, gets (codes "a"))
    ∷ (2000, deletes (codes "a"))
    ∷ []

empty_store-IsIndexed : IsIndexed in_memory []
unfolding map_get
empty_store-IsIndexed = empty-IsIndexed in_memory [] (λ key. refl)

store-Meets_example : Meets store_calls (answers in_memory store_calls []) (λ id. none)
unfolding map_get
store-Meets_example =
    store-Meets in_memory store_calls 0 (λ id. none) []
      (
        omega arith,
        alice-IsStorable,
        (
          omega arith,
          tt,
          (omega arith, tt, (omega arith, tt, (omega arith, tt, (omega arith, tt, tt)))),
        ),
      )
      empty_store-IsIndexed (λ later id le. view-missing in_memory later id [] refl)

-- The first messages of a sender.
abbrev hello : TransportMessage
hello = record { client_id = codes "peer"; nonce = 1; payload = codes "a" }

abbrev second : TransportMessage
second = record { client_id = codes "peer"; nonce = 2; payload = codes "b" }

-- The storage of a client, shared by its session store and its transport.
abbrev transport_effects : List Effect
transport_effects =
    creates (codes "me") ∷ numbers (codes "ch") ∷ receives (codes "ch") (wire hello) ∷ []

storage_shared_example :
    (counter in_memory (codes "me") (codes "ch") (calls in_memory store_calls one_session)
      ≡ counter in_memory (codes "me") (codes "ch") one_session)
    × (get_latest_nonces in_memory
          (codes "me")
          (codes "ch")
          (calls in_memory store_calls one_session)
        ≡ get_latest_nonces in_memory (codes "me") (codes "ch") one_session)
    × (view in_memory 20
          (effects in_memory (λ v. []) (codes "me") transport_effects one_session)
          (codes "a")
        ≡ view in_memory 20 one_session (codes "a"))
    × (get_master_list in_memory
          (effects in_memory (λ v. []) (codes "me") transport_effects one_session)
        ≡ get_master_list in_memory one_session)
storage_shared_example =
    storage_shared in_memory (λ v. []) (codes "me") store_calls transport_effects one_session
      (codes "ch") 20 (codes "a")

-- The storages of a sender and a receiver, with nothing sent or seen on the channel yet.
abbrev fresh : Text → Map Str
fresh client = clear in_memory client (codes "ch") []

nothing_sent : counter in_memory (codes "peer") (codes "ch") (fresh (codes "peer")) ≡ num 0
unfolding text_eq
nothing_sent = (clear_lem in_memory (codes "peer") (codes "ch") (codes "ch") []).0

nothing_seen : HasSeen in_memory (codes "me") (codes "ch") (codes "peer") 0 (fresh (codes "me"))
unfolding text_eq map_get
nothing_seen = record {
  latest = [];
  readable = (clear_lem in_memory (codes "me") (codes "ch") (codes "ch") []).1;
  nonce = refl;
}

other_client : text_eq (codes "peer") (codes "me") ≡ false
unfolding text_eq
other_client = refl

abbrev relayed : ℕ → Result (Unit {0})
relayed n = ok tt

-- The relay refuses the first attempt.
abbrev delayed : ℕ → Result (Unit {0})
delayed zero = err (foreign 0)
delayed (suc n) = ok tt

abbrev before_offline : List (Text × (ℕ → Result (Unit {0})))
before_offline = (codes "a", relayed) ∷ []

abbrev while_offline : List (Text × (ℕ → Result (Unit {0})))
while_offline = (codes "b", delayed) ∷ (codes "c", relayed) ∷ []

-- A relay that keeps the last 20 publications of a channel, as backend/config.json has it for the
-- channel of a session.
abbrev relay_history : List Str → ℕ → HistoryAnswer
relay_history stream limit = publications (take limit (drop (length stream - 20) stream))

relay_history-KeepsLast : KeepsLast 20 relay_history
unfolding KeepsLast
relay_history-KeepsLast stream limit = refl

before_offline-Taken : All IsTaken before_offline
unfolding IsTaken
before_offline-Taken = ((0, omega arith, refl), tt)

while_offline-Taken : All IsTaken while_offline
unfolding IsTaken
while_offline-Taken = ((1, omega arith, refl), ((0, omega arith, refl), tt))

abbrev third : TransportMessage
third = record { client_id = codes "peer"; nonce = 3; payload = codes "c" }

-- What the receiver has published itself, on the channel's one and the other side of the break.
abbrev own_message : Str
own_message = wire (record { client_id = codes "me"; nonce = 1; payload = codes "mine" })

recovery_complete_example :
    let live =
      handle_each in_memory
        (codes "me")
        (codes "ch")
        (own_message ∷ wire hello ∷ [])
        (fresh (codes "me")) in
    deliveries live.0
      ++ deliveries
          (fetch_history in_memory
            (codes "me")
            (codes "ch")
            (relay_history (own_message ∷ wire hello ∷ wire second ∷ own_message ∷ wire third ∷ []))
            live.1).0
    ≡ map (message (codes "ch")) (codes "a" ∷ codes "b" ∷ codes "c" ∷ [])
unfolding others is_own read_message find_field text_eq envelope numbered
recovery_complete_example =
    recovery_complete in_memory in_memory (codes "peer") (codes "me") (codes "ch") other_client
      relay_history 20 before_offline while_offline 0 (fresh (codes "peer"))
      (own_message ∷ wire hello ∷ []) (wire second ∷ own_message ∷ wire third ∷ [])
      (fresh (codes "me")) relay_history-KeepsLast (omega arith) before_offline-Taken
      while_offline-Taken nothing_sent nothing_seen
      (sym (
        process_all-numbered in_memory (codes "peer") before_offline 0 (codes "ch")
          (fresh (codes "peer")) before_offline-Taken nothing_sent))
      (sym (
        process_all-numbered in_memory (codes "peer") (before_offline ++ while_offline) 0
          (codes "ch") (fresh (codes "peer")) (before_offline-Taken.0, while_offline-Taken)
          nothing_sent))
      (omega arith)

-- The second message comes first, and once more after the first.
deliveries_sublist_example :
    Sublistᴰ
      (deliveries
        (handle_each in_memory
          (codes "me")
          (codes "ch")
          (map wire (second ∷ hello ∷ second ∷ []))
          (fresh (codes "me"))).0)
      (map (message (codes "ch")) (codes "a" ∷ codes "b" ∷ []))
unfolding numbered
deliveries_sublist_example =
    deliveries_sublist in_memory (codes "me") (codes "ch") (codes "peer")
      (codes "a" ∷ codes "b" ∷ []) 0 0 (second ∷ hello ∷ second ∷ []) (fresh (codes "me"))
      other_client nothing_seen (inr (inl refl), (inl refl, (inr (inl refl), tt)))

-- A dApp to which no offer comes.
abbrev silent_peer : Dapp.Peer
silent_peer = record {
  uuid = λ log. codes "r";
  offer = λ log. none;
  user = λ log. [];
  base64_to_bytes = λ t. some t;
  bytes_to_base64 = λ b. b;
}

-- No offer comes.
abbrev given_up : Client (Map Str)
given_up = (Dapp.connect in_memory keys world silent_peer (some (codes "trusted")) none idle).1

connect_aborts_example :
    ((given_up.state ≡ disconnected) × (given_up.session ≡ none)) ⊎ (given_up ≡ idle)
connect_aborts_example =
    connect_aborts in_memory keys world silent_peer (some (codes "trusted")) none idle given_up
      (session_error request_expired)
      (pair (Dapp.connect in_memory keys world silent_peer (some (codes "trusted")) none idle)
        (throws (session_error request_expired))
        (connect_unanswered in_memory keys world silent_peer none idle refl (λ l. refl)
          (λ l. refl)))
