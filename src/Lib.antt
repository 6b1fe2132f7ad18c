-- ===== src/Lib.antt =====
-- A model of the mobile wallet protocol and the theorems that make it correct.
--
-- The program connects a dApp and a mobile wallet over a relay that neither trusts. A dApp's
-- client shows a session request, the wallet's client answers with an offer, in the untrusted mode
-- with a one-time password that the user carries over, and from then on both exchange encrypted
-- messages over a channel of their own. Sessions are stored, so that a client can resume them.
--
--   * Domain: packages/core/src/domain, the types of the protocol and its errors.
--   * Json, Base64: the JSON values and the base64 texts that the program writes and reads.
--   * Kv: packages/core/src/domain/kv-store.ts (IKVStore), an interface with the laws of a
--     key-value store, which SessionStore and Transport.Storage take as a parameter. The in-memory
--     store of apps/load-tests/src/utils/kvstore.ts fills it, and Kv.Prefixed, the stores of
--     apps/rn-demo/lib/AsyncStorageKVStore.ts and apps/web-demo/src/lib/localStorage-kvstore.ts,
--     which put a prefix before the keys of the platform's storage, fills it given that storage.
--   * Utils: packages/core/src/utils, retry and timingSafeEqual.
--   * SessionStore: packages/core/src/session-store/index.ts. Codec is SerializableSession, Keys
--     and MasterList are about the keys and the list of identifiers, View and Listing about the
--     map of live sessions that the methods implement, Refinement about that map as their
--     specification.
--   * Transport.Storage: packages/core/src/transport/websocket/store.ts.
--   * Transport.Incoming, Queue, Outgoing and History:
--     packages/core/src/transport/websocket/index.ts, the deduplication of incoming messages
--     (_handleIncomingMessage), with overlapping handlers in Incoming.Race, the queue of outgoing
--     messages (publish, _processQueue, connect, disconnect, setState), what _process publishes,
--     and _fetchHistory. Delivery puts them together, from the sender's queue to what the receiver
--     delivers, its own messages on the channel left aside (Others). Direct is the transport over a connection of its own (connect, disconnect,
--     reconnect, subscribe, clear).
--   * Transport.Shared: packages/core/src/transport/websocket/shared-centrifuge.ts, the connection
--     that several instances share, with its reference counts. Reachable is the discipline under
--     which they are right, Misuse what happens outside it; Events is which instances emit an
--     event of the link, Reconnect the promise that the callers of reconnect share, Options
--     validateOptions. Channels and Closing are the subscribe, clear and disconnect of a transport
--     over it.
--   * SharedStorage: the session store and a transport on one storage; SessionStore.Footprint and
--     Transport.Footprint are the keys that each leaves alone.
--   * Exec: asynchronous methods that return, throw or never settle, with their state.
--   * Client: packages/core/src/base-client.ts, over SessionStore.
--   * Dapp and Wallet: packages/dapp-client/src and packages/wallet-client/src, the two clients
--     with their trusted and untrusted handlers, over Client. Agreement is the session that the
--     two hold after the handshake, Conversation a request and a response in it.
--   * KeyManager: apps/rn-demo/lib/KeyManager.ts, apps/web-demo/src/lib/KeyManager.ts and
--     apps/load-tests/src/client/key-manager.ts, which fill what Conversation takes a key manager
--     to do.
--   * SessionManager: apps/rn-demo/lib/SessionManager.ts, the wallet app's clients, over Wallet.
--   * Encoding: apps/web-demo/src/lib/encoding-utils.ts, the compressed texts of the web demo.
--   * LoadTests: apps/load-tests/src. Connection is client/centrifuge-client.ts and
--     scenarios/connection-storm.ts, Exchange the messages of client/session-pair.ts, Messaging and
--     RampUp scenarios/steady-messaging.ts, SteadyState, RealisticSession and AsyncDelivery the
--     scenarios of those names, Stats
--     utils/stats.ts, and Aggregate results/aggregate.ts.
--   * Prelude: shared names, lists, texts and tests. Tests: the theorems at concrete inputs.
--
-- Strings are lists of UTF-16 code units, and JSON texts are kept as the values they stand for:
-- JSON that was written by stringify is read back by parse as the same value, and a text that is
-- no JSON is an exception. Times and nonces are natural numbers; an expiry may also be NaN. The
-- clock, the random numbers, the transport's answers, the user and the other party are functions
-- of the history of calls and events (Environment, Peer), so that they may differ at every step. A
-- call of the transport may return, throw or stay pending for ever, as connect does while the relay
-- cannot be reached.
-- Cryptography (IKeyManager), uuid and the byte helpers of @metamask/utils are parameters.
--
-- Two functions take fuel: the decimal digits of a password (Wallet.Otp) ten rounds at most,
-- enough for any 32-bit number, and the messaging loop of the load tests (LoadTests.Messaging),
-- for which two rounds more than there are half seconds left are enough, since an exchange waits
-- half a second before it starts, where no request or response stays pending. Every other loop recurses on a list or on its number of
-- attempts.
--
-- Between two awaits the code runs in one step. In Transport.Queue, Transport.Direct,
-- Transport.Incoming.Race and Transport.Shared.Reconnect calls and events may come at every await;
-- in SessionStore the mutex makes the updates of the master list atomic, and a method is one step;
-- in Client, Dapp and Wallet a method runs to its end before the next begins, and so do the
-- clients of SessionManager one after another.
--
-- Of the relay two things are taken in Transport.Delivery: an attempt to publish that fails leaves
-- nothing there (Outgoing.on_relay), and its history is the last publications of a channel, oldest
-- first (Recovery.KeepsLast; backend/config.json keeps 20 for a session's channel and 5 for a
-- handshake's, for five minutes). A protocol message that lacks what its handler reads is dropped
-- (Client.Codec), where the code goes on with the parsed value unchecked.
--
-- Not modelled: a storage that fails, the texts of error messages, the state of a subscription,
-- which is Centrifuge's, and with it the promise of subscribe; of the load tests the command line,
-- the cloud machines, the terminal and the pacing of connections; and the screens of the
-- demonstrations.
pub mod Agreement
pub mod Base64
pub mod Client
pub mod Conversation
pub mod Dapp
pub mod Domain
pub mod Encoding
pub mod Exec
pub mod Json
pub mod LoadTests
pub mod KeyManager
pub mod Kv
pub mod Prelude
pub mod SessionStore
pub mod SharedStorage
pub mod SessionManager
pub mod Tests
pub mod Transport
pub mod Utils
pub mod Wallet
