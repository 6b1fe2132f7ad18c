-- ===== src/Transport/Delivery/Recovery.antt =====
-- A receiver that goes offline finds what it missed in the history, once.
use mathlib.Core.Path.{ap₂}
use mathlib.Core.List.{map-append}
use mobile_wallet_protocol.Prelude.{
  ℕ, All, All-append, take, take_all, length-drop, drop-append, ◌+◌, ◌-◌, ◌≤◌, ◌≡◌, refl, ap, ◌∙◌,
  sym, Text, text_eq, false, List, [], ◌∷◌, ◌++◌, map, length, length-append, drop,
  drop-drop-append, arith,
}
use mobile_wallet_protocol.Domain.{Result, num}
use mobile_wallet_protocol.Json.{Str}
use mobile_wallet_protocol.Kv.{IkvStore}
use mobile_wallet_protocol.Transport.Storage.Nonces.{counter}
use mobile_wallet_protocol.Transport.Incoming.{Event, message}
use mobile_wallet_protocol.Transport.Incoming.Once.{deliveries}
use mobile_wallet_protocol.Transport.Incoming.Known.{HasSeen}
use mobile_wallet_protocol.Transport.Outgoing.{process_all}
use mobile_wallet_protocol.Transport.History.{
  history_fetch_limit, HistoryAnswer, publications, handle_each, handle_history, fetch_history,
}
use mobile_wallet_protocol.Transport.Delivery.Sent.{
  payloads, IsTaken, process_all-numbered, length-numbered, drop-numbered,
}
use mobile_wallet_protocol.Transport.Delivery.Others.{
  others, handle_each-others, others-append, others-drop,
}
use mobile_wallet_protocol.Transport.Delivery.Received.{handle_each-numbered, handle_each-HasSeen}

abbrev Sends : Type 0
Sends = List (Text × (ℕ → Result (Unit {0})))

payloads-append : (ms ns : Sends) → payloads (ms ++ ns) ≡ payloads ms ++ payloads ns
payloads-append [] ns = refl
payloads-append ((p, relay) ∷ ms) ns = ap (◌∷◌ p) (payloads-append ms ns)

-- The history of a channel as the relay keeps it: of its publications, oldest first, the last
-- `size` are kept, and a call is given the first of these up to its limit.
unfoldable pub KeepsLast : ℕ → (List Str → ℕ → HistoryAnswer) → Type 0
KeepsLast size history =
    (stream : List Str) (limit : ℕ)
    → history stream limit ≡ publications (take limit (drop (length stream - size) stream))

kept :
    (size : ℕ) (history : List Str → ℕ → HistoryAnswer) (stream : List Str)
    → KeepsLast size history
    → size ≤ history_fetch_limit
    → history stream history_fetch_limit ≡ publications (drop (length stream - size) stream)
unfolding KeepsLast
kept size history stream keeps small =
    keeps stream history_fetch_limit
    ∙ ap publications (
        take_all history_fetch_limit (drop (length stream - size) stream)
          (omega (arith, small, length-drop (length stream - size) stream)))

module _ (out inn : IkvStore) (sender client channel : Text)
    (other : text_eq sender client ≡ false) where
  -- What the receiver delivers of messages that reach it as they are sent.
  pub live_delivery :
      (ms : Sends) (n latest : ℕ) (from : out.Store) (st : inn.Store)
      → All IsTaken ms
      → counter out sender channel from ≡ num n
      → HasSeen inn client channel sender latest st
      → latest ≤ n
      → deliveries (handle_each inn client channel (process_all out sender channel ms from) st).0
        ≡ map (message channel) (payloads ms)
  live_delivery ms n latest from st taken c h new =
      rw (process_all-numbered out sender ms n channel from taken c) (
        handle_each-numbered inn client channel sender other (payloads ms) n latest st h
        ∙ (let none_seen : latest - n ≡ 0 = omega arith in rw none_seen refl))

  -- What it then delivers of the history, which keeps the last messages that were sent.
  recovered :
      (ms ns : Sends) (n k i : ℕ) (from : out.Store) (st : inn.Store)
      → All IsTaken (ms ++ ns)
      → counter out sender channel from ≡ num n
      → HasSeen inn client channel sender k st
      → k - n ≡ length (payloads ms)
      → n ≤ k
      → i ≤ length (payloads ms)
      → deliveries
          (handle_each inn client channel
            (drop i (process_all out sender channel (ms ++ ns) from))
            st).0
        ≡ map (message channel) (payloads ns)
  recovered ms ns n k i from st taken c h e le hi =
      let ps = payloads (ms ++ ns) in
      rw
        (
          process_all-numbered out sender (ms ++ ns) n channel from taken c,
          drop-numbered sender i n ps,
        )
        (handle_each-numbered inn client channel sender other (drop i ps) (n + i) k st h
          ∙ ap (map (message channel)) (
              ap (λ (t : List Text). drop (k - (n + i)) (drop i t)) (payloads-append ms ns)
              ∙ drop-drop-append i (k - (n + i)) (payloads ms) (payloads ns) (omega arith)))

  -- Of a channel from which a first part is missing, all of it from before, the other's messages.
  left_over :
      (before during : List Str) (k : ℕ)
      → k ≤ length before
      → (j : ℕ) × (j ≤ length (others client before))
        × (others client (drop k (before ++ during)) ≡ drop j (others client (before ++ during)))
  left_over before during k le =
      let (j, within, e) = others-drop client k before in
      (
        j,
        within,
        ap (others client) (drop-append k before during le)
            ∙ others-append client (drop k before) during
            ∙ ap (λ (t : List Str). t ++ others client during) e
            ∙ sym (drop-append j (others client before) (others client during) within)
            ∙ ap (drop j) (sym (others-append client before during)),
      )

  sent_before :
      (ms : Sends) (n : ℕ) (from : out.Store)
      → All IsTaken ms
      → counter out sender channel from ≡ num n
      → length (process_all out sender channel ms from) ≡ length (payloads ms)
  sent_before ms n from taken c =
      ap length (process_all-numbered out sender ms n channel from taken c)
      ∙ length-numbered sender n (payloads ms)

  -- A receiver that has seen what a sender sent so far, handles what comes on a channel, goes offline,
  -- and fetches the history when it is back has then delivered every message that the sender sent
  -- since, once, in the order of sending. No two of its handlers overlap; the relay takes each message
  -- within the attempts that are made, and nothing of an attempt that fails; all that is on the
  -- channel besides are the receiver's own messages; the relay's history keeps the last `size`
  -- publications of the channel, no more than the fetch limit, and no more than `size` were published
  -- meanwhile.
  pub recovery_complete :
      (history : List Str → ℕ → HistoryAnswer) (size : ℕ) (ms ns : Sends) (n : ℕ) (from : out.Store)
      (before during : List Str) (st : inn.Store)
      → KeepsLast size history
      → size ≤ history_fetch_limit
      → All IsTaken ms
      → All IsTaken ns
      → counter out sender channel from ≡ num n
      → HasSeen inn client channel sender n st
      → others client before ≡ process_all out sender channel ms from
      → others client (before ++ during) ≡ process_all out sender channel (ms ++ ns) from
      → length during ≤ size
      → let live = handle_each inn client channel before st in
        deliveries live.0
          ++ deliveries (fetch_history inn client channel (history (before ++ during)) live.1).0
        ≡ map (message channel) (payloads (ms ++ ns))
  unfolding fetch_history handle_history
  recovery_complete history size ms ns n from before during st keeps small taken_ms taken_ns c h
        came all few =
      let taken = All-append IsTaken ms ns taken_ms taken_ns in
      let missed = length (before ++ during) - size in
      let seen =
        handle_each-HasSeen inn client channel sender other (payloads ms) n n st (omega arith) h in
      let sent = process_all-numbered out sender ms n channel from taken_ms c in
      let live = (handle_each inn client channel (process_all out sender channel ms from) st).1 in
      let reached : HasSeen inn client channel sender seen.0 live = rw sent seen.3 in
      let (j, within, left) =
        left_over before during missed (omega (arith, few, length-append before during)) in
      rw
        (
          kept size history (before ++ during) keeps small,
          handle_each-others inn client channel before st,
          came,
          handle_each-others inn client channel (drop missed (before ++ during)) live,
          left,
          all,
        )
        (ap₂ (λ (x y : List Event). x ++ y)
            (live_delivery ms n n from st taken_ms c h (omega arith))
            (recovered ms ns n seen.0 j from live taken c reached seen.2 seen.1
              (omega (arith, within, ap length came, sent_before ms n from taken_ms c)))
          ∙ sym (map-append (message channel) (payloads ms) (payloads ns))
          ∙ ap (map (message channel)) (sym (payloads-append ms ns)))
