-- ===== src/Tests/Clients.antt =====
-- The theorems on the sessions and messages of a client at concrete inputs.
use mobile_wallet_protocol.Prelude.{◌≡◌, ◌⊎◌, refl, Text, codes, true, false, none, some, [], ◌∷◌}
use mobile_wallet_protocol.Domain.{
  disconnected, connected, session_error, session_invalid_state, Session, handshake_ack, not_before,
}
use mobile_wallet_protocol.Json.{Str}
use mobile_wallet_protocol.Kv.{in_memory, Map}
use mobile_wallet_protocol.SessionStore.View.{view}
use mobile_wallet_protocol.Exec.{returns}
use mobile_wallet_protocol.Client.{
  connects, subscribes, publishes, emits_connected, Client, is_disconnected, send_message, resume,
  disconnect,
}
use mobile_wallet_protocol.Client.Sending.{send_message-returns, send_message_live}
use mobile_wallet_protocol.Client.Sessions.{
  send_expired, resume-returns, resume_live, resume_busy, resume-throws,
}
use mobile_wallet_protocol.Tests.{alice, one_session}
use mobile_wallet_protocol.Tests.Sessions.{found}
use mobile_wallet_protocol.Tests.World.{world, late_world, keys, idle, active, pair}

abbrev active_after : Client (Map Str)
active_after = record active { log = publishes (codes "ch") (codes "x") ∷ [] }

sent :
    send_message in_memory keys world (codes "ch") handshake_ack active ≡ (returns tt, active_after)
sent =
    send_message_live in_memory keys world (codes "ch") (codes "x") handshake_ack alice active refl
      refl refl refl

send_message-returns_example :
    (s : Session) × (encrypted : Text) × (some alice ≡ some s)
    × (not_before s.expires_at 20 ≡ true)
    × (some (codes "x") ≡ some encrypted)
    × (active_after ≡ record active { log = publishes (codes "ch") encrypted ∷ [] })
send_message-returns_example =
    send_message-returns in_memory keys world (codes "ch") handshake_ack active active_after sent

send_expired_example :
    ((send_message in_memory keys late_world (codes "ch") handshake_ack active).1
      ≡ (disconnect in_memory late_world active).1)
    × ((send_message in_memory keys late_world (codes "ch") handshake_ack active).1.session ≡ none)
    × ((send_message in_memory keys late_world (codes "ch") handshake_ack active).1.state
        ≡ disconnected)
    × ((send_message in_memory keys late_world (codes "ch") handshake_ack active).0 ≡ returns tt
        → ⊥)
send_expired_example =
    send_expired in_memory keys late_world (codes "ch") handshake_ack active alice refl refl

abbrev resumed : Client (Map Str)
resumed = (resume in_memory keys world (codes "a") idle).1

resume-returns_example :
    (s : Session) × (view in_memory 20 one_session (codes "a") ≡ some s)
    × (true ≡ true)
    × (resumed.session ≡ some s)
    × (resumed.state ≡ connected)
    × (resumed.log ≡ emits_connected ∷ subscribes s.channel ∷ connects ∷ [])
resume-returns_example = resume-returns in_memory keys world (codes "a") idle resumed (
    pair (resume in_memory keys world (codes "a") idle) (returns tt)
      (resume_live in_memory keys world (codes "a") idle alice true true refl found refl refl refl))

resume-throws_example :
    ((connected ≡ disconnected) × (connected ≡ disconnected) × (some alice ≡ none))
    ⊎ ((is_disconnected connected ≡ false)
        × (active ≡ active)
        × (session_error session_invalid_state ≡ session_error session_invalid_state))
resume-throws_example =
    resume-throws in_memory keys world (codes "a") active active
      (session_error session_invalid_state)
      (resume_busy in_memory keys world (codes "a") active refl)
