-- ===== src/Transport/Shared/Options.antt =====
-- packages/core/src/transport/websocket/shared-centrifuge.ts: `validateOptions`, on the options that
-- the transports of packages/core/src/transport/websocket/index.ts give.
--
-- A websocket's class is a value of any type, and `same` says whether two are one (`===`).
use mobile_wallet_protocol.Prelude.{
  ℕ, Text, text_eq, ◌≡◌, Bool, false, not, Option, none, some, List, [], ◌∷◌, ◌++◌, ◌==◌, arith,
  if◌then◌else◌,
}

pub data Key : Type 0 where
  token websocket min_reconnect_delay max_reconnect_delay : Key

pub record Options (W : Type 0) : Type 0 where
  pub token : Option Text
  pub websocket : Option W
  pub min_reconnect_delay : Option ℕ
  pub max_reconnect_delay : Option ℕ

-- Both are defined and they differ.
abbrev pub mismatch : {A : Type 0} → (A → A → Bool) → Option A → Option A → Bool
mismatch same none incoming = false
mismatch same (some existing) none = false
mismatch same (some existing) (some incoming) = not (same existing incoming)

abbrev warn : Key → Bool → List Key
warn key differs = if differs then key ∷ [] else []

module _ {W : Type 0} (same : W → W → Bool) where
  -- The keys that are warned about.
  pub validate_options : Options W → Options W → List Key
  validate_options existing incoming =
      warn Key.token (mismatch text_eq existing.token incoming.token)
      ++ warn Key.websocket (mismatch same existing.websocket incoming.websocket)
      ++ warn Key.min_reconnect_delay
          (mismatch (◌==◌) existing.min_reconnect_delay incoming.min_reconnect_delay)
      ++ warn Key.max_reconnect_delay
          (mismatch (◌==◌) existing.max_reconnect_delay incoming.max_reconnect_delay)

  -- What a transport passes on.
  pub transport_options : Option W → Options W
  transport_options given = record {
    token = none;
    websocket = given;
    min_reconnect_delay = some 100;
    max_reconnect_delay = some 30000;
  }

  -- Two transports of one URL are warned about at most for their websocket, and exactly where both
  -- name one and the two are not the same.
  pub transports_warned :
      (a b : Option W)
      → validate_options (transport_options a) (transport_options b)
        ≡ (if mismatch same a b then Key.websocket ∷ [] else [])
  unfolding validate_options transport_options
  transports_warned a b = ground arith
