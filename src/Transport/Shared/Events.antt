-- ===== src/Transport/Shared/Events.antt =====
-- packages/core/src/transport/websocket/shared-centrifuge.ts: which instances emit an event of the
-- link (`attachEventListeners`, `detachEventListeners`).
--
-- `listeners` has the instances whose four listeners are on the context's Centrifuge, in the order in
-- which they were put there; it is empty where there is no context.
pub mod Attached
use mobile_wallet_protocol.Prelude.{
  ℕ, ◌≡◌, Text, length, get_elem?, count, Bool, true, false, not, Option, none, some, List, [], ◌∷◌,
  ◌++◌, ◌==◌, if◌then◌else◌,
}
use mobile_wallet_protocol.Transport.Shared.{
  Link, Context, Instance, World, with_link, construct, disconnect, link_closed, new_subscription,
  remove_subscription,
}
use mobile_wallet_protocol.Transport.Shared.Consistent.{is_live}

pub record Hub : Type 0 where
  pub world : World
  pub listeners : List ℕ

abbrev pub alive : Option Instance → Bool
alive none = false
alive (some s) = is_live s

abbrev pub live_at : World → ℕ → Bool
live_at w i = alive (get_elem? w.instances i)

-- The constructor, `attachEventListeners` included.
pub attach_new : Hub → Hub
attach_new h = record {
  world = construct h.world;
  listeners = h.listeners ++ length h.world.instances ∷ [];
}

pub remove_listener : ℕ → List ℕ → List ℕ
remove_listener i [] = []
remove_listener i (j ∷ rest) =
    let later = remove_listener i rest in if i == j then later else j ∷ later

-- `disconnect`, `detachEventListeners` included.
pub detach : ℕ → Hub → Hub
detach i h = if not (live_at h.world i) then h else elim h.world.context [
  | none ↦ h
  | some c ↦ record { world = (disconnect h.world i).0; listeners = remove_listener i h.listeners }
]

abbrev pub is_closing : Option Context → Bool
is_closing none = false
is_closing (some c) = c.closing

-- The listeners go with the Centrifuge of a context that is dropped.
pub close_hub : Hub → Hub
close_hub h = record {
  world = link_closed h.world;
  listeners = if is_closing h.world.context then [] else h.listeners;
}

-- The listeners of an event run in order; one of a disconnected instance does nothing.
pub told_of : World → List ℕ → List ℕ
told_of w [] = []
told_of w (i ∷ rest) = let later = told_of w rest in if live_at w i then i ∷ later else later

-- The instances that emit an event of the link.
pub told : Hub → List ℕ
unfolding told_of
told h = told_of h.world h.listeners

-- One call of an instance, or a change of the link. When it closes for the last instance, no new one
-- has been made.
pub data Step (h : Hub) : Hub → Type 0 where
  constructs : Step h (attach_new h)
  disconnects : (i : ℕ) → Step h (detach i h)
  subscribes :
      {u : World} (i : ℕ) (channel : Text)
      → new_subscription h.world i channel ≡ some u
      → Step h (record h { world = u })
  removes :
      (i : ℕ) (channel : Text) → Step h (record h { world = remove_subscription h.world i channel })
  opens :
      (l : Link)
      → Step h (record h { world = record h.world { context = with_link l h.world.context } })
  closes :
      (is_closing h.world.context ≡ true → count is_live h.world.instances ≡ 0)
      → Step h (close_hub h)

pub data Reach (h : Hub) : Hub → Type 0 where
  here : Reach h h
  next : {k l : Hub} → Reach h k → Step k l → Reach h l

abbrev pub no_hub : Hub
no_hub = record { world = record { context = none; instances = [] }; listeners = [] }
