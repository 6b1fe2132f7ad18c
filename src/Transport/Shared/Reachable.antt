-- ===== src/Transport/Shared/Reachable.antt =====
-- Every state that the shared connection reaches while it is used as the class is meant to be.
use mobile_wallet_protocol.Prelude.{
  ℕ, ◌≡◌, ◌≢◌, refl, subst, Text, includes, get_elem?, count, [], true, false, none, some, arith,
}
use mobile_wallet_protocol.Kv.{map_get}
use mobile_wallet_protocol.Transport.Shared.{
  pos, Link, Context, Instance, World, with_link, construct, disconnect, link_closed,
  new_subscription, remove_subscription,
}
use mobile_wallet_protocol.Transport.Shared.Loops.{count_of}
use mobile_wallet_protocol.Transport.Shared.Consistent.{
  is_live, holds, Agrees, AgreesIf, IsConsistent, construct-IsConsistent, disconnect-IsConsistent,
  closed-IsConsistent, opened-IsConsistent, live_count,
}
use mobile_wallet_protocol.Transport.Shared.Consistent.Channels.{
  subscribe-IsConsistent, remove-IsConsistent,
}

-- One call of an instance, or a change of the link, which may open at any time. A live instance subscribes, an instance removes
-- what it holds, and when the link closes for the last instance no new one has been made.
pub data Step (w : World) : World → Type 0 where
  constructs : Step w (construct w)
  disconnects : (i : ℕ) → Step w (disconnect w i).0
  subscribes :
      {u : World} (i : ℕ) (channel : Text) (s : Instance)
      → get_elem? w.instances i ≡ some s
      → s.disconnected ≡ false
      → new_subscription w i channel ≡ some u
      → Step w u
  removes :
      (i : ℕ) (channel : Text) (s : Instance)
      → get_elem? w.instances i ≡ some s
      → includes s.channels channel ≡ true
      → Step w (remove_subscription w i channel)
  opens : (l : Link) → Step w (record w { context = with_link l w.context })
  closes :
      ((k : Context) → w.context ≡ some k → k.closing ≡ true → count is_live w.instances ≡ 0)
      → Step w (link_closed w)

pub data Reach (w : World) : World → Type 0 where
  here : Reach w w
  next : {u v : World} → Reach w u → Step u v → Reach w v

-- No instance has been made yet.
abbrev pub initial : World
initial = record { context = none; instances = [] }

initial-IsConsistent : IsConsistent initial
initial-IsConsistent = record { agrees = refl; tidy = tt }

Step-IsConsistent : {w u : World} → Step w u → IsConsistent w → IsConsistent u
Step-IsConsistent {w} constructs v = construct-IsConsistent w v
Step-IsConsistent {w} (disconnects i) v = disconnect-IsConsistent w i v
Step-IsConsistent {w} {u} (subscribes i channel s e live made) v =
    subscribe-IsConsistent w u i channel s e live made v
Step-IsConsistent {w} (removes i channel s e held) v = remove-IsConsistent w i channel s e held v
Step-IsConsistent {w} (opens l) v = opened-IsConsistent w l v
Step-IsConsistent {w} (closes idle) v = closed-IsConsistent w idle v

pub Reach-IsConsistent : {w : World} → Reach initial w → IsConsistent w
Reach-IsConsistent here = initial-IsConsistent
Reach-IsConsistent (next r st) = Step-IsConsistent st (Reach-IsConsistent r)

-- In every state that these steps reach from the start and that has a context, the context's count
-- is the number of live instances, and the count of each channel is the number of instances that
-- hold it.
pub reachable_counts :
    {w : World} (c : Context)
    → Reach initial w
    → w.context ≡ some c
    → (c.refcount ≡ pos (count is_live w.instances))
      × ((j : Text) → count_of (map_get c.subscriptions j) ≡ count (holds j) w.instances)
reachable_counts {w} c r e =
    let a : Agrees w.instances c = subst (AgreesIf w.instances) e (Reach-IsConsistent r).agrees in
    (a.refcount, a.counts)

-- In every such state the context is there as long as an instance is live.
pub reachable_live :
    {w : World} (i : ℕ) (s : Instance)
    → Reach initial w
    → get_elem? w.instances i ≡ some s
    → s.disconnected ≡ false
    → w.context ≢ none
reachable_live {w} i s r e live gone =
    let none_live : count is_live w.instances ≡ 0 =
      subst (AgreesIf w.instances) gone (Reach-IsConsistent r).agrees in
    omega (arith, none_live, live_count w.instances i s e live)
