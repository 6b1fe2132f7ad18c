-- ===== src/Transport/Shared/Consistent/Channels.antt =====
-- Subscribing and unsubscribing keep the reference counts right.
use mathlib.Core.Option.{some-injective}
use mobile_wallet_protocol.Prelude.{
  ℕ, ◌≡◌, refl, subst, Text, text_eq_iff, includes, without, includes-append, includes-without,
  append-AllDistinct, without-AllDistinct, get_elem?, set, count, count-set, All-set, All-get_elem?,
  Option-cases, inl, inr, true, false, Option, none, some, List, arith,
}
use mobile_wallet_protocol.Kv.{map_get, map_get-map_set}
use mobile_wallet_protocol.Transport.Shared.{
  pos, Context, Instance, World, add_channel, one_more, join_channel, subscribe_in,
  new_subscription, decrement_in, remove_subscription,
}
use mobile_wallet_protocol.Transport.Shared.Loops.{
  count_of, NonZero, count-decrement, decrement-NonZero,
}
use mobile_wallet_protocol.Transport.Shared.Consistent.{
  is_live, holds, IsTidy, Agrees, AgreesIf, IsConsistent,
}

abbrev joined : Text → Instance → Instance
joined channel s = record s { channels = add_channel channel s.channels }

join-count :
    (xs : List Instance) (i : ℕ) (channel j : Text) (s : Instance) (c : Context)
    → get_elem? xs i ≡ some s
    → count_of (map_get c.subscriptions j) ≡ count (holds j) xs
    → count_of (map_get (join_channel channel s c).subscriptions j)
      ≡ count (holds j) (set xs i (joined channel s))
unfolding join_channel
join-count xs i channel j s c e n = ground (
  arith,
  count-set (holds j) xs i s (joined channel s) e,
  map_get-map_set c.subscriptions channel j (one_more (map_get c.subscriptions channel)),
  text_eq_iff channel j,
  includes-append channel j s.channels,
)

join-NonZero :
    (channel : Text) (s : Instance) (c : Context)
    → NonZero c.subscriptions
    → NonZero (join_channel channel s c).subscriptions
unfolding join_channel
join-NonZero channel s c h j p = ground (
  arith,
  h j,
  map_get-map_set c.subscriptions channel j (one_more (map_get c.subscriptions channel)),
)

join-refcount :
    (xs : List Instance) (i : ℕ) (channel : Text) (s : Instance) (c : Context)
    → get_elem? xs i ≡ some s
    → c.refcount ≡ pos (count is_live xs)
    → (join_channel channel s c).refcount ≡ pos (count is_live (set xs i (joined channel s)))
unfolding join_channel
join-refcount xs i channel s c e n = ground (arith, count-set is_live xs i s (joined channel s) e)

join-IsTidy :
    (channel : Text) (s : Instance) → s.disconnected ≡ false → IsTidy s → IsTidy (joined channel s)
join-IsTidy channel s live t = record {
  distinct = ground (arith, t.distinct, append-AllDistinct channel s.channels);
  left = λ p. cc;
}

-- `newSubscription` of a live instance, where there is a context.
subscribe_in-IsConsistent :
    (w u : World) (i : ℕ) (channel : Text) (s : Instance) (c : Option Context)
    → w.context ≡ c
    → get_elem? w.instances i ≡ some s
    → s.disconnected ≡ false
    → subscribe_in w i channel s c ≡ some u
    → IsConsistent w
    → IsConsistent u
unfolding subscribe_in
subscribe_in-IsConsistent w u i channel s none at e live made v = cc
subscribe_in-IsConsistent w u i channel s (some c) at e live made v =
    elim (Option-cases (map_get (join_channel channel s c).subscriptions channel)) [
      | inl m ↦ cc (rw (m, subscribe_in) at made)
      | inr (n, m) ↦ subst IsConsistent (some-injective _ _ (rw (m, subscribe_in) at made)) next
    ]
  where
    a : Agrees w.instances c
    a = subst (AgreesIf w.instances) at v.agrees

    next : IsConsistent (record {
      context = some (join_channel channel s c);
      instances = set w.instances i (joined channel s);
    })
    next = record {
      agrees = record {
        refcount = join-refcount w.instances i channel s c e a.refcount;
        counts = λ j. join-count w.instances i channel j s c e (a.counts j);
        non_zero = join-NonZero channel s c a.non_zero;
      };
      tidy =
          All-set IsTidy w.instances i (joined channel s) v.tidy
            (join-IsTidy channel s live (All-get_elem? IsTidy w.instances i s v.tidy e));
    }

pub subscribe-IsConsistent :
    (w u : World) (i : ℕ) (channel : Text) (s : Instance)
    → get_elem? w.instances i ≡ some s
    → s.disconnected ≡ false
    → new_subscription w i channel ≡ some u
    → IsConsistent w
    → IsConsistent u
unfolding new_subscription
subscribe-IsConsistent w u i channel s e live made v =
    subscribe_in-IsConsistent w u i channel s w.context refl e live
      (rw (e, new_subscription) at made) v

abbrev parted : Text → Instance → Instance
parted channel s = record s { channels = without channel s.channels }

part-Agrees :
    (xs : List Instance) (i : ℕ) (channel : Text) (s : Instance) (c : Option Context)
    → get_elem? xs i ≡ some s
    → includes s.channels channel ≡ true
    → AgreesIf xs c
    → AgreesIf (set xs i (parted channel s)) (decrement_in channel c)
part-Agrees xs i channel s none e held n =
    omega (arith, n, count-set is_live xs i s (parted channel s) e)
part-Agrees xs i channel s (some c) e held a = record {
  refcount = ground (arith, a.refcount, count-set is_live xs i s (parted channel s) e);
  counts = λ j. ground (
    arith,
    a.counts j,
    count-set (holds j) xs i s (parted channel s) e,
    count-decrement channel j c.subscriptions,
    includes-without channel j s.channels,
    text_eq_iff channel j,
  );
  non_zero = decrement-NonZero channel c.subscriptions a.non_zero;
}

part-IsTidy : (channel : Text) (s : Instance) → IsTidy s → IsTidy (parted channel s)
unfolding without
part-IsTidy channel s t = record {
  distinct = without-AllDistinct channel s.channels t.distinct;
  left = λ p. rw (t.left p) refl;
}

-- `removeSubscription` of a channel that the instance holds.
pub remove-IsConsistent :
    (w : World) (i : ℕ) (channel : Text) (s : Instance)
    → get_elem? w.instances i ≡ some s
    → includes s.channels channel ≡ true
    → IsConsistent w
    → IsConsistent (remove_subscription w i channel)
unfolding remove_subscription
remove-IsConsistent w i channel s e held v = rw (e, remove_subscription) next
  where
    next : IsConsistent (record {
      context = decrement_in channel w.context;
      instances = set w.instances i (parted channel s);
    })
    next = record {
      agrees = part-Agrees w.instances i channel s w.context e held v.agrees;
      tidy =
          All-set IsTidy w.instances i (parted channel s) v.tidy
            (part-IsTidy channel s (All-get_elem? IsTidy w.instances i s v.tidy e));
    }
