-- ===== src/Transport/Shared/Consistent.antt =====
-- The reference counts are right while the instances are used as the class is meant to be used.
pub mod Channels
use mathlib.Core.Option.{some-injective}
use mobile_wallet_protocol.Prelude.{
  ℕ, zero, suc, ◌+◌, ◌-◌, ◌≡◌, refl, subst, Text, text_eq, text_eq_iff, text_eq_refl, includes,
  without, includes-append, includes-without, AllDistinct, append-AllDistinct, without-AllDistinct,
  length, get_elem?, set, count, count-set, count-append, one_if, All, All-set, All-append,
  All-get_elem?, Option-cases, Bool-cases, inl, inr, Bool, true, false, not, Option, none, some,
  List, [], ◌∷◌, ◌++◌, arith, ◌==◌, if◌then◌else◌,
}
use mobile_wallet_protocol.Kv.{Map, map_get, map_set, map_get-map_set}
use mobile_wallet_protocol.Transport.Shared.{
  pos, increment, decrement, is_zero, Link, Context, Instance, World, with_link, context_or_new,
  fresh_context, construct, decrement_channel_ref, decrement_all, release, leave, disconnect,
  link_closed, add_channel, one_more, join_channel, subscribe_in, new_subscription, decrement_in,
  remove_subscription,
}
use mobile_wallet_protocol.Transport.Shared.Loops.{
  count_of, NonZero, count-decrement, decrement-NonZero, count-decrement_all, decrement_all-NonZero,
}

abbrev pub is_live : Instance → Bool
is_live s = not s.disconnected

abbrev pub holds : Text → Instance → Bool
holds channel s = includes s.channels channel

-- An instance names a channel once, and has none left once it has disconnected.
pub record IsTidy (s : Instance) : Type 0 where
  pub distinct : AllDistinct s.channels
  pub left : s.disconnected ≡ true → s.channels ≡ []

-- The context counts the live instances, and for each channel the instances that hold it; a channel
-- that nobody holds has no entry.
pub record Agrees (instances : List Instance) (c : Context) : Type 0 where
  pub refcount : c.refcount ≡ pos (count is_live instances)
  pub counts : (j : Text) → count_of (map_get c.subscriptions j) ≡ count (holds j) instances
  pub non_zero : NonZero c.subscriptions

abbrev pub AgreesIf : List Instance → Option Context → Type 0
AgreesIf instances none = count is_live instances ≡ 0
AgreesIf instances (some c) = Agrees instances c

pub record IsConsistent (w : World) : Type 0 where
  pub agrees : AgreesIf w.instances w.context
  pub tidy : All IsTidy w.instances

no_live-no_holder :
    (xs : List Instance) (j : Text) → All IsTidy xs → count is_live xs ≡ 0 → count (holds j) xs ≡ 0
unfolding includes
no_live-no_holder [] j h e = refl
no_live-no_holder (x ∷ xs) j h e = ground (arith, no_live-no_holder xs j h.1, h.0.left)

fresh_instance : Instance
fresh_instance = record { channels = []; disconnected = false }

fresh_instance-IsTidy : IsTidy fresh_instance
unfolding fresh_instance
fresh_instance-IsTidy = record { distinct = tt; left = λ e. refl }

construct_new :
    (xs : List Instance) (j : Text)
    → count (holds j) (xs ++ fresh_instance ∷ []) ≡ count (holds j) xs
unfolding fresh_instance includes
construct_new xs j = omega (arith, count-append (holds j) xs (fresh_instance ∷ []))

construct_live :
    (xs : List Instance) → count is_live (xs ++ fresh_instance ∷ []) ≡ suc (count is_live xs)
unfolding fresh_instance
construct_live xs = omega (arith, count-append is_live xs (fresh_instance ∷ []))

construct-Agrees :
    (xs : List Instance) (c : Option Context)
    → All IsTidy xs
    → AgreesIf xs c
    → Agrees
        (xs ++ fresh_instance ∷ [])
        (record (context_or_new c) { refcount = increment (context_or_new c).refcount })
unfolding map_get
construct-Agrees xs none h e = record {
  refcount = rw (construct_live xs, e) refl;
  counts = λ j. rw (construct_new xs j, no_live-no_holder xs j h e) refl;
  non_zero = λ j p. cc;
}
construct-Agrees xs (some c) h a = record {
  refcount = rw (construct_live xs, a.refcount) refl;
  counts = λ j. rw (construct_new xs j) (a.counts j);
  non_zero = a.non_zero;
}

pub construct-IsConsistent : (w : World) → IsConsistent w → IsConsistent (construct w)
unfolding construct fresh_instance
construct-IsConsistent w v = record {
  agrees = construct-Agrees w.instances w.context v.tidy v.agrees;
  tidy = All-append IsTidy w.instances (fresh_instance ∷ []) v.tidy (fresh_instance-IsTidy, tt);
}

abbrev pub gone : Instance
gone = record { channels = []; disconnected = true }

pub live_count :
    (xs : List Instance) (i : ℕ) (s : Instance)
    → get_elem? xs i ≡ some s
    → s.disconnected ≡ false
    → count is_live xs ≡ suc (count is_live (set xs i gone))
live_count xs i s e live = ground (arith, count-set is_live xs i s gone e)

-- `disconnect` of a live instance.
release-Agrees :
    (xs : List Instance) (i : ℕ) (s : Instance) (c : Context)
    → get_elem? xs i ≡ some s
    → s.disconnected ≡ false
    → IsTidy s
    → Agrees xs c
    → Agrees (set xs i (record { channels = []; disconnected = true })) (release s.channels c)
unfolding release includes
release-Agrees xs i s c e live t a = record {
  refcount = rw (a.refcount, live_count xs i s e live) refl;
  counts = λ j. omega (
    arith,
    count-set (holds j) xs i s gone e,
    count-decrement_all s.channels j c.subscriptions t.distinct,
    a.counts j,
  );
  non_zero = decrement_all-NonZero s.channels c.subscriptions a.non_zero;
}

leave-IsConsistent :
    (w : World) (i : ℕ) (s : Instance)
    → get_elem? w.instances i ≡ some s
    → s.disconnected ≡ false
    → (c : Option Context) → w.context ≡ c
    → IsConsistent w
    → IsConsistent (leave w i s c).0
unfolding leave
leave-IsConsistent w i s e live none at v = v
leave-IsConsistent w i s e live (some c) at v = record {
  agrees =
      release-Agrees w.instances i s c e live (All-get_elem? IsTidy w.instances i s v.tidy e)
        (subst (AgreesIf w.instances) at v.agrees);
  tidy = All-set IsTidy w.instances i gone v.tidy (record { distinct = tt; left = λ p. refl });
}

pub disconnect-IsConsistent : (w : World) (i : ℕ) → IsConsistent w → IsConsistent (disconnect w i).0
unfolding disconnect leave
disconnect-IsConsistent w i v = elim (Option-cases (get_elem? w.instances i)) [
  | inl e ↦ rw (e, disconnect) v
  | inr (s, e) ↦ elim (Bool-cases s.disconnected) [
    | inl d ↦ rw (e, disconnect, d) v
    | inr d ↦ rw (e, disconnect, d) (leave-IsConsistent w i s e d w.context refl v)
  ]
]

closed-Agrees :
    (w : World) (c : Option Context)
    → w.context ≡ c
    → AgreesIf w.instances c
    → ((k : Context) → c ≡ some k → k.closing ≡ true → count is_live w.instances ≡ 0)
    → AgreesIf w.instances (link_closed w).context
unfolding link_closed
closed-Agrees w none at n idle = rw (at, link_closed) (rw at n)
closed-Agrees w (some c) at a idle = elim (Bool-cases c.closing) [
  | inl d ↦ rw (at, link_closed, d) (idle c refl d)
  | inr d ↦
      rw (at, link_closed, d)
        (record { refcount = a.refcount; counts = a.counts; non_zero = a.non_zero })
]

opened-Agrees :
    (xs : List Instance) (l : Link) (c : Option Context)
    → AgreesIf xs c
    → AgreesIf xs (with_link l c)
opened-Agrees xs l none n = n
opened-Agrees xs l (some c) a = record {
  refcount = a.refcount;
  counts = a.counts;
  non_zero = a.non_zero;
}

pub opened-IsConsistent :
    (w : World) (l : Link)
    → IsConsistent w
    → IsConsistent (record w { context = with_link l w.context })
opened-IsConsistent w l v = record {
  agrees = opened-Agrees w.instances l w.context v.agrees;
  tidy = v.tidy;
}

instances-link_closed : (w : World) → (link_closed w).instances ≡ w.instances
unfolding link_closed
instances-link_closed w = ground arith

pub closed-IsConsistent :
    (w : World)
    → ((k : Context) → w.context ≡ some k → k.closing ≡ true → count is_live w.instances ≡ 0)
    → IsConsistent w
    → IsConsistent (link_closed w)
closed-IsConsistent w idle v = record {
  agrees = rw (instances-link_closed w) (closed-Agrees w w.context refl v.agrees idle);
  tidy = rw (instances-link_closed w) v.tidy;
}
