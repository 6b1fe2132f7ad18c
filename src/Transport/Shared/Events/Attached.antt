-- ===== src/Transport/Shared/Events/Attached.antt =====
-- Each live instance emits an event of the link once.
use mathlib.Core.Option.{some-injective}
use mobile_wallet_protocol.Prelude.{
  ℕ, zero, suc, ◌+◌, ◌≡◌, refl, sym, ap, subst, Text, without, length, get_elem?, set, count,
  count-append, one_if, true, false, some, List, [], ◌∷◌, ◌++◌, ◌==◌, ==_iff, arith, if◌then◌else◌,
  Option-cases, Bool-cases, inl, inr,
}
use mobile_wallet_protocol.Kv.{map_get}
use mobile_wallet_protocol.Transport.Shared.{
  Context, Instance, World, construct, leave, disconnect, link_closed, subscribe_in,
  new_subscription, remove_subscription, join_channel, add_channel,
}
use mobile_wallet_protocol.Transport.Shared.Consistent.{is_live, gone}
use mobile_wallet_protocol.Transport.Shared.Events.{
  Hub, alive, live_at, attach_new, remove_listener, detach, is_closing, close_hub, told_of, told,
  Step, constructs, disconnects, subscribes, removes, opens, closes, Reach, here, next, no_hub,
}

-- The listeners of the live instances are there, once each, and no others.
abbrev AreAttached : List ℕ → List Instance → Type 0
AreAttached ids xs = (i : ℕ) → count (λ (j : ℕ). i == j) ids ≡ one_if (alive (get_elem? xs i))

alive-append :
    (xs : List Instance) (y : Instance) (i : ℕ)
    → is_live y ≡ true
    → one_if (alive (get_elem? (xs ++ y ∷ []) i))
      ≡ one_if (alive (get_elem? xs i)) + one_if (i == length xs)
alive-append [] y zero e = ground (arith, e)
alive-append [] y (suc i) e = ground (arith)
alive-append (x ∷ xs) y zero e = ground (arith)
alive-append (x ∷ xs) y (suc i) e = ground (arith, alive-append xs y i e)

alive-set :
    (xs : List Instance) (i j : ℕ) (old new : Instance)
    → get_elem? xs i ≡ some old
    → alive (get_elem? (set xs i new) j) ≡ (if j == i then is_live new else alive (get_elem? xs j))
alive-set [] i j old new e = cc
alive-set (x ∷ xs) zero zero old new e = ground arith
alive-set (x ∷ xs) zero (suc j) old new e = ground arith
alive-set (x ∷ xs) (suc i) zero old new e = ground arith
alive-set (x ∷ xs) (suc i) (suc j) old new e = ground (arith, alive-set xs i j old new e)

count-remove :
    (i j : ℕ) (ids : List ℕ)
    → count (λ (k : ℕ). j == k) (remove_listener i ids)
      ≡ (if j == i then 0 else count (λ (k : ℕ). j == k) ids)
unfolding remove_listener
count-remove i j [] = ground arith
count-remove i j (k ∷ rest) = ground (arith, count-remove i j rest)

count-told :
    (w : World) (i : ℕ) (ids : List ℕ)
    → count (λ (k : ℕ). i == k) (told_of w ids)
      ≡ (if live_at w i then count (λ (k : ℕ). i == k) ids else 0)
unfolding told_of
count-told w i [] = ground arith
count-told w i (k ∷ rest) = elim (Bool-cases (i == k)) [
  | inl same ↦
      let at : live_at w k ≡ live_at w i =
        subst (λ (x : ℕ). live_at w x ≡ live_at w i) ((==_iff i k).0 same) refl in
      ground (arith, at, count-told w i rest)
  | inr other ↦ ground (arith, other, count-told w i rest)
]

nobody_alive : (xs : List Instance) (i : ℕ) → count is_live xs ≡ 0 → alive (get_elem? xs i) ≡ false
nobody_alive [] i e = refl
nobody_alive (x ∷ xs) zero e = ground (arith, e)
nobody_alive (x ∷ xs) (suc i) e = nobody_alive xs i (omega (arith, e))

attached_new :
    (ids : List ℕ) (xs : List Instance) (y : Instance)
    → is_live y ≡ true
    → AreAttached ids xs
    → AreAttached (ids ++ length xs ∷ []) (xs ++ y ∷ [])
attached_new ids xs y e h i =
    omega (arith, h i, alive-append xs y i e, count-append (λ (j : ℕ). i == j) ids (length xs ∷ []))

-- An instance that changes, and is as live as it was.
attached_set :
    (ids : List ℕ) (xs : List Instance) (i : ℕ) (old new : Instance)
    → get_elem? xs i ≡ some old
    → is_live new ≡ is_live old
    → AreAttached ids xs
    → AreAttached ids (set xs i new)
attached_set ids xs i old new e same h j = elim (Bool-cases (j == i)) [
  | inl hit ↦
      let at : alive (get_elem? xs j) ≡ is_live old =
        subst (λ (k : ℕ). alive (get_elem? xs k) ≡ is_live old) (sym ((==_iff j i).0 hit))
          (ap alive e) in
      ground (arith, alive-set xs i j old new e, h j, at, same)
  | inr other ↦ ground (arith, alive-set xs i j old new e, h j, other)
]

attached_gone :
    (ids : List ℕ) (xs : List Instance) (i : ℕ) (old : Instance)
    → get_elem? xs i ≡ some old
    → AreAttached ids xs
    → AreAttached (remove_listener i ids) (set xs i gone)
attached_gone ids xs i old e h j =
    ground (arith, count-remove i j ids, alive-set xs i j old gone e, h j)

IsAttached : Hub → Type 0
IsAttached h = AreAttached h.listeners h.world.instances

disconnect_instances :
    (w : World) (i : ℕ) (s : Instance) (c : Context)
    → get_elem? w.instances i ≡ some s
    → s.disconnected ≡ false
    → w.context ≡ some c
    → (disconnect w i).0.instances ≡ set w.instances i gone
unfolding disconnect leave
disconnect_instances w i s c e live at = rw (e, disconnect, live, at, leave) refl

detach-IsAttached : (i : ℕ) (h : Hub) → IsAttached h → IsAttached (detach i h)
unfolding IsAttached detach
detach-IsAttached i h v = elim (Option-cases (get_elem? h.world.instances i)) [
  | inl missing ↦ rw (missing, detach) v
  | inr (s, e) ↦ elim (Bool-cases s.disconnected) [
    | inl left ↦ rw (e, detach, left) v
    | inr live ↦ elim (Option-cases h.world.context) [
      | inl alone ↦ rw (e, detach, live, alone) v
      | inr (c, at) ↦
          rw (e, detach, live, at, disconnect_instances h.world i s c e live at)
            (attached_gone h.listeners h.world.instances i s e v)
    ]
  ]
]

subscribe-IsAttached :
    (h : Hub) (u : World) (i : ℕ) (channel : Text)
    → new_subscription h.world i channel ≡ some u
    → IsAttached h
    → AreAttached h.listeners u.instances
unfolding IsAttached new_subscription subscribe_in
subscribe-IsAttached h u i channel made v = elim (Option-cases (get_elem? h.world.instances i)) [
  | inl missing ↦ absurd (cc (rw (missing, new_subscription) at made))
  | inr (s, e) ↦ elim (Option-cases h.world.context) [
    | inl alone ↦ absurd (cc (rw (e, new_subscription, alone, subscribe_in) at made))
    | inr (c, at) ↦ elim (Option-cases (map_get (join_channel channel s c).subscriptions channel)) [
      | inl uncounted ↦ absurd (cc (rw (e, new_subscription, at, subscribe_in, uncounted) at made))
      | inr (n, counted) ↦
          let joined = rw (e, new_subscription, at, subscribe_in, counted) at made in
          subst (λ (x : World). AreAttached h.listeners x.instances) (some-injective _ _ joined)
            (attached_set h.listeners h.world.instances i s
              (record s { channels = add_channel channel s.channels }) e refl v)
    ]
  ]
]

remove-IsAttached :
    (h : Hub) (i : ℕ) (channel : Text)
    → IsAttached h
    → AreAttached h.listeners (remove_subscription h.world i channel).instances
unfolding IsAttached remove_subscription
remove-IsAttached h i channel v = elim (Option-cases (get_elem? h.world.instances i)) [
  | inl missing ↦ rw (missing, remove_subscription) v
  | inr (s, e) ↦
      rw (e, remove_subscription)
        (attached_set h.listeners h.world.instances i s
          (record s { channels = without channel s.channels }) e refl v)
]

close-IsAttached :
    (h : Hub)
    → (is_closing h.world.context ≡ true → count is_live h.world.instances ≡ 0)
    → IsAttached h
    → IsAttached (close_hub h)
unfolding IsAttached close_hub link_closed
close-IsAttached h idle v = elim (Option-cases h.world.context) [
  | inl alone ↦ rw (alone, link_closed) v
  | inr (c, at) ↦ elim (Bool-cases c.closing) [
    | inl closing ↦
        rw (at, link_closed, closing)
          (λ (i : ℕ).
            ground (arith, nobody_alive h.world.instances i (idle (rw (at, closing) refl))))
    | inr stays ↦ rw (at, link_closed, stays) v
  ]
]

Step-IsAttached : {h k : Hub} → Step h k → IsAttached h → IsAttached k
unfolding IsAttached attach_new construct
Step-IsAttached {h} constructs v =
    attached_new h.listeners h.world.instances (record { channels = []; disconnected = false }) refl
      v
Step-IsAttached {h} (disconnects i) v = detach-IsAttached i h v
Step-IsAttached {h} (subscribes {u} i channel made) v = subscribe-IsAttached h u i channel made v
Step-IsAttached {h} (removes i channel) v = remove-IsAttached h i channel v
Step-IsAttached {h} (opens l) v = v
Step-IsAttached {h} (closes idle) v = close-IsAttached h idle v

Reach-IsAttached : {h : Hub} → Reach no_hub h → IsAttached h
unfolding IsAttached
Reach-IsAttached here = λ (i : ℕ). refl
Reach-IsAttached (next r st) = Step-IsAttached st (Reach-IsAttached r)

-- In every state that these steps reach from the start, an event of the link is emitted once by each
-- live instance, and by no other.
pub reached_told :
    {h : Hub} (i : ℕ)
    → Reach no_hub h
    → count (λ (j : ℕ). i == j) (told h) ≡ one_if (live_at h.world i)
unfolding IsAttached told
reached_told {h} i r = ground (arith, count-told h.world i h.listeners, Reach-IsAttached r i)
