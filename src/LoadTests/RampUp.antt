-- ===== src/LoadTests/RampUp.antt =====
-- apps/load-tests/src/scenarios/steady-messaging.ts: the ramp-up, and which of the promises that it
-- starts are waited for.
--
-- A pair of clients is a number. `waits` is the call of `Promise.all(messagingLoops)`, which looks at
-- the array once.
use mobile_wallet_protocol.Prelude.{
  ℕ, ◌+◌, ◌≡◌, refl, ap, ◌∙◌, Bool, false, ◌||◌, Option, none, some, List, [], ◌∷◌, ◌++◌, ◌==◌,
  arith,
}

pub data Task : Type 0 where
  connection messages : ℕ → Task

pub record RampUp : Type 0 where
  pub completed : ℕ
  pub setup_successful : ℕ
  pub setup_failed : ℕ
  pub messaging_loops : List Task
  pub awaited : Option (List Task)

abbrev pub not_started : RampUp
not_started = record {
  completed = 0;
  setup_successful = 0;
  setup_failed = 0;
  messaging_loops = [];
  awaited = none;
}

-- A pair is started, its clients have connected or not, and the wait at the end of the ramp-up.
pub data Event : Type 0 where
  starts pairs fails : ℕ → Event
  waits : Event

pub ramp : Event → RampUp → RampUp
ramp (starts i) r = record r { messaging_loops = r.messaging_loops ++ connection i ∷ [] }
ramp (pairs i) r = record r {
  completed = r.completed + 1;
  setup_successful = r.setup_successful + 1;
  messaging_loops = r.messaging_loops ++ messages i ∷ [];
}
ramp (fails i) r = record r { completed = r.completed + 1; setup_failed = r.setup_failed + 1 }
ramp waits r = record r { awaited = some r.messaging_loops }

pub ramp_all : List Event → RampUp → RampUp
ramp_all [] r = r
ramp_all (e ∷ rest) r = ramp_all rest (ramp e r)

-- Whether the messages of a pair are among some promises.
abbrev is_loop : ℕ → Task → Bool
is_loop i (connection j) = false
is_loop i (messages j) = j == i

abbrev pub has_loop : ℕ → List Task → Bool
has_loop i [] = false
has_loop i (t ∷ ts) = is_loop i t || has_loop i ts

abbrev pub waits_for : ℕ → Option (List Task) → Bool
waits_for i none = false
waits_for i (some ts) = has_loop i ts

-- Whether the clients of a pair have connected.
abbrev pub has_paired : ℕ → List Event → Bool
has_paired i [] = false
has_paired i (starts j ∷ rest) = has_paired i rest
has_paired i (pairs j ∷ rest) = (j == i) || has_paired i rest
has_paired i (fails j ∷ rest) = has_paired i rest
has_paired i (waits ∷ rest) = has_paired i rest

-- The wait is not among the events.
abbrev pub Ramping : List Event → Type 0
Ramping [] = Unit
Ramping (starts i ∷ rest) = Ramping rest
Ramping (pairs i ∷ rest) = Ramping rest
Ramping (fails i ∷ rest) = Ramping rest
Ramping (waits ∷ rest) = ⊥

has_loop-append :
    (i : ℕ) (ts us : List Task) → has_loop i (ts ++ us) ≡ (has_loop i ts || has_loop i us)
has_loop-append i [] us = refl
has_loop-append i (t ∷ ts) us = ground (arith, has_loop-append i ts us)

ramp-loops :
    (i : ℕ) (events : List Event) (r : RampUp)
    → has_loop i (ramp_all events r).messaging_loops
      ≡ (has_loop i r.messaging_loops || has_paired i events)
unfolding ramp_all ramp
ramp-loops i [] r = ground arith
ramp-loops i (starts j ∷ rest) r = ground (
  arith,
  ramp-loops i rest (ramp (starts j) r),
  has_loop-append i r.messaging_loops (connection j ∷ []),
)
ramp-loops i (pairs j ∷ rest) r = ground (
  arith,
  ramp-loops i rest (ramp (pairs j) r),
  has_loop-append i r.messaging_loops (messages j ∷ []),
)
ramp-loops i (fails j ∷ rest) r = ramp-loops i rest (ramp (fails j) r)
ramp-loops i (waits ∷ rest) r = ramp-loops i rest (ramp waits r)

ramp-awaited :
    (events : List Event) (r : RampUp) → Ramping events → (ramp_all events r).awaited ≡ r.awaited
unfolding ramp_all ramp
ramp-awaited [] r h = refl
ramp-awaited (starts j ∷ rest) r h = ramp-awaited rest (ramp (starts j) r) h
ramp-awaited (pairs j ∷ rest) r h = ramp-awaited rest (ramp (pairs j) r) h
ramp-awaited (fails j ∷ rest) r h = ramp-awaited rest (ramp (fails j) r) h
ramp-awaited (waits ∷ rest) r h = absurd h

ramp_all-append :
    (xs ys : List Event) (r : RampUp) → ramp_all (xs ++ ys) r ≡ ramp_all ys (ramp_all xs r)
unfolding ramp_all
ramp_all-append [] ys r = refl
ramp_all-append (x ∷ xs) ys r = ramp_all-append xs ys (ramp x r)

-- The messages of a pair are waited for exactly where its clients have connected before the wait
-- begins.
pub loops_awaited :
    (before later : List Event) (i : ℕ)
    → Ramping before
    → Ramping later
    → waits_for i (ramp_all (before ++ waits ∷ later) not_started).awaited ≡ has_paired i before
unfolding ramp_all ramp
loops_awaited before later i hb hl =
    ap (λ (r : RampUp). waits_for i r.awaited) (ramp_all-append before (waits ∷ later) not_started)
    ∙ ap (waits_for i) (ramp-awaited later (ramp waits (ramp_all before not_started)) hl)
    ∙ ramp-loops i before not_started
