-- ===== src/Transport/Shared/Reconnect.antt =====
-- packages/core/src/transport/websocket/shared-centrifuge.ts: `reconnect`, on the connection that
-- the instances share.
--
-- The async function of the first call waits for the link to close, then for it to open or to
-- fail. `phase` is where it waits, and `none` that `reconnectPromise` is null. A caller is a
-- number; `settled` lists the callers whose promise has settled, and whether it was resolved.
use mathlib.Core.List.{append_assoc, append-nil}
use mobile_wallet_protocol.Prelude.{
  ℕ, ◌≡◌, refl, sym, ap, ◌∙◌, Bool, true, false, Option, none, some, List, [], ◌∷◌, ◌++◌, map,
  arith,
}
use mobile_wallet_protocol.Transport.Shared.{Link, Request, connect_link, disconnect_link}

pub data Phase : Type 0 where
  waits_closed waits_open : Phase

pub record Connection : Type 0 where
  pub link : Link
  pub phase : Option Phase
  pub waiting : List ℕ
  pub settled : List (ℕ × Bool)
  pub asked : List Request

-- `context.centrifuge.connect()` and the wait for its outcome.
pub open_link : Connection → Connection
open_link c = record c {
  link = Link.connecting;
  phase = some waits_open;
  asked = c.asked ++ connect_link ∷ [];
}

pub close_link : Connection → Connection
close_link c = record c { phase = some waits_closed; asked = c.asked ++ disconnect_link ∷ [] }

-- What a first call does before it waits.
pub start : Link → Connection → Connection
start Link.disconnected c = open_link c
start Link.connecting c = close_link c
start Link.connected c = close_link c

pub reconnect : ℕ → Connection → Connection
reconnect caller c = elim c.phase [
  | none ↦ start c.link (record c { waiting = caller ∷ [] })
  | some phase ↦ record c { waiting = c.waiting ++ caller ∷ [] }
]

-- The promise settles for every caller, and the next call starts anew.
pub settle : Bool → Connection → Connection
settle ok c = record c {
  phase = none;
  waiting = [];
  settled = c.settled ++ map (λ (caller : ℕ). (caller, ok)) c.waiting;
}

-- The link's events.
pub on_closed : Connection → Connection
on_closed c = elim c.phase [
  | none ↦ record c { link = Link.disconnected }
  | some phase ↦ elim phase [
    | waits_closed ↦ open_link c
    | waits_open ↦ record c { link = Link.disconnected }
  ]
]

pub on_opened : Connection → Connection
on_opened c = elim c.phase [
  | none ↦ record c { link = Link.connected }
  | some phase ↦ elim phase [
    | waits_closed ↦ record c { link = Link.connected }
    | waits_open ↦ settle true (record c { link = Link.connected })
  ]
]

pub on_error : Connection → Connection
on_error c = elim c.phase [
  | none ↦ c
  | some phase ↦ elim phase [ waits_closed ↦ c | waits_open ↦ settle false c ]
]

pub data Step : Type 0 where
  reconnects : ℕ → Step
  closed opened failed : Step

pub step : Step → Connection → Connection
step (reconnects caller) c = reconnect caller c
step closed c = on_closed c
step opened c = on_opened c
step failed c = on_error c

pub steps : List Step → Connection → Connection
steps [] c = c
steps (s ∷ rest) c = steps rest (step s c)

abbrev pub callers : List (ℕ × Bool) → List ℕ
callers [] = []
callers ((caller, ok) ∷ rest) = caller ∷ callers rest

-- Who has called, in order.
abbrev pub calls : List Step → List ℕ
calls [] = []
calls (reconnects caller ∷ rest) = caller ∷ calls rest
calls (closed ∷ rest) = calls rest
calls (opened ∷ rest) = calls rest
calls (failed ∷ rest) = calls rest

-- Nobody waits while no reconnect is in progress.
pub record IsAnswered (c : Connection) : Type 0 where
  pub idle : c.phase ≡ none → c.waiting ≡ []

abbrev pub accounted : Connection → List ℕ
accounted c = callers c.settled ++ c.waiting

callers-append : (xs ys : List (ℕ × Bool)) → callers (xs ++ ys) ≡ callers xs ++ callers ys
callers-append [] ys = refl
callers-append ((caller, ok) ∷ xs) ys = ap (◌∷◌ caller) (callers-append xs ys)

callers-map : (ok : Bool) (xs : List ℕ) → callers (map (λ (caller : ℕ). (caller, ok)) xs) ≡ xs
callers-map ok [] = refl
callers-map ok (x ∷ xs) = ap (◌∷◌ x) (callers-map ok xs)

step-IsAnswered : (s : Step) (c : Connection) → IsAnswered c → IsAnswered (step s c)
unfolding step reconnect start open_link close_link settle on_closed on_opened on_error
step-IsAnswered s c v = record { idle = ground (arith, v.idle) }

settle-accounted : (ok : Bool) (c : Connection) → accounted (settle ok c) ≡ accounted c
unfolding settle
settle-accounted ok c =
    append-nil (callers (c.settled ++ map (λ (caller : ℕ). (caller, ok)) c.waiting))
    ∙ callers-append c.settled (map (λ (caller : ℕ). (caller, ok)) c.waiting)
    ∙ ap (λ (xs : List ℕ). callers c.settled ++ xs) (callers-map ok c.waiting)

step-accounted :
    (s : Step) (c : Connection)
    → IsAnswered c
    → accounted (step s c) ≡ accounted c ++ calls (s ∷ [])
unfolding step reconnect start open_link close_link on_closed on_opened on_error
step-accounted (reconnects caller) c v = ground (
  arith,
  v.idle,
  append-nil (callers c.settled),
  append_assoc (callers c.settled) c.waiting (caller ∷ []),
)
step-accounted closed c v = ground (arith, append-nil (accounted c))
step-accounted opened c v =
    ground
      (arith, append-nil (accounted c), settle-accounted true (record c { link = Link.connected }))
step-accounted failed c v = ground (arith, append-nil (accounted c), settle-accounted false c)

calls-cons : (s : Step) (ss : List Step) → calls (s ∷ ss) ≡ calls (s ∷ []) ++ calls ss
calls-cons (reconnects caller) ss = refl
calls-cons closed ss = refl
calls-cons opened ss = refl
calls-cons failed ss = refl

-- Whatever calls and events come, from a connection where nobody waits while no reconnect is in
-- progress: the settled callers followed by those who wait are the earlier ones and then all who
-- called, in order, each once, and nobody waits while no reconnect is in progress.
pub steps-accounted :
    (ss : List Step) (c : Connection)
    → IsAnswered c
    → (accounted (steps ss c) ≡ accounted c ++ calls ss) × IsAnswered (steps ss c)
unfolding steps
steps-accounted [] c v = (sym (append-nil (accounted c)), v)
steps-accounted (s ∷ ss) c v =
    let rest = steps-accounted ss (step s c) (step-IsAnswered s c v) in
    (
      rest.0
          ∙ ap (λ (xs : List ℕ). xs ++ calls ss) (step-accounted s c v)
          ∙ append_assoc (accounted c) (calls (s ∷ [])) (calls ss)
          ∙ ap (λ (xs : List ℕ). accounted c ++ xs) (sym (calls-cons s ss)),
      rest.1,
    )
