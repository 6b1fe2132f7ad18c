-- ===== src/SessionStore/Refinement.antt =====
-- The session store against what its callers rely on: a map from identifiers to sessions, in which
-- a session is found until it expires.
use mathlib.Core.List.{Mem, Mem-prop}
use mathlib.Core.Logic.{∥∥₁_map, ∥∥₁_elim}
use mobile_wallet_protocol.Prelude.{
  ℕ, ◌≤◌, ◌≡◌, refl, ◌∙◌, ap, sym, Text, text_eq, Bool-cases, inl, inr, Option, none, some, List,
  [], ◌∷◌, ◌↔◌, arith, if◌then◌else◌,
}
use mobile_wallet_protocol.Domain.{
  Session, Result, ok, err, session_error, session_save_failed, not_before,
}
use mobile_wallet_protocol.Kv.{IkvStore}
use mobile_wallet_protocol.SessionStore.{get_master_list, set, get, list}
use mobile_wallet_protocol.SessionStore.Codec.{IsStorable}
use mobile_wallet_protocol.SessionStore.MasterList.{
  IsIndexed, Call, sets, gets, deletes, lists, collects, call, call-IsIndexed,
}
use mobile_wallet_protocol.SessionStore.View.{
  view, get-view, view-delete, view-get, view-set, set-rejects, set-returns,
}
use mobile_wallet_protocol.SessionStore.Listing.{
  mem-filter_map_inv, list-filter_map, list_complete, view-create, view-list,
}

-- What a method gives back to its caller.
pub data Answer : Type 0 where
  saved : Result (Unit {0}) → Answer
  found : Option Session → Answer
  listed : List Session → Answer
  done : Answer

module _ (kv : IkvStore) where
  abbrev answer : ℕ → Call → kv.Store → Answer
  answer now (sets s) st = saved (set kv now s st).0
  answer now (gets id) st = found (get kv now id st).0
  answer now (deletes id) st = done
  answer now lists st = listed (list kv now st).0
  answer now collects st = done

  -- The answers of methods that run at given times, one after another.
  unfoldable pub answers : List (ℕ × Call) → kv.Store → List Answer
  answers [] st = []
  answers ((now, c) ∷ cs) st = answer now c st ∷ answers cs (call kv now c st)

-- The map that the callers have in mind. Nothing in it tells when an expired session is removed.
abbrev pub Sessions : Type 0
Sessions = Text → Option Session

abbrev until_expiry : ℕ → Option Session → Option Session
until_expiry now none = none
until_expiry now (some s) = if not_before s.expires_at now then some s else none

abbrev pub held : ℕ → Sessions → Text → Option Session
held now m id = until_expiry now (m id)

abbrev pub put : Text → Option Session → Sessions → Sessions
put id entry m j = if text_eq id j then entry else m j

abbrev pub effect : ℕ → Call → Sessions → Sessions
effect now (sets s) m = if not_before s.expires_at now then put s.id (some s) m else m
effect now (gets id) m = m
effect now (deletes id) m = put id none m
effect now lists m = m
effect now collects m = m

-- What an answer has to be. A list holds the sessions of the map, in an order of its own.
abbrev pub Fits : ℕ → Sessions → Call → Answer → Type 0
Fits now m (sets s) a =
    a
    ≡ saved (if not_before s.expires_at now then ok tt else err (session_error session_save_failed))
Fits now m (gets id) a = a ≡ found (held now m id)
Fits now m (deletes id) a = a ≡ done
Fits now m lists a =
    (xs : List Session) × (a ≡ listed xs)
    × ((s : Session) → Mem s xs ↔ ∥ ((id : Text) × (held now m id ≡ some s)) ∥₁)
Fits now m collects a = a ≡ done

-- The answers are those of the map.
abbrev pub Meets : List (ℕ × Call) → List Answer → Sessions → Type 0
Meets [] [] m = Unit
Meets [] (a ∷ rest) m = ⊥
Meets (c ∷ cs) [] m = ⊥
Meets ((now, c) ∷ cs) (a ∷ rest) m = Fits now m c a × Meets cs rest (effect now c m)

abbrev pub Storable : Call → Type 0
Storable (sets s) = IsStorable s
Storable (gets id) = Unit
Storable (deletes id) = Unit
Storable lists = Unit
Storable collects = Unit

-- The clock does not go back, and the keys of the sessions are bytes.
abbrev pub InOrder : ℕ → List (ℕ × Call) → Type 0
InOrder from [] = Unit
InOrder from ((now, c) ∷ cs) = (from ≤ now) × Storable c × InOrder now cs

module _ (kv : IkvStore) where
  -- From a time on, the store holds what the map holds.
  abbrev pub Represents : ℕ → Sessions → kv.Store → Type 0
  Represents from m st =
      (later : ℕ) (id : Text) → from ≤ later → view kv later st id ≡ held later m id

  answer-Fits :
      (now : ℕ) (c : Call) (m : Sessions) (st : kv.Store)
      → IsIndexed kv st
      → Represents now m st
      → Fits now m c (answer kv now c st)
  answer-Fits now (sets s) m st v r = elim (Bool-cases (not_before s.expires_at now)) [
    | inl open_yet ↦ rw (set-returns kv now s st open_yet, open_yet) refl
    | inr over ↦ rw (set-rejects kv now s st over, over) refl
  ]
  answer-Fits now (gets id) m st v r = rw (get-view kv now id st, r now id (omega arith)) refl
  answer-Fits now (deletes id) m st v r = refl
  answer-Fits now lists m st v r = (
    (list kv now st).0,
    refl,
    λ s. (
      λ m. ∥∥₁_map (rw (← list-filter_map kv now st) m) (λ d.
          let found = mem-filter_map_inv (view kv now st) s (get_master_list kv st) d in
          (found.0, sym (r now found.0 (omega arith)) ∙ found.1)),
      λ k.
          ∥∥₁_elim k Mem-prop
            (λ (id, e). list_complete kv now st id s v (r now id (omega arith) ∙ e)),
    ),
  )
  answer-Fits now collects m st v r = refl

  call-Represents :
      (now : ℕ) (c : Call) (m : Sessions) (st : kv.Store)
      → Storable c
      → Represents now m st
      → Represents now (effect now c m) (call kv now c st)
  unfolding call
  call-Represents now (sets s) m st h r later j le =
      elim (Bool-cases (not_before s.expires_at now)) [
        | inl open_yet ↦
            view-set kv now later s st j h open_yet ∙ (rw open_yet (ground (arith, r later j le)))
        | inr over ↦
            ap (λ (x : kv.Store). view kv later x j)
              (ap (λ (x : Result (Unit {0}) × kv.Store). x.1) (set-rejects kv now s st over))
            ∙ r later j le
            ∙ rw over refl
      ]
  call-Represents now (gets id) m st h r later j le =
      view-get kv now later id j st le ∙ r later j le
  call-Represents now (deletes id) m st h r later j le =
      view-delete kv later id j st ∙ (rw (r later j le) (ground arith))
  call-Represents now lists m st h r later j le = view-list kv now later st j le ∙ r later j le
  call-Represents now collects m st h r later j le = view-create kv now later st j le ∙ r later j le

  -- A session store is a map from identifiers to sessions that are found until they expire: as long
  -- as the clock does not go back, every answer of its methods is what the map gives, whatever
  -- they remove on the way, if the store holds what the map holds at the start, its master list is in
  -- order and the keys of the sessions are bytes.
  pub store-Meets :
      (cs : List (ℕ × Call)) (from : ℕ) (m : Sessions) (st : kv.Store)
      → InOrder from cs
      → IsIndexed kv st
      → Represents from m st
      → Meets cs (answers kv cs st) m
  unfolding answers
  store-Meets [] from m st o v r = tt
  store-Meets ((now, c) ∷ cs) from m st o v r =
      let r' : Represents now m st = λ later id le. r later id (omega (arith, le, o.0)) in
      (
        answer-Fits now c m st v r',
        store-Meets cs now (effect now c m) (call kv now c st) o.2 (call-IsIndexed kv now c st v)
            (call-Represents now c m st o.1 r'),
      )
