-- ===== src/SessionStore/Listing.antt =====
-- `list` and the garbage collection: every identifier of the master list is looked up once.
use mathlib.Core.Path.{fun_ext}
use mathlib.Core.List.{Mem, Memᴰ, mem-cons_self, mem-cons_of_mem}
use mobile_wallet_protocol.Prelude.{
  ℕ, ◌≤◌, ◌≡◌, refl, ap, sym, subst, ◌∙◌, Text, text_eq, text_eq_iff, includes, true, Bool-cases,
  Option-cases, inl, inr, Option, some, List, [], ◌∷◌, arith,
}
use mobile_wallet_protocol.Domain.{Session}
use mobile_wallet_protocol.Kv.{IkvStore}
use mobile_wallet_protocol.SessionStore.{
  get_master_list, get, gather, get_all, list, garbage_collect, create,
}
use mobile_wallet_protocol.SessionStore.MasterList.{IsIndexed}
use mobile_wallet_protocol.SessionStore.View.{view, get-view, view-get, view-some_stored}

-- The values that a lookup finds, in the order of the keys.
pub filter_map : (Text → Option Session) → List Text → List Session
filter_map f [] = []
filter_map f (id ∷ ids) = gather (f id) (filter_map f ids)

filter_map-congr :
    (f g : Text → Option Session) (ids : List Text)
    → ((id : Text) → f id ≡ g id)
    → filter_map f ids ≡ filter_map g ids
filter_map-congr f g ids h = rw (fun_ext h)

mem-filter_map :
    (f : Text → Option Session) (id : Text) (s : Session) (ids : List Text)
    → includes ids id ≡ true
    → f id ≡ some s
    → Mem s (filter_map f ids)
unfolding filter_map includes
mem-filter_map f id s [] h e = cc
mem-filter_map f id s (x ∷ ids) h e = elim (Bool-cases (text_eq x id)) [
  | inl same ↦ rw ((text_eq_iff x id).0 same, e) mem-cons_self
  | inr other ↦ elim (Option-cases (f x)) [
    | inl gone ↦ rw gone (mem-filter_map f id s ids (ground arith) e)
    | inr (t, kept) ↦ rw kept (mem-cons_of_mem t (mem-filter_map f id s ids (ground arith) e))
  ]
]

pub mem-filter_map_inv :
    (f : Text → Option Session) (s : Session) (ids : List Text)
    → Memᴰ s (filter_map f ids)
    → (id : Text) × (f id ≡ some s)
unfolding filter_map
mem-filter_map_inv f s [] m = elim m [ ]
mem-filter_map_inv f s (x ∷ ids) m = elim (Option-cases (f x)) [
  | inl gone ↦
      mem-filter_map_inv f s ids
        (subst (λ (e : Option Session). Memᴰ s (gather e (filter_map f ids))) gone m)
  | inr (t, kept) ↦
      elim (subst (λ (e : Option Session). Memᴰ s (gather e (filter_map f ids))) kept m) [
        | Memᴰ.head same ↦ (x, kept ∙ ap some (sym same))
        | Memᴰ.tail later ↦ mem-filter_map_inv f s ids later
      ]
]

module _ (kv : IkvStore) where
  open kv use {Store}

  view-get_all :
      (early late : ℕ) (ids : List Text) (st : Store) (j : Text)
      → early ≤ late
      → view kv late (get_all kv early ids st).1 j ≡ view kv late st j
  unfolding get_all
  view-get_all early late [] st j h = refl
  view-get_all early late (id ∷ ids) st j h =
      view-get_all early late ids (get kv early id st).1 j h ∙ view-get kv early late id j st h

  get_all-filter_map :
      (now : ℕ) (ids : List Text) (st : Store)
      → (get_all kv now ids st).0 ≡ filter_map (view kv now st) ids
  unfolding get_all filter_map
  get_all-filter_map now [] st = refl
  get_all-filter_map now (id ∷ ids) st = rw (
    get-view kv now id st,
    get_all-filter_map now ids (get kv now id st).1,
    filter_map-congr (view kv now (get kv now id st).1) (view kv now st) ids
        (λ j. view-get kv now now id j st (omega arith)),
  )

  -- `list` returns the live sessions of the master list, in its order.
  pub list-filter_map :
      (now : ℕ) (st : Store)
      → (list kv now st).0 ≡ filter_map (view kv now st) (get_master_list kv st)
  unfolding list
  list-filter_map now st = get_all-filter_map now (get_master_list kv st) st

  -- Where the master list is in order, `list` misses no live session.
  pub list_complete :
      (now : ℕ) (st : Store) (id : Text) (s : Session)
      → IsIndexed kv st
      → view kv now st id ≡ some s
      → Mem s (list kv now st).0
  list_complete now st id s v e = rw (list-filter_map now st) (
      mem-filter_map (view kv now st) id s (get_master_list kv st)
        (v.covers id (view-some_stored kv now st id s e)) e)

  -- Creating a store, with its garbage collection, takes no live session away, then or later.
  pub view-create :
      (now later : ℕ) (st : Store) (j : Text)
      → now ≤ later
      → view kv later (create kv now st) j ≡ view kv later st j
  unfolding create garbage_collect
  view-create now later st j h = view-get_all now later (get_master_list kv st) st j h

  pub view-list :
      (now later : ℕ) (st : Store) (j : Text)
      → now ≤ later
      → view kv later (list kv now st).1 j ≡ view kv later st j
  unfolding list
  view-list now later st j h = view-get_all now later (get_master_list kv st) st j h
