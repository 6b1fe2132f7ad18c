-- ===== src/Transport/Shared/Loops.antt =====
-- What the counts of the channels are after one decrement and after the loop of `disconnect`.
use mobile_wallet_protocol.Prelude.{
  ℕ, ◌-◌, ◌≡◌, Text, text_eq, text_eq_iff, includes, AllDistinct, one_if, Option-cases, inl, inr,
  Option, none, some, List, [], ◌∷◌, arith,
}
use mobile_wallet_protocol.Kv.{Map, map_get, map_get-map_set, map_get-map_delete}
use mobile_wallet_protocol.Transport.Shared.{decrement_channel_ref, decrement_all}

-- The count of a channel; one that is not in the map has none.
abbrev pub count_of : Option ℕ → ℕ
count_of none = 0
count_of (some n) = n

-- No stored count is 0.
abbrev pub NonZero : Map ℕ → Type 0
NonZero subs = (j : Text) → map_get subs j ≡ some 0 → ⊥

pub count-decrement :
    (channel j : Text) (subs : Map ℕ)
    → count_of (map_get (decrement_channel_ref channel subs) j)
      ≡ count_of (map_get subs j) - one_if (text_eq channel j)
unfolding decrement_channel_ref
count-decrement channel j subs = elim (Option-cases (map_get subs channel)) [
  | inl e ↦ rw (e, decrement_channel_ref) (ground (arith, text_eq_iff channel j))
  | inr (n, e) ↦
      rw (e, decrement_channel_ref)
        (ground (
          arith,
          text_eq_iff channel j,
          map_get-map_delete subs channel j,
          map_get-map_set subs channel j (n - 1),
        ))
]

pub decrement-NonZero :
    (channel : Text) (subs : Map ℕ) → NonZero subs → NonZero (decrement_channel_ref channel subs)
unfolding decrement_channel_ref
decrement-NonZero channel subs h j = elim (Option-cases (map_get subs channel)) [
  | inl e ↦ rw (e, decrement_channel_ref) (h j)
  | inr (n, e) ↦
      rw (e, decrement_channel_ref)
        (ground
          (arith, h j, map_get-map_delete subs channel j, map_get-map_set subs channel j (n - 1)))
]

-- The loop takes one from each channel of the list, and nothing from the others.
pub count-decrement_all :
    (channels : List Text) (j : Text) (subs : Map ℕ)
    → AllDistinct channels
    → count_of (map_get (decrement_all channels subs) j)
      ≡ count_of (map_get subs j) - one_if (includes channels j)
unfolding decrement_all includes
count-decrement_all [] j subs d = omega arith
count-decrement_all (channel ∷ rest) j subs d = ground (
  arith,
  count-decrement_all rest j (decrement_channel_ref channel subs) d.1,
  count-decrement channel j subs,
  text_eq_iff channel j,
)

pub decrement_all-NonZero :
    (channels : List Text) (subs : Map ℕ) → NonZero subs → NonZero (decrement_all channels subs)
unfolding decrement_all
decrement_all-NonZero [] subs h = h
decrement_all-NonZero (channel ∷ rest) subs h =
    decrement_all-NonZero rest (decrement_channel_ref channel subs)
      (decrement-NonZero channel subs h)
