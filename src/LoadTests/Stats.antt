-- ===== src/LoadTests/Stats.antt =====
-- apps/load-tests/src/utils/stats.ts: the statistics of connection times.
--
-- A time is a number of microseconds, and a statistic a number of milliseconds, rounded as
-- `Math.round` does. The index `Math.floor((n - 1) * 0.95)` is taken exactly, without the rounding of
-- the product.
use mathlib.Core.Option.{some-injective}
use mobile_wallet_protocol.Prelude.{
  ℕ, zero, suc, ◌+◌, ◌-◌, ◌*◌, ◌/◌, ◌≤◌, ◌<◌, ◌≡◌, refl, subst, true, false, leb, Option, none,
  some, List, [], ◌∷◌, length, get_elem?, All, arith, if◌then◌else◌, Bool-cases, inl, inr,
}

pub record ConnectTimeStats : Type 0 where
  pub min : ℕ
  pub max : ℕ
  pub avg : ℕ
  pub p50 : ℕ
  pub p95 : ℕ
  pub p99 : ℕ

-- `sort((a, b) => a - b)`.
unfoldable pub insert : ℕ → List ℕ → List ℕ
insert t [] = t ∷ []
insert t (u ∷ rest) = let later = insert t rest in if leb t u then t ∷ (u ∷ rest) else u ∷ later

unfoldable pub sort : List ℕ → List ℕ
sort [] = []
sort (t ∷ rest) = insert t (sort rest)

abbrev sum : List ℕ → ℕ
sum [] = 0
sum (t ∷ rest) = t + sum rest

-- `Math.round` of a time in milliseconds.
abbrev pub round : ℕ → ℕ
round t = (t + 500) / 1000

-- `Math.round(sorted[i] ?? 0)`.
abbrev pub round_at : Option ℕ → ℕ
round_at none = round 0
round_at (some t) = round t

unfoldable pub calculate_connect_time_stats : List ℕ → Option ConnectTimeStats
calculate_connect_time_stats [] = none
calculate_connect_time_stats (t ∷ rest) =
    let sorted = sort (t ∷ rest) in
    let n = length sorted in
    some (record {
      min = round_at (get_elem? sorted 0);
      max = round_at (get_elem? sorted (n - 1));
      avg = (2 * sum sorted + 1000 * n) / (2000 * n);
      p50 = round_at (get_elem? sorted ((n - 1) / 2));
      p95 = round_at (get_elem? sorted ((n - 1) * 95 / 100));
      p99 = round_at (get_elem? sorted ((n - 1) * 99 / 100));
    })

-- Each time is at most the next.
abbrev IsSorted : List ℕ → Type 0
IsSorted [] = Unit
IsSorted (t ∷ rest) = All (λ u. t ≤ u) rest × IsSorted rest

leb→le : (a b : ℕ) → leb a b ≡ true → a ≤ b
leb→le a b h = ground arith

leb→lt : (a b : ℕ) → leb a b ≡ false → b < a
leb→lt a b h = ground arith

insert-All : (p t : ℕ) (ts : List ℕ) → p ≤ t → All (λ u. p ≤ u) ts → All (λ u. p ≤ u) (insert t ts)
unfolding insert
insert-All p t [] h all = (h, tt)
insert-All p t (u ∷ rest) h all = elim (Bool-cases (leb t u)) [
  | inl first ↦ rw first (h, all)
  | inr later ↦ rw later (all.0, insert-All p t rest h all.1)
]

All-le_trans : (p q : ℕ) (ts : List ℕ) → p ≤ q → All (λ u. q ≤ u) ts → All (λ u. p ≤ u) ts
All-le_trans p q [] h all = tt
All-le_trans p q (t ∷ ts) h all = (omega (arith, h, all.0), All-le_trans p q ts h all.1)

insert-IsSorted : (t : ℕ) (ts : List ℕ) → IsSorted ts → IsSorted (insert t ts)
unfolding insert
insert-IsSorted t [] h = (tt, tt)
insert-IsSorted t (u ∷ rest) h = elim (Bool-cases (leb t u)) [
  | inl first ↦ rw first ((leb→le t u first, All-le_trans t u rest (leb→le t u first) h.0), h)
  | inr later ↦
      rw later
        (insert-All u t rest (omega (arith, leb→lt t u later)) h.0, insert-IsSorted t rest h.1)
]

sort-IsSorted : (ts : List ℕ) → IsSorted (sort ts)
unfolding sort
sort-IsSorted [] = tt
sort-IsSorted (t ∷ rest) = insert-IsSorted t (sort rest) (sort-IsSorted rest)

first-le :
    (p : ℕ) (ts : List ℕ) (j : ℕ)
    → All (λ u. p ≤ u) ts
    → j < length ts
    → round p ≤ round_at (get_elem? ts j)
first-le p [] j all inside = absurd (omega (arith, inside))
first-le p (t ∷ ts) zero all inside = omega (arith, all.0)
first-le p (t ∷ ts) (suc j) all inside = first-le p ts j all.1 (omega (arith, inside))

-- In a sorted list, a later place has no smaller time.
get_elem-le :
    (ts : List ℕ) (i j : ℕ)
    → IsSorted ts
    → i ≤ j
    → j < length ts
    → round_at (get_elem? ts i) ≤ round_at (get_elem? ts j)
get_elem-le [] i j h le inside = absurd (omega (arith, inside))
get_elem-le (t ∷ ts) zero zero h le inside = omega arith
get_elem-le (t ∷ ts) zero (suc j) h le inside = first-le t ts j h.0 (omega (arith, inside))
get_elem-le (t ∷ ts) (suc i) zero h le inside = absurd (omega (arith, le))
get_elem-le (t ∷ ts) (suc i) (suc j) h le inside =
    get_elem-le ts i j h.1 (omega (arith, le)) (omega (arith, inside))

insert-All_inv : (P : ℕ → Type 0) (t : ℕ) (ts : List ℕ) → All P (insert t ts) → P t × All P ts
unfolding insert
insert-All_inv P t [] all = all
insert-All_inv P t (u ∷ rest) all = elim (Bool-cases (leb t u)) [
  | inl first ↦ rw first at all
  | inr later ↦
      let kept : All P (u ∷ insert t rest) = rw later at all in
      let ih = insert-All_inv P t rest kept.1 in (ih.0, (kept.0, ih.1))
]

sort-All_inv : (P : ℕ → Type 0) (ts : List ℕ) → All P (sort ts) → All P ts
unfolding sort
sort-All_inv P [] all = tt
sort-All_inv P (t ∷ rest) all =
    let kept = insert-All_inv P t (sort rest) all in (kept.0, sort-All_inv P rest kept.1)

length-insert : (t : ℕ) (ts : List ℕ) → length (insert t ts) ≡ suc (length ts)
unfolding insert
length-insert t [] = refl
length-insert t (u ∷ rest) = ground (arith, length-insert t rest)

-- Each time of a sorted list that starts at `p` or above lies between `p` and the last.
between :
    (p : ℕ) (ts : List ℕ) (k : ℕ)
    → All (λ u. p ≤ u) ts
    → IsSorted ts
    → length ts ≡ suc k
    → All (λ u. (round p ≤ round u) × (round u ≤ round_at (get_elem? ts k))) ts
between p [] k above h e = tt
between p (t ∷ []) zero above h e = ((omega (arith, above.0), omega arith), tt)
between p (t ∷ []) (suc k) above h e = absurd (omega (arith, e))
between p (t ∷ u ∷ ts) zero above h e = absurd (omega (arith, e))
between p (t ∷ u ∷ ts) (suc k) above h e = (
  (omega (arith, above.0), first-le t (u ∷ ts) k h.0 (omega (arith, e))),
  between p (u ∷ ts) k above.1 h.1 (omega (arith, e)),
)

within :
    (ts : List ℕ) (k : ℕ)
    → IsSorted ts
    → length ts ≡ suc k
    → All (λ u. (round_at (get_elem? ts 0) ≤ round u) × (round u ≤ round_at (get_elem? ts k))) ts
within [] k h e = tt
within (t ∷ ts) k h e = between t (t ∷ ts) k (omega arith, h.0) h e

-- The statistics of a set of times are in order: the least is at most the median, which is at most
-- the 95th percentile, the 99th and the greatest; and each of the times, rounded, lies between the
-- least and the greatest.
pub stats_ordered :
    (ts : List ℕ) (r : ConnectTimeStats)
    → calculate_connect_time_stats ts ≡ some r
    → (r.min ≤ r.p50)
      × (r.p50 ≤ r.p95)
      × (r.p95 ≤ r.p99)
      × (r.p99 ≤ r.max)
      × All (λ t. (r.min ≤ round t) × (round t ≤ r.max)) ts
unfolding calculate_connect_time_stats sort
stats_ordered [] r e = absurd (cc)
stats_ordered (t ∷ rest) r e =
    let sorted = sort (t ∷ rest) in
    let h = sort-IsSorted (t ∷ rest) in
    let n = length sorted in
    let some_time : 0 < n = omega (arith, length-insert t (sort rest)) in
    subst
      (λ (x : ConnectTimeStats).
        (x.min ≤ x.p50)
        × (x.p50 ≤ x.p95)
        × (x.p95 ≤ x.p99)
        × (x.p99 ≤ x.max)
        × All (λ u. (x.min ≤ round u) × (round u ≤ x.max)) (t ∷ rest))
      (some-injective _ _ e)
      (
        get_elem-le sorted 0 ((n - 1) / 2) h (omega arith) (omega (arith, some_time)),
        get_elem-le sorted ((n - 1) / 2) ((n - 1) * 95 / 100) h (omega arith)
            (omega (arith, some_time)),
        get_elem-le sorted ((n - 1) * 95 / 100) ((n - 1) * 99 / 100) h (omega arith)
            (omega (arith, some_time)),
        get_elem-le sorted ((n - 1) * 99 / 100) (n - 1) h (omega arith) (omega (arith, some_time)),
        sort-All_inv _ (t ∷ rest) (within sorted (n - 1) h (omega (arith, some_time))),
      )
