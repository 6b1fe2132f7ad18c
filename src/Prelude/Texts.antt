-- ===== src/Prelude/Texts.antt =====
-- JavaScript strings as lists of UTF-16 code units, with their equality test.
use Prim.Native.Nat.{ℕ}
use Prim.Native.Char.{code}
use Prim.Native.String.{String}
use mathlib.Core.Path.{◌≡◌, refl}
use mathlib.Core.Logic.{◌↔◌}
use mathlib.Core.Bool.{Bool, true, false, ◌&&◌}
use mathlib.Core.List.{List, [], ◌∷◌, ◌++◌}
use native.Mathlib.Omega.{arith}
use mobile_wallet_protocol.Prelude.Tests.{◌==◌, if◌then◌else◌}

abbrev pub Text : Type 0
Text = List ℕ

-- The code units of a quoted text, which is ASCII wherever the program quotes one.
abbrev pub codes : String → Text
codes String.[] = []
codes (String.◌∷◌ c s) = code c ∷ codes s

-- `a === b` on strings.
unfoldable pub text_eq : Text → Text → Bool
text_eq [] [] = true
text_eq [] (y ∷ ys) = false
text_eq (x ∷ xs) [] = false
text_eq (x ∷ xs) (y ∷ ys) = (x == y) && text_eq xs ys

pub text_eq_refl : (a : Text) → text_eq a a ≡ true
unfolding text_eq
text_eq_refl [] = refl
text_eq_refl (x ∷ xs) = ground (arith, text_eq_refl xs)

text_eq→eq : (a b : Text) → text_eq a b ≡ true → a ≡ b
unfolding text_eq
text_eq→eq [] [] h = refl
text_eq→eq [] (y ∷ ys) h = cc
text_eq→eq (x ∷ xs) [] h = cc
text_eq→eq (x ∷ xs) (y ∷ ys) h = ground (arith, text_eq→eq xs ys)

pub text_eq_iff : (a b : Text) → (text_eq a b ≡ true) ↔ (a ≡ b)
text_eq_iff a b = (text_eq→eq a b, λ e. ground (arith, text_eq_refl a))

-- A common prefix does not decide the test: keys under one prefix are equal if their rests are.
pub text_eq-append : (p a b : Text) → text_eq (p ++ a) (p ++ b) ≡ text_eq a b
unfolding text_eq
text_eq-append [] a b = refl
text_eq-append (x ∷ p) a b = ground (arith, text_eq-append p a b)

-- An empty string is falsy.
abbrev pub is_empty : Text → Bool
is_empty [] = true
is_empty (x ∷ xs) = false

-- `list.includes(a)`.
unfoldable pub includes : List Text → Text → Bool
includes [] a = false
includes (x ∷ xs) a = if text_eq x a then true else includes xs a

-- `list.filter((x) => x !== a)`.
unfoldable pub without : Text → List Text → List Text
without a [] = []
without a (x ∷ xs) = let rest = without a xs in if text_eq x a then rest else x ∷ rest

pub includes-without :
    (a b : Text) (xs : List Text)
    → includes (without a xs) b ≡ (if text_eq a b then false else includes xs b)
unfolding includes without
includes-without a b [] = ground arith
includes-without a b (x ∷ xs) =
    ground (arith, includes-without a b xs, text_eq_iff x a, text_eq_iff x b, text_eq_iff a b)

pub includes-append :
    (a b : Text) (xs : List Text)
    → includes (xs ++ a ∷ []) b ≡ (if text_eq a b then true else includes xs b)
unfolding includes
includes-append a b [] = refl
includes-append a b (x ∷ xs) = ground (arith, includes-append a b xs)

-- No string stands twice in the list.
abbrev pub AllDistinct : List Text → Type 0
AllDistinct [] = Unit {0}
AllDistinct (x ∷ xs) = (includes xs x ≡ false) × AllDistinct xs

pub without-AllDistinct : (a : Text) (xs : List Text) → AllDistinct xs → AllDistinct (without a xs)
unfolding without
without-AllDistinct a [] h = tt
without-AllDistinct a (x ∷ xs) h =
    ground (arith, without-AllDistinct a xs h.1, includes-without a x xs)

pub append-AllDistinct :
    (a : Text) (xs : List Text)
    → includes xs a ≡ false
    → AllDistinct xs
    → AllDistinct (xs ++ a ∷ [])
unfolding includes
append-AllDistinct a [] n h = (refl, tt)
append-AllDistinct a (x ∷ xs) n h =
    ground
      (arith, append-AllDistinct a xs, includes-append a x xs, text_eq_iff a x, text_eq_iff x a)
