-- ===== src/Common/Lists.antt =====
-- Lists measured by native numbers, under the library's names.
use Prim.Native.Nat.{ℕ, zero, suc, ◌+◌, ◌-◌, ◌≤◌}
use nunya_core.Common.Tests.{◌==◌, if◌then◌else◌, ==_iff, ==_refl}
use mathlib.Core.Bool.{Bool, true, false, not, ◌&&◌, ◌||◌}
use mathlib.Core.Path.{◌≡◌, refl, ap, ◌∙◌}
use mathlib.Core.List.{List, [], ◌∷◌, ◌++◌, reverse, reverse-cons}
use native.Mathlib.Omega.{arith}

module _ {ℓ} {A : Type ℓ} where
  abbrev pub length : List A → ℕ
  length [] = 0
  length (x ∷ xs) = suc (length xs)

  abbrev pub take : ℕ → List A → List A
  take zero xs = []
  take (suc n) [] = []
  take (suc n) (x ∷ xs) = x ∷ take n xs

  abbrev pub drop : ℕ → List A → List A
  drop zero xs = xs
  drop (suc n) [] = []
  drop (suc n) (x ∷ xs) = drop n xs

  pub length-append : (xs ys : List A) → length (xs ++ ys) ≡ length xs + length ys
  length-append [] ys = omega arith
  length-append (x ∷ xs) ys = omega (arith, length-append xs ys)

  pub take-append_self : (xs ys : List A) → take (length xs) (xs ++ ys) ≡ xs
  take-append_self [] ys = refl
  take-append_self (x ∷ xs) ys = ap (◌∷◌ x) (take-append_self xs ys)

  pub drop-append_self : (xs ys : List A) → drop (length xs) (xs ++ ys) ≡ ys
  drop-append_self [] ys = refl
  drop-append_self (x ∷ xs) ys = drop-append_self xs ys

  pub length-take-le : (n : ℕ) (xs : List A) → length (take n xs) ≤ n
  length-take-le zero xs = omega arith
  length-take-le (suc n) [] = omega arith
  length-take-le (suc n) (x ∷ xs) = omega (arith, length-take-le n xs)

  pub length-take_lt : (n : ℕ) (xs : List A) → length (take n xs) ≤ length xs
  length-take_lt zero xs = omega arith
  length-take_lt (suc n) [] = omega arith
  length-take_lt (suc n) (x ∷ xs) = omega (arith, length-take_lt n xs)

  pub length-drop : (n : ℕ) (xs : List A) → length (drop n xs) ≡ length xs - n
  length-drop zero xs = omega arith
  length-drop (suc n) [] = omega arith
  length-drop (suc n) (x ∷ xs) = omega (arith, length-drop n xs)

  -- A predicate that every element of a list meets.
  abbrev pub All {κ} : (A → Type κ) → List A → Type κ
  All P [] = Unit {κ}
  All P (x ∷ xs) = P x × All P xs

  -- Membership by recursion, which the tactics take apart.
  pub All-append {κ} : (P : A → Type κ) (xs ys : List A) → All P xs → All P ys → All P (xs ++ ys)
  All-append P [] ys hx hy = hy
  All-append P (x ∷ xs) ys hx hy = (hx.0, All-append P xs ys hx.1 hy)

-- Whether a number is in a list, how often, and whether a list has each of its numbers once.
unfoldable pub contains : List ℕ → ℕ → Bool
contains [] t = false
contains (x ∷ xs) t = x == t || contains xs t

pub contains-append :
    (xs ys : List ℕ) (t : ℕ) → contains (xs ++ ys) t ≡ (contains xs t || contains ys t)
unfolding contains
contains-append [] ys t = refl
contains-append (x ∷ xs) ys t = ground (arith, contains-append xs ys t)

pub contains-reverse : (xs : List ℕ) (t : ℕ) → contains (reverse xs) t ≡ contains xs t
unfolding contains
contains-reverse [] t = refl
contains-reverse (x ∷ xs) t =
    ap (λ (l : List ℕ). contains l t) (reverse-cons x xs)
    ∙ ground (arith, contains-append (reverse xs) (x ∷ []) t, contains-reverse xs t)

unfoldable pub count : ℕ → List ℕ → ℕ
count t [] = 0
count t (x ∷ xs) = (if x == t then 1 else 0) + count t xs

pub count-append : (t : ℕ) (xs ys : List ℕ) → count t (xs ++ ys) ≡ count t xs + count t ys
unfolding count
count-append t [] ys = omega arith
count-append t (x ∷ xs) ys = omega (arith, count-append t xs ys)

unfoldable pub are_distinct : List ℕ → Bool
unfolding contains
are_distinct [] = true
are_distinct (x ∷ xs) = not (contains xs x) && are_distinct xs

pub distinct-append :
    (xs : List ℕ) (t : ℕ)
    → are_distinct xs ≡ true
    → contains xs t ≡ false
    → are_distinct (xs ++ (t ∷ [])) ≡ true
unfolding contains are_distinct
distinct-append [] t d c = refl
distinct-append (x ∷ xs) t d c =
    ground (arith, distinct-append xs t, contains-append xs (t ∷ []) x, ==_iff x t, ==_refl x)
