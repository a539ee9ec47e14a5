-- ===== src/Common/Texts.antt =====
-- Texts: lists of bytes or of code points, compared as a whole, and lists of texts.
use Prim.Native.String.{String}
use Prim.Native.Char.{code}
use Prim.Native.Nat.{ℕ, ◌+◌}
use nunya_core.Common.Tests.{◌==◌, if◌then◌else◌, ==_iff, ==_refl}
use mathlib.Core.Bool.{Bool, true, false, ◌&&◌, ◌||◌}
use mathlib.Core.Path.{◌≡◌, refl}
use mathlib.Core.List.{List, [], ◌∷◌, ◌++◌}
use native.Mathlib.Omega.{arith}

-- The bytes of an ASCII literal.
abbrev pub codes : String → List ℕ
codes String.[] = []
codes (String.◌∷◌ c s) = code c ∷ codes s

unfoldable pub is_prefix : List ℕ → List ℕ → Bool
is_prefix [] text = true
is_prefix (c ∷ cs) [] = false
is_prefix (c ∷ cs) (d ∷ ds) = c == d && is_prefix cs ds

unfoldable pub eq_text : List ℕ → List ℕ → Bool
eq_text [] [] = true
eq_text [] (y ∷ ys) = false
eq_text (x ∷ xs) [] = false
eq_text (x ∷ xs) (y ∷ ys) = x == y && eq_text xs ys

pub eq_text_refl : (xs : List ℕ) → eq_text xs xs ≡ true
unfolding eq_text
eq_text_refl [] = refl
eq_text_refl (x ∷ xs) = ground (arith, eq_text_refl xs, ==_refl x)

pub eq_text→eq : (xs ys : List ℕ) → eq_text xs ys ≡ true → xs ≡ ys
unfolding eq_text
eq_text→eq [] [] e = refl
eq_text→eq [] (y ∷ ys) e = cc
eq_text→eq (x ∷ xs) [] e = cc
eq_text→eq (x ∷ xs) (y ∷ ys) e = ground (arith, eq_text→eq xs ys, ==_iff x y)

unfoldable pub has_text : List (List ℕ) → List ℕ → Bool
has_text [] t = false
has_text (x ∷ xs) t = eq_text x t || has_text xs t

unfoldable pub count_text : List ℕ → List (List ℕ) → ℕ
count_text t [] = 0
count_text t (x ∷ xs) = (if eq_text x t then 1 else 0) + count_text t xs

pub has_text-append :
    (xs ys : List (List ℕ)) (t : List ℕ) → has_text (xs ++ ys) t ≡ (has_text xs t || has_text ys t)
unfolding has_text
has_text-append [] ys t = refl
has_text-append (x ∷ xs) ys t = ground (arith, has_text-append xs ys t)

pub count_text-append :
    (t : List ℕ) (xs ys : List (List ℕ))
    → count_text t (xs ++ ys) ≡ count_text t xs + count_text t ys
unfolding count_text
count_text-append t [] ys = omega arith
count_text-append t (x ∷ xs) ys = omega (arith, count_text-append t xs ys)
