-- ===== src/Common/Sublists.antt =====
-- Lists that keep the order of another and leave some of it out.
use Prim.Native.Nat.{ℕ}
use mathlib.Core.List.{List, [], ◌∷◌, ◌++◌}

pub data Sublist : List ℕ → List ℕ → Type 0 where
  none_left : Sublist [] []
  kept : {xs ys : List ℕ} (x : ℕ) → Sublist xs ys → Sublist (x ∷ xs) (x ∷ ys)
  left_out : {xs ys : List ℕ} (x : ℕ) → Sublist xs ys → Sublist xs (x ∷ ys)

pub Sublist-refl : (xs : List ℕ) → Sublist xs xs
Sublist-refl [] = none_left
Sublist-refl (x ∷ xs) = kept x (Sublist-refl xs)

pub Sublist-nil : (xs : List ℕ) → Sublist [] xs
Sublist-nil [] = none_left
Sublist-nil (x ∷ xs) = left_out x (Sublist-nil xs)

pub Sublist-trans : {xs ys zs : List ℕ} → Sublist xs ys → Sublist ys zs → Sublist xs zs
Sublist-trans s none_left = s
Sublist-trans s (left_out x t) = left_out x (Sublist-trans s t)
Sublist-trans (kept x s) (kept y t) = kept y (Sublist-trans s t)
Sublist-trans (left_out x s) (kept y t) = left_out y (Sublist-trans s t)

pub Sublist-append :
    {xs ys us vs : List ℕ} → Sublist xs ys → Sublist us vs → Sublist (xs ++ us) (ys ++ vs)
Sublist-append none_left t = t
Sublist-append (kept x s) t = kept x (Sublist-append s t)
Sublist-append (left_out x s) t = left_out x (Sublist-append s t)
