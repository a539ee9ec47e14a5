-- ===== src/Rpc/Vpn/Segments.antt =====
-- The segments of an error text.
use nunya_core.Common.{
  ℕ, zero, suc, ◌-◌, ◌≡◌, ◌<◌, refl, ap, ◌∙◌, true, List, [], ◌∷◌, ◌++◌, length, drop, arith,
  Bool-cases, inl, inr, ==_iff,
}
use nunya_core.Common.{is_prefix}
use nunya_core.Rpc.Vpn.{split_from}

-- strings.Join
pub join : List ℕ → List ℕ × List (List ℕ) → List ℕ
join separator (s, []) = s
join separator (s, t ∷ rest) = s ++ (separator ++ join separator (t, rest))

prefix_drop : (xs ys : List ℕ) → is_prefix xs ys ≡ true → xs ++ drop (length xs) ys ≡ ys
unfolding is_prefix
prefix_drop [] ys e = refl
prefix_drop (x ∷ xs) [] e = cc
prefix_drop (x ∷ xs) (y ∷ ys) e =
    ap (λ (z : ℕ). z ∷ (xs ++ drop (length xs) ys)) ((==_iff x y).0 (ground arith))
    ∙ ap (◌∷◌ y) (prefix_drop xs ys (ground arith))

join_within :
    (separator : List ℕ) (c : ℕ) (p : List ℕ × List (List ℕ))
    → join separator (c ∷ p.0, p.1) ≡ c ∷ join separator p
unfolding join
join_within separator c (s, []) = refl
join_within separator c (s, t ∷ rest) = refl

one_less : (n : ℕ) → suc n - 1 ≡ n
one_less n = omega arith

join-split_from :
    (x : ℕ) (xs : List ℕ) (skip : ℕ) (text : List ℕ)
    → join (x ∷ xs) (split_from (x ∷ xs) skip text) ≡ drop skip text
unfolding join split_from
join-split_from x xs zero [] = refl
join-split_from x xs (suc skip) [] = refl
join-split_from x xs (suc skip) (c ∷ text) = join-split_from x xs skip text
join-split_from x xs zero (c ∷ text) = elim (Bool-cases (is_prefix (x ∷ xs) (c ∷ text))) [
  | inl e ↦ rw e (
      ap (λ (r : List ℕ). (x ∷ xs) ++ r)
        (join-split_from x xs (suc (length xs) - 1) text
          ∙ ap (λ (k : ℕ). drop k text) (one_less (length xs)))
      ∙ prefix_drop (x ∷ xs) (c ∷ text) e)
  | inr e ↦ rw e (
      join_within (x ∷ xs) c (split_from (x ∷ xs) zero text)
      ∙ ap (◌∷◌ c) (join-split_from x xs zero text))
]

-- The segments of a text by a separator that is not empty, joined by that separator, are the text.
pub join-split :
    (separator text : List ℕ)
    → (0 < length separator)
    → join separator (split_from separator 0 text) ≡ text
join-split [] text h = absurd (omega arith)
join-split (x ∷ xs) text h = join-split_from x xs zero text
