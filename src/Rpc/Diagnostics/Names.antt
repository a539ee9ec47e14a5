-- ===== src/Rpc/Diagnostics/Names.antt =====
-- No attachment leaves its folder in the archive.
use nunya_core.Common.{
  ℕ, ◌≡◌, ◌∙◌, ap, refl, Bool, true, false, not, ◌&&◌, ◌||◌, List, [], ◌∷◌, arith, contains,
  eq_text, codes, ◌==◌, Bool-cases, inl, inr,
}
use nunya_core.Rpc.Diagnostics.{
  slashed, or_slash, strip_slashes, last_element, or_root, base_name, usable, attachment_name,
}

abbrev pub is_base : List ℕ → Bool
is_base b =
    not (contains b 47)
    && (not (contains b 92)
        && not (eq_text b [] || (eq_text b (codes ".") || eq_text b (codes ".."))))

last_no_slash : (text : List ℕ) → contains (last_element text) 47 ≡ false
unfolding last_element contains
last_no_slash [] = refl
last_no_slash (c ∷ text) = ground (arith, last_no_slash text)

last_no : (text : List ℕ) (d : ℕ) → contains text d ≡ false → contains (last_element text) d ≡ false
unfolding last_element contains
last_no [] d h = refl
last_no (c ∷ text) d h = ground (arith, last_no text d)

strip_no :
    (text : List ℕ) (d : ℕ) → contains text d ≡ false → contains (strip_slashes text) d ≡ false
unfolding strip_slashes contains
strip_no [] d h = refl
strip_no (c ∷ text) d h =
    or_no (strip_slashes text) (ground (arith, h)) (strip_no text d (ground (arith, h)))
  where
    or_no :
        (rest : List ℕ)
        → (c == d) ≡ false
        → contains rest d ≡ false
        → contains (or_slash c rest) d ≡ false
    or_no [] e k = ground arith
    or_no (x ∷ rest) e k = ground arith

slashed_no : (text : List ℕ) → contains (slashed text) 92 ≡ false
unfolding contains
slashed_no [] = refl
slashed_no (c ∷ text) = ground (arith, slashed_no text)

-- A name that is not the root has no slash of either kind.
root_no :
    (l : List ℕ)
    → contains l 47 ≡ false
    → contains l 92 ≡ false
    → eq_text (or_root l) (codes "/") ≡ false
    → (contains (or_root l) 47 ≡ false) × (contains (or_root l) 92 ≡ false)
unfolding eq_text
root_no [] a b e = cc
root_no (c ∷ l) a b e = (a, b)

base_no :
    (x : List ℕ)
    → contains x 92 ≡ false
    → eq_text (base_name x) (codes "/") ≡ false
    → (contains (base_name x) 47 ≡ false) × (contains (base_name x) 92 ≡ false)
unfolding contains
base_no [] h e = (refl, refl)
base_no (c ∷ x) h e =
    let l = strip_slashes (c ∷ x) in
    root_no (last_element l) (last_no_slash l) (last_no l 92 (strip_no (c ∷ x) 92 h)) e

no_name : eq_text [] [] ≡ false → ⊥
unfolding eq_text
no_name e = cc

usable_base :
    (b : List ℕ)
    → (eq_text b (codes "/") ≡ false → (contains b 47 ≡ false) × (contains b 92 ≡ false))
    → eq_text (usable b) [] ≡ false
    → is_base (usable b) ≡ true
usable_base b f h =
    elim (Bool-cases (eq_text b (codes ".") || (eq_text b (codes "..") || eq_text b (codes "/")))) [
      | inl e ↦ absurd (no_name (simp e at h))
      | inr e ↦ let ok = f (ground (arith, e)) in simp e (ground (arith, e, ok, simp e at h))
    ]

pub attachment_name_base :
    (name : List ℕ)
    → eq_text (attachment_name name) [] ≡ false
    → is_base (attachment_name name) ≡ true
unfolding attachment_name
attachment_name_base name h =
    usable_base (base_name (slashed name)) (base_no (slashed name) (slashed_no name)) h

slashed_same : (text : List ℕ) → contains text 92 ≡ false → slashed text ≡ text
unfolding contains
slashed_same [] h = refl
slashed_same (c ∷ text) h = ground (arith, slashed_same text)

or_slash_same : (c : ℕ) (text : List ℕ) → (c == 47) ≡ false → or_slash c text ≡ c ∷ text
or_slash_same c [] h = simp h refl
or_slash_same c (d ∷ text) h = refl

strip_same : (text : List ℕ) → contains text 47 ≡ false → strip_slashes text ≡ text
unfolding strip_slashes contains
strip_same [] h = refl
strip_same (c ∷ text) h =
    ap (or_slash c) (strip_same text (ground (arith, h))) ∙ or_slash_same c text (ground (arith, h))

last_same : (text : List ℕ) → contains text 47 ≡ false → last_element text ≡ text
unfolding last_element contains
last_same [] h = refl
last_same (c ∷ text) h = ground arith

-- A name that is fit for a file is kept.
pub attachment_name-own : (name : List ℕ) → is_base name ≡ true → attachment_name name ≡ name
unfolding attachment_name contains eq_text
attachment_name-own [] h = refl
attachment_name-own (c ∷ name) h =
    ap (λ (x : List ℕ). usable (base_name x)) (slashed_same (c ∷ name) (ground (arith, h)))
    ∙ ap (λ (x : List ℕ). usable (or_root (last_element x)))
        (strip_same (c ∷ name) (ground (arith, h)))
    ∙ ap (λ (x : List ℕ). usable (or_root x)) (last_same (c ∷ name) (ground (arith, h)))
    ∙ ground (arith, h)
