-- ===== src/Rpc/Dashboard/Inside.antt =====
-- A path that is written lies below the directory.
use nunya_core.Common.{
  ℕ, zero, suc, ◌≡◌, refl, false, ◌||◌, Option, none, some, List, [], ◌∷◌, codes, eq_text, All,
  All-append, Bool-cases, inl, inr, arith, subst, sym,
}
use mathlib.Core.List.{reverse, reverse-cons}
use nunya_core.Rpc.Dashboard.{
  Kind, up, stay, plain, kind_of, clean_step, clean, all_empty, if_local, local_path,
}

-- A name that neither is empty nor goes up or stays.
abbrev pub IsName : List ℕ → Type 0
IsName e = (eq_text e [] || eq_text e (codes ".") || eq_text e (codes "..")) ≡ false

All-reverse : (names : List (List ℕ)) → All IsName names → All IsName (reverse names)
All-reverse [] h = h
All-reverse (n ∷ names) h =
    subst (All IsName) (sym (reverse-cons n names))
      (All-append IsName (reverse names) (n ∷ []) (All-reverse names h.1) (h.0, tt))

kind-IsName : (e : List ℕ) → kind_of e ≡ plain → IsName e
kind-IsName e k = ground (arith, k)

step-IsName :
    (e : List ℕ) (k : Kind) (r : ℕ × List (List ℕ))
    → (k ≡ plain → IsName e)
    → All IsName r.1
    → All IsName (clean_step e k r).1
step-IsName e stay (ups, names) p h = h
step-IsName e plain (ups, names) p h = (p refl, h)
step-IsName e up (ups, []) p h = tt
step-IsName e up (ups, name ∷ names) p h = h.1

clean-IsName :
    (r : ℕ × List (List ℕ)) (elements : List (List ℕ))
    → All IsName r.1
    → All IsName (clean r elements).1
unfolding clean
clean-IsName r [] h = h
clean-IsName r (e ∷ elements) h =
    clean-IsName (clean_step e (kind_of e) r) elements
      (step-IsName e (kind_of e) r (kind-IsName e) h)

abbrev pub PathPost : Option (List (List ℕ)) → Type 0
PathPost none = Unit
PathPost (some path) = All IsName path

local-PathPost : (r : ℕ × List (List ℕ)) → All IsName r.1 → PathPost (if_local r)
local-PathPost (zero, names) h = All-reverse names h
local-PathPost (suc ups, names) h = tt

pub local_path-PathPost : (elements : List (List ℕ)) → PathPost (local_path elements)
unfolding local_path
local_path-PathPost elements = elim (Bool-cases (all_empty elements)) [
  | inl e ↦ rw e tt
  | inr e ↦ rw e (local-PathPost (clean (0, []) elements) (clean-IsName (0, []) elements tt))
]
