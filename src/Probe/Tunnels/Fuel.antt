-- ===== src/Probe/Tunnels/Fuel.antt =====
-- The search for tunnels ends: each pass takes one tag off, and an outbound adds its dependencies
-- once.
use nunya_core.Common.{
  contains, ℕ, zero, suc, ◌+◌, ◌≤◌, ◌<◌, ◌≡◌, refl, ap, Bool, true, false, Option, none, some, List,
  [], ◌∷◌, ◌++◌, ◌==◌, if◌then◌else◌, arith, length, length-append, Bool-cases, Option-cases, inl,
  inr, subst, sym, ==_iff, ==_refl, is_some,
}
use mathlib.Core.List.{reverse, reverse-cons}
use nunya_core.Probe.Tunnels.{tunnel_loop, tunnel_endpoints}

length-reverse : (xs : List ℕ) → length (reverse xs) ≡ length xs
length-reverse [] = refl
length-reverse (x ∷ xs) =
    omega
      (arith, ap length (reverse-cons x xs), length-append (reverse xs) (x ∷ []), length-reverse xs)

module _ (outbound : ℕ → Option (List ℕ)) (endpoint : ℕ → Bool) where
  abbrev dependencies : Option (List ℕ) → ℕ
  dependencies none = 0
  dependencies (some deps) = length deps

  -- What the tags of a list may still add to `pending`.
  unfoldable pub weight : List ℕ → List ℕ → ℕ
  weight visited [] = 0
  weight visited (t ∷ tags) =
      (if contains visited t then 0 else dependencies (outbound t)) + weight visited tags

  weight_cons_le : (visited tags : List ℕ) (t : ℕ) → weight (t ∷ visited) tags ≤ weight visited tags
  unfolding weight contains
  weight_cons_le visited [] t = omega arith
  weight_cons_le visited (u ∷ tags) t = ground (arith, weight_cons_le visited tags t)

  weight_visit :
      (visited tags : List ℕ) (t : ℕ)
      → contains visited t ≡ false
      → contains tags t ≡ true
      → weight (t ∷ visited) tags + dependencies (outbound t) ≤ weight visited tags
  unfolding weight contains
  weight_visit visited [] t f c = cc
  weight_visit visited (u ∷ tags) t f c = elim (Bool-cases (u == t)) [
    | inl e ↦
        subst
          (λ (v : ℕ).
            weight (t ∷ visited) (v ∷ tags) + dependencies (outbound t) ≤ weight visited (v ∷ tags))
          (sym ((==_iff u t).0 e)) (ground (arith, weight_cons_le visited tags t, ==_refl t))
    | inr e ↦ ground (arith, weight_visit visited tags t f)
  ]

  -- `tags` holds every tag that is found.
  module _ (tags : List ℕ)
      (all_found : (t : ℕ) → is_some (outbound t) ≡ true → contains tags t ≡ true) where
    loop_enough :
        (fuel : ℕ) (visited pending tunnels : List ℕ)
        → length pending + weight visited tags < fuel
        → is_some (tunnel_loop outbound endpoint fuel visited pending tunnels) ≡ true
    unfolding tunnel_loop
    loop_enough zero visited pending tunnels h = absurd (omega arith)
    loop_enough (suc fuel) visited [] tunnels h = refl
    loop_enough (suc fuel) visited (t ∷ pending) tunnels h =
        elim (Bool-cases (contains visited t)) [
          | inl c ↦ rw c (loop_enough fuel visited pending tunnels (omega arith))
          | inr c ↦ elim (Option-cases (outbound t)) [
            | inl o ↦
                rw (c, o)
                  (loop_enough fuel (t ∷ visited) pending tunnels
                    (omega (arith, weight_cons_le visited tags t)))
            | inr (deps, o) ↦
                rw (c, o)
                  (loop_enough fuel (t ∷ visited) (reverse deps ++ pending)
                    (if endpoint t then tunnels ++ (t ∷ []) else tunnels)
                    (omega (
                      arith,
                      length-append (reverse deps) pending,
                      length-reverse deps,
                      weight_visit visited tags t c (all_found t (ap is_some o)),
                      ap dependencies o,
                    )))
          ]
        ]

    -- If a finite list holds every tag that is found, some fuel lets the search end.
    pub tunnel_endpoints_ends :
        (tag : ℕ) → is_some (tunnel_endpoints outbound endpoint (2 + weight [] tags) tag) ≡ true
    unfolding tunnel_endpoints
    tunnel_endpoints_ends tag = loop_enough (2 + weight [] tags) [] (tag ∷ []) [] (omega arith)
