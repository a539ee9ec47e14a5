-- ===== src/Probe/Tunnels/Reached.antt =====
-- What the search for tunnels finds.
use nunya_core.Common.{
  some_cancel, contains, are_distinct, ℕ, zero, suc, ◌+◌, ◌≡◌, ◌↔◌, refl, subst, ◌∙◌, Bool, true,
  false, Option, none, some, List, [], ◌∷◌, ◌++◌, arith, Bool-cases, Option-cases, inl, inr,
  is_some, ==_iff, ==_refl,
}
use mathlib.Core.List.{reverse}
use nunya_core.Probe.Tunnels.{tunnel_loop, tunnel_endpoints}
use nunya_core.Probe.Tunnels.Fuel.{weight, tunnel_endpoints_ends}
use nunya_core.Probe.Tunnels.Search.{
  Leads, start, follow, Inv, grown, seen-Inv, missing-Inv, found-Inv,
}

module _ (outbound : ℕ → Option (List ℕ)) (endpoint : ℕ → Bool) (tag : ℕ) where
  module _ (fuel : ℕ) (visited pending tunnels : List ℕ) (t : ℕ) where
    abbrev pass : Option (List ℕ)
    pass = tunnel_loop outbound endpoint (suc fuel) visited (t ∷ pending) tunnels

    pass_seen :
        contains visited t ≡ true
        → tunnel_loop outbound endpoint fuel visited pending tunnels ≡ pass
    unfolding tunnel_loop
    pass_seen c = rw c refl

    pass_missing :
        contains visited t ≡ false
        → outbound t ≡ none
        → tunnel_loop outbound endpoint fuel (t ∷ visited) pending tunnels ≡ pass
    unfolding tunnel_loop
    pass_missing c o = rw (c, o) refl

    pass_found :
        (deps : List ℕ)
        → contains visited t ≡ false
        → outbound t ≡ some deps
        → tunnel_loop outbound endpoint fuel
            (t ∷ visited)
            (reverse deps ++ pending)
            (grown outbound endpoint tag tunnels t)
          ≡ pass
    unfolding tunnel_loop
    pass_found deps c o = rw (c, o) refl

  loop-Inv :
      (fuel : ℕ) (visited pending tunnels out : List ℕ)
      → tunnel_loop outbound endpoint fuel visited pending tunnels ≡ some out
      → Inv outbound endpoint tag visited pending tunnels
      → (all : List ℕ) × Inv outbound endpoint tag all [] out
  unfolding tunnel_loop
  loop-Inv zero visited pending tunnels out e i = cc
  loop-Inv (suc fuel) visited [] tunnels out e i =
      (visited, subst (λ (ts : List ℕ). Inv outbound endpoint tag visited [] ts) (some_cancel e) i)
  loop-Inv (suc fuel) visited (t ∷ pending) tunnels out e i =
      elim (Bool-cases (contains visited t)) [
        | inl c ↦
            loop-Inv fuel visited pending tunnels out
              (pass_seen fuel visited pending tunnels t c ∙ e)
              (seen-Inv outbound endpoint tag visited pending tunnels t c i)
        | inr c ↦ elim (Option-cases (outbound t)) [
          | inl o ↦
              loop-Inv fuel (t ∷ visited) pending tunnels out
                (pass_missing fuel visited pending tunnels t c o ∙ e)
                (missing-Inv outbound endpoint tag visited pending tunnels t o i)
          | inr (deps, o) ↦
              loop-Inv fuel (t ∷ visited) (reverse deps ++ pending)
                (grown outbound endpoint tag tunnels t) out
                (pass_found fuel visited pending tunnels t deps c o ∙ e)
                (found-Inv outbound endpoint tag visited pending tunnels deps t c o i)
        ]
      ]

  first-Inv : Inv outbound endpoint tag [] (tag ∷ []) []
  unfolding contains are_distinct
  first-Inv = record {
    rooted = ground (arith, ==_refl tag);
    closed = λ t u deps x y z. cc;
    led = λ t x. subst (Leads outbound endpoint tag) ((==_iff tag t).0 (ground arith)) start;
    found = λ t. refl;
    distinct = refl;
  }

  visits_all :
      (all tunnels : List ℕ) (t : ℕ)
      → Inv outbound endpoint tag all [] tunnels
      → Leads outbound endpoint tag t
      → contains all t ≡ true
  unfolding contains
  visits_all all tunnels t i start = ground (arith, i.rooted)
  visits_all all tunnels t i (follow {t = v} {deps = deps} l o c) =
      ground (arith, i.closed v t deps (visits_all all tunnels v i l) o c)

  -- If a finite list holds every tag that is found, the search returns, and an endpoint is in its
  -- result exactly if its tag is found and `tag` leads to it; none is there twice.
  pub tunnel_endpoints_reach :
      (tags : List ℕ)
      → ((t : ℕ) → is_some (outbound t) ≡ true → contains tags t ≡ true)
      → (tunnels : List ℕ) × (tunnel_endpoints outbound endpoint
            (2 + weight outbound endpoint [] tags)
            tag
          ≡ some tunnels)
        × (are_distinct tunnels ≡ true)
        × ((t : ℕ)
            → (contains tunnels t ≡ true)
              ↔ Leads outbound endpoint tag t × (is_some (outbound t) ≡ true) × (endpoint t ≡ true))
  unfolding tunnel_endpoints
  tunnel_endpoints_reach tags all_found =
      elim (Option-cases
        (tunnel_endpoints outbound endpoint (2 + weight outbound endpoint [] tags) tag)) [
          | inl o ↦
              absurd (ground (arith, tunnel_endpoints_ends outbound endpoint tags all_found tag))
          | inr (ts, o) ↦
              let (all, i) =
                loop-Inv (2 + weight outbound endpoint [] tags) [] (tag ∷ []) [] ts o first-Inv in
              (
                ts,
                o,
                i.distinct,
                λ t. (
                  λ c. (
                    i.led t (ground (arith, i.found t)),
                    ground (arith, i.found t),
                    ground (arith, i.found t),
                  ),
                  λ p. ground (arith, i.found t, visits_all all ts t i p.0, p.1),
                ),
              )
        ]
