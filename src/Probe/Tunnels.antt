-- ===== src/Probe/Tunnels.antt =====
-- internal/probe/probe.go: tunnelEndpoints and what waits for the tunnels that it finds. A tag is a
-- number, of which only equality is used. The managers of sing-box are the arguments: `outbound` is
-- a found outbound's dependencies, and `endpoint` tells whether a tag names an endpoint.
pub mod Fuel
pub mod Reached
pub mod Search
use nunya_core.Common.{
  contains, ℕ, zero, suc, ◌+◌, Bool, true, false, not, ◌||◌, Option, none, some, List, [], ◌∷◌,
  ◌++◌, ◌==◌, if◌then◌else◌,
}
use mathlib.Core.List.{reverse}

module _ (outbound : ℕ → Option (List ℕ)) (endpoint : ℕ → Bool) where
  -- The `for` loop; the head of `pending` is the last element of the slice. `none` is fuel that
  -- ran out.
  unfoldable pub tunnel_loop : ℕ → List ℕ → List ℕ → List ℕ → Option (List ℕ)
  tunnel_loop zero visited pending tunnels = none
  tunnel_loop (suc fuel) visited [] tunnels = some tunnels
  tunnel_loop (suc fuel) visited (tag ∷ pending) tunnels =
      let seen = tunnel_loop fuel visited pending tunnels in
      let missing = tunnel_loop fuel (tag ∷ visited) pending tunnels in
      let found = λ (deps : List ℕ).
        tunnel_loop fuel (tag ∷ visited) (reverse deps ++ pending)
          (if endpoint tag then tunnels ++ (tag ∷ []) else tunnels) in
      if contains visited tag
      then seen
      else elim (outbound tag) [ none ↦ missing | some deps ↦ found deps ]

  unfoldable pub tunnel_endpoints : ℕ → ℕ → Option (List ℕ)
  tunnel_endpoints fuel tag = tunnel_loop fuel [] (tag ∷ []) []
