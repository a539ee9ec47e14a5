-- ===== src/Probe/Handshake.antt =====
-- internal/probe/probe.go: what a test does about the tunnels that tunnelEndpoints found. A tunnel
-- is the kind of its endpoint; for one with a handshake, what `await` meets is a list of passes: a
-- snapshot of the state, and what the select after it takes. A handshake whose list ends
-- undecided still waits.
use nunya_core.Common.{
  ℕ, ◌+◌, ◌*◌, ◌≡◌, ◌↔◌, refl, ap, ◌∙◌, Bool, true, false, not, Option, none, some, List, [], ◌∷◌,
  ◌++◌, if◌then◌else◌, arith, All,
}

pub data TunnelState : Type 0 where
  connected auth_pending : TunnelState
  error : ℕ → TunnelState  -- the failure's text
  other : TunnelState

pub data Wake : Type 0 where
  updated cancelled : Wake

pub data Pass : Type 0 where
  seen : TunnelState → Wake → Pass

pub data HandshakeError : Type 0 where
  tunnel_failed : ℕ → HandshakeError
  waiting_for_authentication context_done : HandshakeError

pub data Awaited : Type 0 where
  is_up still_waiting : Awaited
  refused : HandshakeError → Awaited

-- The cases of the switch; `none` goes on to the select.
abbrev pub decide : TunnelState → Option Awaited
decide connected = some is_up
decide (error text) = some (refused (tunnel_failed text))
decide auth_pending = some (refused waiting_for_authentication)
decide other = none

unfoldable pub await : List Pass → Awaited
await [] = still_waiting
await (seen state wake ∷ passes) =
    let again = await passes in
    elim (decide state) [
      | some r ↦ r
      | none ↦ elim wake [ updated ↦ again | cancelled ↦ refused context_done ]
    ]

-- A tunnel as awaitTunnels sees it: handshakeOf is nil for all but two types of endpoint.
pub data Tunnel : Type 0 where
  no_handshake : Tunnel
  handshake : List Pass → Tunnel

unfoldable pub await_tunnels : List Tunnel → Awaited
unfolding await
await_tunnels [] = is_up
await_tunnels (no_handshake ∷ tunnels) = await_tunnels tunnels
await_tunnels (handshake passes ∷ tunnels) =
    let rest = await_tunnels tunnels in
    elim (await passes) [ is_up ↦ rest | still_waiting ↦ still_waiting | refused e ↦ refused e ]

abbrev pub tunnel_startup_timeout : ℕ
tunnel_startup_timeout = 5 * 1000000000

unfoldable pub lacks_handshake : List Tunnel → Bool
lacks_handshake [] = false
lacks_handshake (no_handshake ∷ tunnels) = true
lacks_handshake (handshake passes ∷ tunnels) = lacks_handshake tunnels

unfoldable pub first_request_timeout : List Tunnel → Bool → ℕ → ℕ
unfolding lacks_handshake
first_request_timeout tunnels cold timeout =
    if not cold
    then timeout
    else if lacks_handshake tunnels
    then timeout + tunnel_startup_timeout
    else timeout

-- A tunnel that is up: its passes are undecided and woken by a change, until one that is connected.
abbrev pub Connects : List Pass → Type 0
Connects passes =
    (before : List Pass) × (wake : Wake) × (rest : List Pass) × (passes
      ≡ before ++ (seen connected wake ∷ rest))
    × All (λ q. q ≡ seen other updated) before

abbrev pub Ready : Tunnel → Type 0
Ready no_handshake = Unit {0}
Ready (handshake passes) = Connects passes

await-Connects : (passes : List Pass) → await passes ≡ is_up → Connects passes
unfolding await
await-Connects [] e = cc
await-Connects (seen connected w ∷ passes) e = ([], w, passes, refl, tt)
await-Connects (seen auth_pending w ∷ passes) e = cc
await-Connects (seen (error t) w ∷ passes) e = cc
await-Connects (seen other cancelled ∷ passes) e = cc
await-Connects (seen other updated ∷ passes) e =
    let (before, w, rest, same, waits) = await-Connects passes e in
    (seen other updated ∷ before, w, rest, ap (◌∷◌ (seen other updated)) same, (refl, waits))

Connects-await :
    (before : List Pass) (w : Wake) (rest : List Pass)
    → All (λ q. q ≡ seen other updated) before
    → await (before ++ (seen connected w ∷ rest)) ≡ is_up
unfolding await
Connects-await [] w rest h = refl
Connects-await (q ∷ before) w rest h = rw (h.0) (Connects-await before w rest h.1)

goes_on :
    (passes : List Pass) (tunnels : List Tunnel)
    → (await_tunnels (handshake passes ∷ tunnels) ≡ is_up)
      ↔ ((await passes ≡ is_up) × (await_tunnels tunnels ≡ is_up))
unfolding await_tunnels
goes_on passes tunnels = ground arith

-- awaitTunnels succeeds exactly if each tunnel with a handshake connects while it is awaited: some
-- passes that see no decisive state and are woken by a change, and then one that sees it connected.
pub await_tunnels_iff :
    (tunnels : List Tunnel) → (await_tunnels tunnels ≡ is_up) ↔ All Ready tunnels
unfolding await_tunnels
await_tunnels_iff [] = (λ e. tt, λ h. refl)
await_tunnels_iff (no_handshake ∷ tunnels) =
    (λ e. (tt, (await_tunnels_iff tunnels).0 e), λ h. (await_tunnels_iff tunnels).1 h.1)
await_tunnels_iff (handshake passes ∷ tunnels) = (
  λ e.
      let (up, rest) = (goes_on passes tunnels).0 e in
      (await-Connects passes up, (await_tunnels_iff tunnels).0 rest),
  λ h.
      let (before, w, rest, same, waits) = h.0 in
      (goes_on passes tunnels).1
        (ap await same ∙ Connects-await before w rest waits, (await_tunnels_iff tunnels).1 h.1),
)
