-- ===== src/Rpc/Vpn.antt =====
-- internal/rpc/vpnstatus.go: the status of VPN endpoints and the answers to their challenges. A
-- state, an error text, a tag and a challenge's id are what they are in the source, as far as the
-- handlers look at them.
pub mod Settled
pub mod Segments
use nunya_core.Common.{
  ℕ, ◌+◌, ◌-◌, ◌≡◌, Bool, true, false, not, ◌&&◌, ◌||◌, Option, none, some, List, [], ◌∷◌, ◌++◌,
  ◌==◌, if◌then◌else◌, map, is_some, length, codes, is_prefix, eq_text, bind_option, zero, suc,
}

pub data EndpointState : Type 0 where
  connected error other : EndpointState

-- A status as openVPNStatusToProto and openConnectStatusToProto make it; `challenge` is an id.
pub record EndpointStatus : Type 0 where
  pub tag : ℕ
  pub state : EndpointState
  pub error_text : List ℕ
  pub connected_ : Bool
  pub auth_failed : Bool
  pub challenge : Option ℕ

-- What the endpoint reports: `tunnel_info` tells whether there is any.
pub record Report : Type 0 where
  pub state : EndpointState
  pub error_text : List ℕ
  pub tunnel_info : Bool
  pub challenge : Option ℕ

abbrev pub is_state_error : EndpointState → Bool
is_state_error error = true
is_state_error _ = false

abbrev pub is_state_connected : EndpointState → Bool
is_state_connected connected = true
is_state_connected _ = false

-- strings.Split by a separator that is not empty: the first segment and the others. `skip` counts
-- the characters of a separator that are still to be passed over.
unfoldable pub split_from : List ℕ → ℕ → List ℕ → List ℕ × List (List ℕ)
unfolding is_prefix
split_from separator skip [] = ([], [])
split_from separator (suc skip) (c ∷ text) = split_from separator skip text
split_from separator zero (c ∷ text) =
    let behind = split_from separator (length separator - 1) text in
    let within = split_from separator zero text in
    if is_prefix separator (c ∷ text) then ([], behind.0 ∷ behind.1) else (c ∷ within.0, within.1)

abbrev pub split : List ℕ → List ℕ → List (List ℕ)
split text separator = let r = split_from separator 0 text in r.0 ∷ r.1

-- strings.TrimLeft by "(".
unfoldable pub trim_left : List ℕ → List ℕ
trim_left [] = []
trim_left (c ∷ text) = let rest = trim_left text in if c == 40 then rest else c ∷ text

unfoldable pub any_segment : List (List ℕ) → Bool
unfolding trim_left eq_text
any_segment [] = false
any_segment (s ∷ segments) =
    eq_text (trim_left s) (codes "authentication failed") || any_segment segments

unfoldable pub any_joined : List (List ℕ) → Bool
unfolding any_segment split_from
any_joined [] = false
any_joined (j ∷ joined) = any_segment (split j (codes ": ")) || any_joined joined

unfoldable pub vpn_error_is_auth_failure : List ℕ → Bool
unfolding any_joined split_from
vpn_error_is_auth_failure text = any_joined (split text (codes " | "))

unfoldable pub status_to_proto : ℕ → Report → EndpointStatus
unfolding vpn_error_is_auth_failure
status_to_proto tag r = record {
  tag = tag;
  state = r.state;
  error_text = r.error_text;
  connected_ = is_state_connected r.state && r.tunnel_info;
  auth_failed = is_state_error r.state && vpn_error_is_auth_failure r.error_text;
  challenge = r.challenge;
}

unfoldable pub vpn_status_settled : EndpointStatus → Bool
vpn_status_settled s = s.connected_ || (is_state_error s.state || is_some s.challenge)

pub data Wake : Type 0 where
  updated deadline context_done : Wake

-- One pass of the loop: what the endpoint reports, and what the select after it takes.
pub data Pass : Type 0 where
  seen : Report → Wake → Pass

-- `none` still waits.
unfoldable pub await_loop : ℕ → List Pass → Option EndpointStatus
unfolding vpn_status_settled
await_loop tag [] = none
await_loop tag (seen r updated ∷ passes) =
    let status = status_to_proto tag r in
    let again = await_loop tag passes in if vpn_status_settled status then some status else again
await_loop tag (seen r deadline ∷ passes) = some (status_to_proto tag r)
await_loop tag (seen r context_done ∷ passes) = some (status_to_proto tag r)

-- An endpoint while awaitVPNStatus runs: its report at once, and the passes of the loop.
pub record Watched : Type 0 where
  pub now : Report
  pub passes : List Pass

-- `waits` is a timeout above 0.
unfoldable pub await_vpn_status : Bool → ℕ → Watched → Option EndpointStatus
unfolding await_loop
await_vpn_status waits tag w =
    if not waits then some (status_to_proto tag w.now) else await_loop tag w.passes

-- What resolveVPNEndpoint makes of a tag: an error text, or an endpoint.
pub data Resolved : Type 0 where
  unresolved : List ℕ → Resolved
  resolved : Watched → Resolved

abbrev pub status_of : Bool → ℕ → Resolved → Option EndpointStatus
status_of waits tag (unresolved text) = some (record {
  tag = tag;
  state = other;
  error_text = text;
  connected_ = false;
  auth_failed = false;
  challenge = none;
})
status_of waits tag (resolved w) = await_vpn_status waits tag w

-- Each slot of `out` has a goroutine of its own, and Wait waits for all.
unfoldable pub collect_vpn_status : (ℕ → Resolved) → List ℕ → Bool → Option (List EndpointStatus)
unfolding await_vpn_status
collect_vpn_status resolve [] waits = some []
collect_vpn_status resolve (tag ∷ tags) waits =
    let rest = collect_vpn_status resolve tags waits in
    bind_option (status_of waits tag (resolve tag))
      λ status. bind_option rest λ others. some (status ∷ others)

-- What lookupEndpoint finds; an OpenConnect client may have a challenge, with its id and whether it
-- is one for a browser.
pub data Endpoint : Type 0 where
  openvpn other_kind : Endpoint
  openconnect : Option (ℕ × Bool) → Endpoint

pub data Completion : Type 0 where
  complete_challenge complete_form cancel_challenge cancel_auth_challenge : ℕ → Completion

pub data ChallengeReply : Type 0 where
  accepted rejected not_found browser_unsupported not_a_client : ChallengeReply

abbrev pub vpn_challenge_result : Bool → ChallengeReply
vpn_challenge_result true = accepted
vpn_challenge_result false = rejected

abbrev pub is_browser_challenge : ℕ → Option (ℕ × Bool) → Bool
is_browser_challenge id none = false
is_browser_challenge id (some (c, browser)) = c == id && browser

-- The reply and the call that is made; `succeeds` is what that call returns.
unfoldable pub submit_vpn_challenge :
    Option Endpoint → ℕ → Bool → ChallengeReply × Option Completion
submit_vpn_challenge none id succeeds = (not_found, none)
submit_vpn_challenge (some openvpn) id succeeds =
    (vpn_challenge_result succeeds, some (complete_challenge id))
submit_vpn_challenge (some (openconnect challenge)) id succeeds =
    if is_browser_challenge id challenge
    then (browser_unsupported, none)
    else (vpn_challenge_result succeeds, some (complete_form id))
submit_vpn_challenge (some other_kind) id succeeds = (not_a_client, none)

unfoldable pub cancel_vpn_challenge :
    Option Endpoint → ℕ → Bool → ChallengeReply × Option Completion
cancel_vpn_challenge none id succeeds = (not_found, none)
cancel_vpn_challenge (some openvpn) id succeeds =
    (vpn_challenge_result succeeds, some (cancel_challenge id))
cancel_vpn_challenge (some (openconnect challenge)) id succeeds =
    (vpn_challenge_result succeeds, some (cancel_auth_challenge id))
cancel_vpn_challenge (some other_kind) id succeeds = (not_a_client, none)
