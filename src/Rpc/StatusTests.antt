-- ===== src/Rpc/StatusTests.antt =====
-- internal/rpc at concrete inputs: connections, the egress mark, VPN endpoints.
use nunya_core.Common.{
  ◌&&◌, ℕ, ◌+◌, ◌≡◌, refl, true, false, not, ◌&&◌, Option, none, some, List, [], ◌∷◌, ◌⊎◌, ◌==◌,
  are_distinct, contains, length, map, arith, if◌then◌else◌,
}
use nunya_core.Common.{codes}
use nunya_core.Rpc.Connections.{closed_count, close_connections, asks_for, close_loop, drop_conn}
use nunya_core.Rpc.Connections.Closed.{close_connections_exact}
use nunya_core.Rpc.Vpn.{
  Report, connected, other, seen, updated, Watched, resolved, unresolved, Resolved, EndpointStatus,
  await_vpn_status, await_loop, status_to_proto, vpn_error_is_auth_failure, split_from,
}
use nunya_core.Rpc.Vpn.Segments.{join, join-split}
use nunya_core.Rpc.Vpn.Settled.{Ends, await_vpn_status-Ends}

-- 0 is no id.
abbrev parse : ℕ → Option ℕ
parse raw = if raw == 0 then none else some raw

close_connections_exact_example :
    (n : ℕ) × (left : List ℕ) × (close_connections parse
        (5 ∷ 0 ∷ 9 ∷ [])
        (some (some (4 ∷ 5 ∷ 6 ∷ [])))
      ≡ (closed_count n, some (some left)))
    × ((t : ℕ)
        → contains left t
          ≡ (contains (4 ∷ 5 ∷ 6 ∷ []) t && not (asks_for (map parse (5 ∷ 0 ∷ 9 ∷ [])) t)))
    × (n + length left ≡ 3)
unfolding are_distinct
close_connections_exact_example =
    close_connections_exact parse 5 (0 ∷ 9 ∷ []) (4 ∷ 5 ∷ 6 ∷ []) refl (omega arith)

one_closed :
    close_connections parse (5 ∷ 0 ∷ 9 ∷ []) (some (some (4 ∷ 5 ∷ 6 ∷ [])))
    ≡ (closed_count 1, some (some (4 ∷ 6 ∷ [])))
unfolding close_connections close_loop contains drop_conn
one_closed = refl

join-split_example :
    join (codes ": ") (split_from (codes ": ") 0 (codes "read: (authentication failed"))
    ≡ codes "read: (authentication failed"
join-split_example = join-split (codes ": ") (codes "read: (authentication failed") (omega arith)

auth_failed : vpn_error_is_auth_failure (codes "a | read: (authentication failed") ≡ true
unfolding vpn_error_is_auth_failure
auth_failed = refl

other_failure :
    vpn_error_is_auth_failure (codes "tls-crypt-v2 client key authentication failed") ≡ false
unfolding vpn_error_is_auth_failure
other_failure = refl

abbrev coming : Report
coming = record { state = other; error_text = []; tunnel_info = false; challenge = none }

abbrev up : Report
up = record { state = connected; error_text = []; tunnel_info = true; challenge = none }

abbrev watched : Watched
watched = record { now = coming; passes = seen coming updated ∷ seen up updated ∷ [] }

abbrev up_status : EndpointStatus
up_status = record {
  tag = 4;
  state = connected;
  error_text = [];
  connected_ = true;
  auth_failed = false;
  challenge = none;
}

await_vpn_status-Ends_example :
    ((true ≡ false) × (up_status ≡ status_to_proto 4 watched.now))
    ⊎ ((true ≡ true) × ((r : Report) × (up_status ≡ status_to_proto 4 r) × Ends 4 r watched.passes))
unfolding await_vpn_status await_loop status_to_proto
await_vpn_status-Ends_example = await_vpn_status-Ends true 4 watched up_status refl

abbrev resolve : ℕ → Resolved
resolve tag = if tag == 4 then resolved watched else unresolved (codes "endpoint not found: ")

abbrev missing_status : EndpointStatus
missing_status = record {
  tag = 5;
  state = other;
  error_text = codes "endpoint not found: ";
  connected_ = false;
  auth_failed = false;
  challenge = none;
}
