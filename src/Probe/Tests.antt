-- ===== src/Probe/Tests.antt =====
-- internal/probe at concrete inputs.
use nunya_core.Common.{
  ℕ, ◌+◌, ◌≡◌, ◌≤◌, ◌↔◌, refl, Bool, true, false, ◌||◌, Option, none, some, List, [], ◌∷◌, map,
  length, arith, contains, is_some, are_distinct, All, ◌==◌, if◌then◌else◌,
}
use nunya_core.Probe.Handshake.{
  seen, connected, other, updated, cancelled, no_handshake, handshake, is_up, Ready, await_tunnels,
  await_tunnels_iff, Tunnel,
}
use nunya_core.Probe.Tunnels.{tunnel_loop, tunnel_endpoints}
use nunya_core.Probe.Tunnels.Fuel.{weight}
use nunya_core.Probe.Tunnels.Search.{Leads}
use nunya_core.Probe.Tunnels.Reached.{tunnel_endpoints_reach}
use nunya_core.Probe.Dialer.{
  Dialer, Phase, Reach, new, more, dial_context, look, dial_succeeds, look_again, close, close_conn,
}
use nunya_core.Probe.Batch.{
  Batch, Entry, abort, begun, cancel, computed, collect, finish, finished, kept, keep, later,
  measured, missing, normalize_concurrency, at_least_zero, Concurrency, lookup, pass, publish,
  published, release, released, spawn, started, Worker, aborted, moved, store, batch_start,
  not_found,
}
use nunya_core.Probe.Batch
use nunya_core.Probe.Batch.Counted.{aborts, given_aborts}
use nunya_core.Probe.Batch.Stored.{keys}
use nunya_core.Probe.Batch.Results.{batch_results, result_tag}

abbrev two_tunnels : List Tunnel
two_tunnels = no_handshake ∷ handshake (seen other updated ∷ seen connected cancelled ∷ []) ∷ []

await_tunnels_iff_example : (await_tunnels two_tunnels ≡ is_up) ↔ All Ready two_tunnels
await_tunnels_iff_example = await_tunnels_iff two_tunnels

two_tunnels_up : await_tunnels two_tunnels ≡ is_up
unfolding await_tunnels
two_tunnels_up = refl

-- 0 depends on 1 and 2, both of which depend on 3; 1 and 3 are endpoints.
abbrev diamond : ℕ → Option (List ℕ)
diamond t =
    if t == 0
    then some (1 ∷ 2 ∷ [])
    else if t == 1
    then some (3 ∷ [])
    else if t == 2
    then some (3 ∷ [])
    else if t == 3
    then some []
    else none

abbrev ends : ℕ → Bool
ends t = t == 1 || t == 3

diamond_found : (t : ℕ) → is_some (diamond t) ≡ true → contains (0 ∷ 1 ∷ 2 ∷ 3 ∷ []) t ≡ true
unfolding contains
diamond_found t e = ground arith

tunnel_endpoints_reach_example :
    (tunnels : List ℕ) × (tunnel_endpoints diamond ends
        (2 + weight diamond ends [] (0 ∷ 1 ∷ 2 ∷ 3 ∷ []))
        0
      ≡ some tunnels)
    × (are_distinct tunnels ≡ true)
    × ((t : ℕ)
        → (contains tunnels t ≡ true)
          ↔ Leads diamond ends 0 t × (is_some (diamond t) ≡ true) × (ends t ≡ true))
tunnel_endpoints_reach_example =
    tunnel_endpoints_reach diamond ends 0 (0 ∷ 1 ∷ 2 ∷ 3 ∷ []) diamond_found

diamond_tunnels : tunnel_endpoints diamond ends 9 0 ≡ some (3 ∷ 1 ∷ [])
unfolding tunnel_endpoints tunnel_loop contains
diamond_tunnels = refl

-- A call gets a connection, the closer closes it, and a second call is refused.
abbrev closed_dialer : Dialer
closed_dialer = record {
  conns = [];
  closed = true;
  dials = Phase.refused ∷ Phase.returned 0 ∷ [];
  closing = [];
  live = λ n. if n == 0 then false else if n == 0 then true else false;
  next = 1;
}

closed_dialer-Reach : Reach closed_dialer
closed_dialer-Reach =
    more
      (more
        (more
          (more
            (more (more (more (more new dial_context) (look [] [] refl)) (dial_succeeds [] [] refl))
              (look_again [] 0 [] refl))
            dial_context)
          close)
        (close_conn [] 0 [] refl))
      (look [] (Phase.returned 0 ∷ []) refl)

-- The first tag is measured, then the batch is cancelled.
abbrev half_done : Batch
half_done = record {
  pending = [];
  passed = false;
  cancelled = true;
  workers = record { tag = 8; phase = finished } ∷ [];
  res_map =
      record { tag = 8; result = some (missing 8) }
      ∷ record { tag = 9; result = some (aborted 9) }
      ∷ [];
  aborted_tags = 1;
  given = some (missing 8) ∷ [];
  tokens = 0;
  wait = 0;
}

half_done-Reach : Batch.Reach 2 (8 ∷ 9 ∷ []) half_done
unfolding store
half_done-Reach =
    later
      (later
        (later
          (later
            (later
              (later
                (later
                  (later (later begun (pass 8 (9 ∷ []) refl refl refl))
                    (spawn 8 (9 ∷ []) refl refl (omega arith)))
                  (not_found [] 8 [] refl))
                (keep [] 8 (some (missing 8)) [] refl))
              cancel)
            (abort 9 [] 1 refl refl refl refl))
          (publish [] 8 (some (missing 8)) [] refl))
        (release [] 8 [] 0 refl refl))
      (finish [] 8 [] 0 refl refl)

batch_results_example :
    (map result_tag (collect half_done.res_map (8 ∷ 9 ∷ [])) ≡ 8 ∷ 9 ∷ [])
    × ((t : ℕ) → contains (8 ∷ 9 ∷ []) t ≡ true → is_some (lookup t half_done.res_map) ≡ true)
    × ((t : ℕ) → keys t half_done.res_map ≤ 1)
    × (half_done.tokens ≡ 0)
    × (length half_done.given + half_done.aborted_tags ≡ 2)
    × (half_done.cancelled ≡ false → half_done.aborted_tags ≡ 0)
    × (given_aborts half_done.given ≡ 0)
    × (aborts half_done.res_map ≤ half_done.aborted_tags)
batch_results_example = batch_results 2 (8 ∷ 9 ∷ []) half_done-Reach refl refl
