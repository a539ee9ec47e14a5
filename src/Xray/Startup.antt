-- ===== src/Xray/Startup.antt =====
-- The eager Xray instances of internal/rpc/xray.go and mobile/xray.go, which are the same code:
-- startXrayInstance, startXrayFullConfigs and closeXrayInstances. The world is what runs.
pub mod Opened
use nunya_core.Common.{
  ℕ, ◌+◌, Bool, true, false, Option, none, some, List, [], ◌∷◌, ◌++◌, ◌==◌, if◌then◌else◌, contains,
}
use nunya_core.Xray.Gate.{Bringup, create_fails, prepare_fails, start_fails, succeeds}

pub record World : Type 0 where
  pub live : ℕ → Bool
  pub next : ℕ  -- the next handle

abbrev pub begin : World → World
begin w = record { live = λ n. if n == w.next then true else w.live n; next = w.next + 1 }

abbrev pub stop_one : ℕ → World → World
stop_one h w = record w { live = λ n. if n == h then false else w.live n }

abbrev pub close_xray_instances : List ℕ → World → World
close_xray_instances hs w = record w { live = λ n. if contains hs n then false else w.live n }

-- `none` is an error.
unfoldable pub start_xray_instance : Bringup → World → Option ℕ × World
start_xray_instance create_fails w = (none, w)
start_xray_instance prepare_fails w = (none, stop_one w.next (begin w))
start_xray_instance start_fails w = (none, stop_one w.next (begin w))
start_xray_instance succeeds w = (some w.next, begin w)

-- The loop, with the instances so far.
unfoldable pub start_full_loop : List Bringup → List ℕ → World → Option (List ℕ) × World
start_full_loop [] instances w = (some instances, w)
start_full_loop (create_fails ∷ bs) instances w = (none, close_xray_instances instances w)
start_full_loop (prepare_fails ∷ bs) instances w =
    (none, close_xray_instances instances (stop_one w.next (begin w)))
start_full_loop (start_fails ∷ bs) instances w =
    (none, close_xray_instances instances (stop_one w.next (begin w)))
start_full_loop (succeeds ∷ bs) instances w =
    start_full_loop bs (instances ++ (w.next ∷ [])) (begin w)

unfoldable pub start_xray_full_configs : List Bringup → World → Option (List ℕ) × World
unfolding start_full_loop
start_xray_full_configs bs w = start_full_loop bs [] w
