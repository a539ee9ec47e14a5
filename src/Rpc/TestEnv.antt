-- ===== src/Rpc/TestEnv.antt =====
-- internal/rpc/testenv.go: prepareTestEnv and the cleanups of what it starts. The answers of the
-- calls are arguments: the running box, how the sidecar and the full configs come up, and the
-- default outbound's tag of the box that boxmain.Create makes, or none if it fails. A box whose Close
-- takes longer than the timeout of CloseWithTimeout goes on closing by itself, and counts as stopped.
pub mod Undone
use nunya_core.Common.{
  ℕ, ◌+◌, Bool, true, false, Option, none, some, List, [], ◌∷◌, ◌++◌, ◌==◌, if◌then◌else◌,
}
use nunya_core.Xray.Gate.{Bringup}
use nunya_core.Xray.Startup.{
  World, begin, stop_one, close_xray_instances, start_xray_instance, start_xray_full_configs,
}
use nunya_core.Common.{codes}

pub data Cleanup : Type 0 where
  close_instance close_box : ℕ → Cleanup
  close_instances : List ℕ → Cleanup

abbrev pub run_cleanup : Cleanup → World → World
run_cleanup (close_instance h) w = stop_one h w
run_cleanup (close_box h) w = stop_one h w
run_cleanup (close_instances hs) w = close_xray_instances hs w

-- The last cleanup runs first.
unfoldable pub unwind : List Cleanup → World → World
unwind [] w = w
unwind (c ∷ cleanups) w = run_cleanup c (unwind cleanups w)

pub record TestRequest : Type 0 where
  pub current : Bool
  pub need_xray : Bool
  pub tags : List (List ℕ)
  pub use_default_outbound : Bool

pub record Running : Type 0 where
  pub box : ℕ
  pub has_proxy : Bool  -- an outbound with the tag "proxy"
  pub default_tag : List ℕ

pub record TestEnv : Type 0 where
  pub box : ℕ
  pub tags : List (List ℕ)
  pub close : List Cleanup

-- `none` is an error.
abbrev pub current_env : TestRequest → Option Running → Option TestEnv
current_env req none = none
current_env req (some r) = some (record {
  box = r.box;
  tags =
      if r.has_proxy
      then (if req.use_default_outbound then r.default_tag else codes "proxy") ∷ []
      else r.default_tag ∷ [];
  close = [];
})

abbrev pub prepare_box :
    TestRequest → Option (List ℕ) → List Cleanup → World → Option TestEnv × World
prepare_box req none cleanups w = (none, unwind cleanups w)
prepare_box req (some default_tag) cleanups w = (
  some (record {
    box = w.next;
    tags = if req.use_default_outbound then default_tag ∷ [] else req.tags;
    close = cleanups ++ (close_box w.next ∷ []);
  }),
  begin w,
)

abbrev pub prepare_full :
    TestRequest → Option (List ℕ) → List Cleanup → Option (List ℕ) × World → Option TestEnv × World
prepare_full req box cleanups (none, w) = (none, unwind cleanups w)
prepare_full req box cleanups (some hs, w) =
    prepare_box req box (cleanups ++ (close_instances hs ∷ [])) w

abbrev pub prepare_sidecar :
    TestRequest → List Bringup → Option (List ℕ) → Option ℕ × World → Option TestEnv × World
prepare_sidecar req full box (none, w) = (none, unwind [] w)
prepare_sidecar req full box (some h, w) =
    prepare_full req box (close_instance h ∷ []) (start_xray_full_configs full w)

unfoldable pub prepare_test_env :
    TestRequest
    → Option Running
    → Bringup
    → List Bringup
    → Option (List ℕ)
    → World
    → Option TestEnv × World
unfolding unwind
prepare_test_env req running sidecar full box w =
    if req.current
    then (current_env req running, w)
    else if req.need_xray
    then prepare_sidecar req full box (start_xray_instance sidecar w)
    else prepare_full req box [] (start_xray_full_configs full w)
