-- ===== src/Mobile/TestEnv.antt =====
-- mobile/test.go: prepareTestEnv, which its comment calls a copy of the one of internal/rpc. The
-- answers of the calls are arguments: the running instance, how the Xray side comes up and how far
-- the box gets. A box that is still closing after the timeout of closeBoxWithTimeout counts as
-- stopped.
pub mod Same
use nunya_core.Common.{
  ℕ, Bool, true, false, Option, none, some, List, [], ◌∷◌, ◌++◌, if◌then◌else◌, codes,
}
use nunya_core.Xray.Gate.{Bringup}
use nunya_core.Xray.Startup.{
  World, begin, stop_one, close_xray_instances, start_xray_instance, start_xray_full_configs,
}
use nunya_core.Rpc.TestEnv.{
  Cleanup, close_instance, close_box, close_instances, unwind, TestRequest, Running, TestEnv,
}
use nunya_core.Mobile.Instance.{App}

-- parseConfig, box.New and Start of the box; a started box has a default outbound.
pub data BoxAnswer : Type 0 where
  parse_fails new_fails box_start_fails : BoxAnswer
  box_starts : List ℕ → BoxAnswer

abbrev pub install_protector : Option ℕ → App → App
install_protector none app = app
install_protector (some platform) app = record app { protector = some platform }

-- The branch for `testCurrent`; `none` is an error.
abbrev pub current_env : TestRequest → Option Running → Option TestEnv
current_env req none = none
current_env req (some r) =
    let use_default_outbound = if r.has_proxy then req.use_default_outbound else true in
    let out_tags = if r.has_proxy then codes "proxy" ∷ [] else req.tags in
    some (record {
      box = r.box;
      tags = if use_default_outbound then r.default_tag ∷ [] else out_tags;
      close = [];
    })

abbrev pub prepare_box : TestRequest → BoxAnswer → List Cleanup → World → Option TestEnv × World
prepare_box req parse_fails cleanups w = (none, unwind cleanups w)
prepare_box req new_fails cleanups w = (none, unwind cleanups w)
prepare_box req box_start_fails cleanups w =
    (none, unwind (cleanups ++ (close_box w.next ∷ [])) (begin w))
prepare_box req (box_starts default_tag) cleanups w = (
  some (record {
    box = w.next;
    tags = if req.use_default_outbound then default_tag ∷ [] else req.tags;
    close = cleanups ++ (close_box w.next ∷ []);
  }),
  begin w,
)

abbrev pub prepare_full :
    TestRequest → BoxAnswer → List Cleanup → Option (List ℕ) × World → Option TestEnv × World
prepare_full req box cleanups (none, w) = (none, unwind cleanups w)
prepare_full req box cleanups (some hs, w) =
    prepare_box req box (cleanups ++ (close_instances hs ∷ [])) w

abbrev pub prepare_sidecar :
    TestRequest → List Bringup → BoxAnswer → Option ℕ × World → Option TestEnv × World
prepare_sidecar req full box (none, w) = (none, w)
prepare_sidecar req full box (some h, w) =
    prepare_full req box (close_instance h ∷ []) (start_xray_full_configs full w)

-- The rest of prepareTestEnv, after installProtector.
unfoldable pub prepare_own :
    TestRequest → Bringup → List Bringup → BoxAnswer → World → Option TestEnv × World
unfolding unwind
prepare_own req sidecar full box w =
    if req.need_xray
    then prepare_sidecar req full box (start_xray_instance sidecar w)
    else prepare_full req box [] (start_xray_full_configs full w)

unfoldable pub prepare_test_env :
    Option Running
    → Bool
    → Option ℕ
    → TestRequest
    → Bringup
    → List Bringup
    → BoxAnswer
    → App
    → Option TestEnv × App
unfolding prepare_own
prepare_test_env running test_current platform req sidecar full box app =
    let installed = install_protector platform app in
    let own = prepare_own req sidecar full box installed.world in
    if test_current
    then (current_env req running, app)
    else (own.0, record installed { world = own.1 })
