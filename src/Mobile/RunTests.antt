-- ===== src/Mobile/RunTests.antt =====
-- mobile/test.go at concrete inputs.
use nunya_core.Common.{◌≡◌, refl, true, false, none, some, [], ◌∷◌, List, ℕ, map, codes}
use nunya_core.Xray.Gate.{succeeds}
use nunya_core.Rpc.TestEnv
use nunya_core.Rpc.TestEnv.{TestRequest}
use nunya_core.Mobile.Instance.{App}
use nunya_core.Mobile.TestEnv.{box_start_fails, box_starts, prepare_test_env}
use nunya_core.Mobile.TestEnv.Same.{SameEnv, prepare_test_env_copies, created}
use nunya_core.Probe.UrlTest.{UrlTestResult}
use nunya_core.Mobile.UrlTest.{Call, start_url_test}
use nunya_core.Mobile.UrlTest.Started.{UrlTestPost, prepared, start_url_test-UrlTestPost}

abbrev xray_request : TestRequest
xray_request = record {
  current = false;
  need_xray = true;
  tags = codes "a" ∷ codes "b" ∷ [];
  use_default_outbound = false;
}

abbrev idle_app : App
idle_app = record { world = record { live = λ n. false; next = 4 }; protector = none }

prepare_test_env_copies_example :
    let m =
      prepare_test_env none false
        (some 7)
        xray_request
        succeeds
        (succeeds ∷ [])
        box_start_fails
        idle_app in
    SameEnv 5
      (m.0, m.1.world)
      (TestEnv.prepare_test_env xray_request none succeeds
        (succeeds ∷ [])
        (created box_start_fails)
        idle_app.world)
prepare_test_env_copies_example =
    prepare_test_env_copies 5 idle_app none (some 7) xray_request succeeds (succeeds ∷ [])
      box_start_fails false (λ e. cc) refl

abbrev answer_of : List ℕ → UrlTestResult
answer_of tag = record { duration = 12000000; tag = tag; error = none }

abbrev answers : List (List ℕ) → List UrlTestResult
answers tags = map answer_of tags

answers_tags : (tags : List (List ℕ)) → map (λ (x : UrlTestResult). x.tag) (answers tags) ≡ tags
answers_tags [] = refl
answers_tags (t ∷ tags) = λ i. t ∷ answers_tags tags i

-- The first tick drains a result of another test and one of this.
abbrev two_tags : Call
two_tags = record {
  current = none;
  platform = some 7;
  request = some xray_request;
  handler = true;
  sidecar = succeeds;
  full = [];
  box = box_starts (codes "a");
  ticks = (some (answer_of (codes "x")) ∷ none ∷ some (answer_of (codes "b")) ∷ []) ∷ [];
  last = [];
}

start_url_test-UrlTestPost_example :
    UrlTestPost answers 5
      (codes "b")
      two_tags
      idle_app.world
      (prepared two_tags two_tags.request two_tags.handler idle_app)
      (start_url_test answers two_tags idle_app)
start_url_test-UrlTestPost_example =
    start_url_test-UrlTestPost answers 5 (codes "b") two_tags idle_app answers_tags (λ e. cc)
