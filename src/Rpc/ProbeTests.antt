-- ===== src/Rpc/ProbeTests.antt =====
-- The test handlers of internal/rpc at concrete inputs.
use nunya_core.Common.{
  ◌≡◌, refl, Bool, zero, suc, true, false, none, some, [], ◌∷◌, List, ℕ, map, codes,
}
use nunya_core.Xray.Gate.{succeeds}
use nunya_core.Xray.Startup.{World}
use nunya_core.Probe.UrlTest.{UrlTestResult, run_url_test, responds, not_answered}
use nunya_core.Rpc.TestEnv.{TestRequest, prepare_test_env}
use nunya_core.Probe.SpeedTest.{Run, ended, new_result}
use nunya_core.Rpc.SpeedTest.{SpeedTestRequest, speed_test}
use nunya_core.Rpc.SpeedTest.Answered.{SpeedPost, speed_test-SpeedPost}
use nunya_core.Rpc.Diagnostics.{Profilers, Answers, Request}
use nunya_core.Rpc.UrlTest.{test}
use nunya_core.Rpc.UrlTest.Answered.{TestPost, test-TestPost}

abbrev two_tags : TestRequest
two_tags = record {
  current = false;
  need_xray = true;
  tags = codes "a" ∷ codes "b" ∷ [];
  use_default_outbound = false;
}

abbrev nothing_runs : World
nothing_runs = record { live = λ n. false; next = 2 }

-- The second request fails.
abbrev one_fails : List ℕ → UrlTestResult
one_fails tag = run_url_test tag true none (responds 5000000) (not_answered (codes "timeout"))

one_fails-tags :
    (tags : List (List ℕ)) → map (λ (x : UrlTestResult). x.tag) (map one_fails tags) ≡ tags
unfolding run_url_test
one_fails-tags [] = refl
one_fails-tags (t ∷ tags) = λ i. t ∷ one_fails-tags tags i

test-TestPost_example :
    TestPost
      (map one_fails)
      (λ (tags : List (List ℕ)). tags)
      3
      (codes "b" ∷ [])
      (codes "b")
      two_tags
      nothing_runs
      (prepare_test_env two_tags none succeeds (succeeds ∷ []) (some (codes "a")) nothing_runs)
      (test
        (map one_fails)
        (λ (tags : List (List ℕ)). tags)
        (codes "b" ∷ [])
        two_tags
        none
        succeeds
        (succeeds ∷ [])
        (some (codes "a"))
        nothing_runs)
test-TestPost_example =
    test-TestPost (map one_fails) (λ (tags : List (List ℕ)). tags) 3 (codes "b" ∷ []) (codes "b")
      two_tags none succeeds (succeeds ∷ []) (some (codes "a")) nothing_runs one_fails-tags
      (λ e. cc)

abbrev download_request : SpeedTestRequest
download_request = record {
  env = two_tags;
  kind = record { test_dl = true; test_ul = false; simple_dl = false };
  only_country = false;
}

-- The context is done before the second tag.
abbrev done_after_one : ℕ → Bool
done_after_one i = elim i [ zero ↦ false | suc j ↦ true ]

abbrev ended_run : ℕ → Run
ended_run i = ended (codes "8 Mbps") (codes "0 bps") none

speed_test-SpeedPost_example :
    SpeedPost
      (map new_result)
      (λ tag. true)
      done_after_one
      ended_run
      3
      download_request
      nothing_runs
      (prepare_test_env two_tags none succeeds (succeeds ∷ []) (some (codes "a")) nothing_runs)
      (speed_test
        (map new_result)
        (λ tag. true)
        done_after_one
        ended_run
        download_request
        none
        succeeds
        (succeeds ∷ [])
        (some (codes "a"))
        nothing_runs)
speed_test-SpeedPost_example =
    speed_test-SpeedPost (map new_result) (λ tag. true) done_after_one ended_run 3 download_request
      none succeeds (succeeds ∷ []) (some (codes "a")) nothing_runs (λ e. cc)

abbrev quiet : Profilers
quiet = record {
  mutex_fraction = 0;
  block_rate = 0;
  cpu = false;
  tracing = false;
  locked = false;
  stop = none;
}

abbrev trace_fails : Answers
trace_fails = record {
  trace_starts = true;
  cpu_starts = true;
  early_panics = false;
  start_panics = false;
  cpu_panics = true;
  trace_panics = false;
}

abbrev full_capture : Request
full_capture = record {
  duration_ms = 90000;
  contention = true;
  trace = true;
  attachments = record { name = codes "a/../../etc/passwd"; size = 3 } ∷ [];
}
