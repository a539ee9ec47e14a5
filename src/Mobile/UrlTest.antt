-- ===== src/Mobile/UrlTest.antt =====
-- mobile/test.go: urlTestReporter and StartURLTest. What the package's buffer hands out at each tick
-- and the results of the batch are arguments; a result may be nil. An error is its text.
pub mod Reported
pub mod Started
use nunya_core.Common.{
  ℕ, ◌%◌, ◌/◌, ◌^◌, Bool, true, false, not, ◌&&◌, ◌||◌, Option, none, some, List, [], ◌∷◌, ◌++◌,
  if◌then◌else◌, has_text, map,
}
use nunya_core.Probe.UrlTest.{UrlTestResult, error_string, latency_ms}
use nunya_core.Xray.Gate.{Bringup}
use nunya_core.Rpc.TestEnv.{unwind, TestRequest, Running, TestEnv}
use nunya_core.Mobile.Instance.{App}
use nunya_core.Mobile.TestEnv.{BoxAnswer, prepare_test_env}

-- A call of OnResult; the latency is an int32, by its bits.
pub record Report : Type 0 where
  pub tag : List ℕ
  pub latency : ℕ
  pub error : List ℕ

-- With the handler's calls so far.
pub record UrlTestReporter : Type 0 where
  pub tags : List (List ℕ)
  pub reported : List (List ℕ)
  pub calls : List Report

abbrev pub new_url_test_reporter : List (List ℕ) → UrlTestReporter
new_url_test_reporter tags = record { tags = tags; reported = []; calls = [] }

abbrev pub report_of : UrlTestResult → Report
report_of x = record { tag = x.tag; latency = latency_ms x.duration; error = error_string x.error }

unfoldable pub report : Option UrlTestResult → UrlTestReporter → UrlTestReporter
report none r = r
report (some x) r =
    if not (has_text r.tags x.tag) then r else if has_text r.reported x.tag then r else record {
      tags = r.tags;
      reported = x.tag ∷ r.reported;
      calls = r.calls ++ (report_of x ∷ []);
    }

-- The loops over the results, in drain and at the end of run.
unfoldable pub report_all : List (Option UrlTestResult) → UrlTestReporter → UrlTestReporter
unfolding report
report_all [] r = r
report_all (x ∷ xs) r = report_all xs (report x r)

-- The goroutine: what the buffer holds at each tick before `stop`.
unfoldable pub run_ticks : List (List (Option UrlTestResult)) → UrlTestReporter → UrlTestReporter
unfolding report_all
run_ticks [] r = r
run_ticks (drained ∷ ticks) r = run_ticks ticks (report_all drained r)

-- The rest of run waits for the goroutine.
unfoldable pub run :
    List (List (Option UrlTestResult))
    → List (Option UrlTestResult)
    → List UrlTestResult
    → UrlTestReporter
    → UrlTestReporter
unfolding run_ticks
run ticks last results r = report_all (map some results) (report_all last (run_ticks ticks r))

-- What the handler and the environment see, in order.
pub data Event : Type 0 where
  on_result : Report → Event
  env_closed on_done : Event

-- The environment of a call: what it is given and what the calls answer.
pub record Call : Type 0 where
  pub current : Option Running
  pub platform : Option ℕ
  pub request : Option TestRequest
  pub handler : Bool
  pub sidecar : Bringup
  pub full : List Bringup
  pub box : BoxAnswer
  pub ticks : List (List (Option UrlTestResult))
  pub last : List (Option UrlTestResult)

-- Whether StartURLTest returned nil, the events until its goroutine ends, and the process then.
pub record Done : Type 0 where
  pub accepted : Bool
  pub events : List Event
  pub app : App

-- `batch` is BatchURLTest for the tags of the environment.
module _ (batch : List (List ℕ) → List UrlTestResult) where
  abbrev pub url_test_goroutine : Call → Option TestEnv × App → Done
  url_test_goroutine c (none, app) = record { accepted = false; events = []; app = app }
  url_test_goroutine c (some env, app) = record {
    accepted = true;
    events =
        map on_result (run c.ticks c.last (batch env.tags) (new_url_test_reporter env.tags)).calls
        ++ (env_closed ∷ on_done ∷ []);
    app = record app { world = unwind env.close app.world };
  }

  abbrev pub with_request : Call → Option TestRequest → Bool → App → Done
  with_request c none handler app = record { accepted = false; events = []; app = app }
  with_request c (some req) false app = record { accepted = false; events = []; app = app }
  with_request c (some req) true app =
      url_test_goroutine c
        (prepare_test_env c.current req.current c.platform req c.sidecar c.full c.box app)

  unfoldable pub start_url_test : Call → App → Done
  unfolding prepare_test_env run unwind
  start_url_test c app = with_request c c.request c.handler app
