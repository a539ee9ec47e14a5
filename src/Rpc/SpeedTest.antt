-- ===== src/Rpc/SpeedTest.antt =====
-- internal/rpc/speedtest.go: the handler SpeedTest. The tests that are about countries only are the
-- argument `country`. Each field of a request is set: the handler would panic at one that is absent.
pub mod Answered
use nunya_core.Common.{
  ℕ, Bool, true, false, not, ◌&&◌, Option, none, some, List, [], ◌∷◌, if◌then◌else◌, map, codes,
}
use nunya_core.Xray.Gate.{Bringup}
use nunya_core.Xray.Startup.{World}
use nunya_core.Probe.SpeedTest.{
  TestError, canceled, other, SpeedTestResult, Run, Kind, batch_speed_test,
}
use nunya_core.Rpc.TestEnv.{unwind, TestRequest, Running, TestEnv, prepare_test_env}
use nunya_core.Rpc.UrlTest.{not_running}

abbrev pub error_text : Option TestError → List ℕ
error_text none = []
error_text (some canceled) = codes "context canceled"
error_text (some (other text)) = text

-- gen.SpeedTestResult, without the latency, the byte counts and the names of the server.
pub record Answer : Type 0 where
  pub outbound_tag : List ℕ
  pub dl_speed : List ℕ
  pub ul_speed : List ℕ
  pub error : List ℕ
  pub cancelled : Bool

abbrev pub speed_test_result_to_proto : SpeedTestResult → Answer
speed_test_result_to_proto r = record {
  outbound_tag = r.tag;
  dl_speed = r.dl_speed;
  ul_speed = r.ul_speed;
  error = error_text r.error;
  cancelled = r.cancelled;
}

pub data SpeedReply : Type 0 where
  empty_test fails : SpeedReply
  replies : List Answer → SpeedReply

abbrev pub not_running_answer : Answer
not_running_answer = record {
  outbound_tag = codes "proxy";
  dl_speed = [];
  ul_speed = [];
  error = codes "Instance is not running";
  cancelled = false;
}

pub record SpeedTestRequest : Type 0 where
  pub env : TestRequest
  pub kind : Kind
  pub only_country : Bool

abbrev pub is_empty_test : SpeedTestRequest → Bool
is_empty_test req =
    not req.kind.test_dl
    && (not req.kind.test_ul && (not req.kind.simple_dl && not req.only_country))

module _ (country : List (List ℕ) → List SpeedTestResult) (found : List ℕ → Bool) (done : ℕ → Bool)
    (run : ℕ → Run) where
  abbrev pub all_results : SpeedTestRequest → List (List ℕ) → List SpeedTestResult
  all_results req tags =
      if req.only_country then country tags else batch_speed_test found done run req.kind 0 tags

  abbrev pub speed_test_env :
      SpeedTestRequest → Option Running → Option TestEnv × World → SpeedReply × World
  speed_test_env req running (none, w) = (
    if req.env.current && not_running running then replies (not_running_answer ∷ []) else fails,
    w,
  )
  speed_test_env req running (some env, w) =
      (replies (map speed_test_result_to_proto (all_results req env.tags)), unwind env.close w)

  unfoldable pub speed_test :
      SpeedTestRequest
      → Option Running
      → Bringup
      → List Bringup
      → Option (List ℕ)
      → World
      → SpeedReply × World
  unfolding batch_speed_test prepare_test_env unwind
  speed_test req running sidecar full box w =
      if is_empty_test req
      then (empty_test, w)
      else speed_test_env req running (prepare_test_env req.env running sidecar full box w)
