-- ===== src/Rpc/SpeedTest/Answered.antt =====
-- What SpeedTest answers, and that it leaves nothing running.
use nunya_core.Common.{
  ℕ, ◌≡◌, refl, sym, Bool, true, false, Option, none, some, List, [], ◌∷◌, map, subst,
}
use nunya_core.Xray.Gate.{Bringup}
use nunya_core.Xray.Startup.{World}
use nunya_core.Xray.Startup.Opened.{IsFresh}
use nunya_core.Probe.SpeedTest.{SpeedTestResult, Run}
use nunya_core.Probe.SpeedTest.Reported.{Reports, batch-Reports}
use nunya_core.Rpc.TestEnv.{Running, TestEnv, prepare_test_env}
use nunya_core.Rpc.TestEnv.Undone.{EnvPost, prepare_test_env-EnvPost}
use nunya_core.Rpc.UrlTest.{not_running}
use nunya_core.Rpc.UrlTest.Answered.{is_running}
use nunya_core.Rpc.SpeedTest.{
  speed_test_result_to_proto, SpeedReply, empty_test, fails, replies, not_running_answer,
  SpeedTestRequest, is_empty_test, all_results, speed_test_env, speed_test,
}

module _ (country : List (List ℕ) → List SpeedTestResult) (found : List ℕ → Bool) (done : ℕ → Bool)
    (run : ℕ → Run) (n : ℕ) (req : SpeedTestRequest) (w : World) where
  abbrev pub EnvSpeedPost : Option TestEnv × World → SpeedReply × World → Type 0
  EnvSpeedPost (none, v) r =
      (r.1.live n ≡ w.live n)
      × (req.env.current ≡ true → r.0 ≡ replies (not_running_answer ∷ []))
      × (req.env.current ≡ false → r.0 ≡ fails)
  EnvSpeedPost (some env, v) r =
      (r.1.live n ≡ w.live n)
      × ((results : List SpeedTestResult) × (r.0 ≡ replies (map speed_test_result_to_proto results))
          × (req.only_country ≡ false → Reports found done run req.kind 0 env.tags results)
          × (req.only_country ≡ true → results ≡ country env.tags))

  env-EnvSpeedPost :
      (running : Option Running) (m : Option TestEnv × World)
      → EnvPost n w m
      → (m.0 ≡ none → req.env.current ≡ true → not_running running ≡ true)
      → EnvSpeedPost m (speed_test_env country found done run req running m)
  env-EnvSpeedPost running (none, v) p k = (p, λ c. simp (c, k refl c) refl, λ c. simp c refl)
  env-EnvSpeedPost running (some env, v) p k = (
    p,
    (
      all_results country found done run req env.tags,
      refl,
      λ c. simp c (batch-Reports found done run req.kind 0 env.tags),
      λ c. simp c refl,
    ),
  )

  abbrev pub SpeedPost : Option TestEnv × World → SpeedReply × World → Type 0
  SpeedPost m r =
      (is_empty_test req ≡ true → r ≡ (empty_test, w))
      × (is_empty_test req ≡ false → EnvSpeedPost m r)

-- Where no handle to come is live and every field of the request is set: a SpeedTest that asks for no
-- kind of test is refused before anything is started. Any other, if its environment cannot be
-- prepared, answers an entry that says so where the running instance was asked for, and an error
-- otherwise; else it answers the results of the tests. Unless they are about countries only, these
-- are of the environment's tags, in order, up to the first before which the context is done; each
-- has its tag, an error if the outbound is missing, and no speed for a direction that was not tested;
-- and it is without an error and not marked as cancelled exactly if the test ran to its end without
-- an error, or its search for a server was cancelled, or, where it is no simple download, its own
-- context was. Afterwards what runs is as it was before.
pub speed_test-SpeedPost :
    (country : List (List ℕ) → List SpeedTestResult) (found : List ℕ → Bool) (done : ℕ → Bool)
    (run : ℕ → Run) (n : ℕ) (req : SpeedTestRequest) (running : Option Running) (sidecar : Bringup)
    (full : List Bringup) (box : Option (List ℕ)) (w : World)
    → IsFresh n w
    → SpeedPost country found done run n req w
        (prepare_test_env req.env running sidecar full box w)
        (speed_test country found done run req running sidecar full box w)
unfolding speed_test
speed_test-SpeedPost country found done run n req running sidecar full box w f = (
  λ e. rw e refl,
  λ e.
      let m = prepare_test_env req.env running sidecar full box w in
      let goes : speed_test country found done run req running sidecar full box w
          ≡ speed_test_env country found done run req running m =
        simp e refl in
      subst (EnvSpeedPost country found done run n req w m) (sym goes) (
        env-EnvSpeedPost country found done run n req w running m
          (prepare_test_env-EnvPost n w req.env running sidecar full box f)
          (is_running req.env running sidecar full box w)),
)
