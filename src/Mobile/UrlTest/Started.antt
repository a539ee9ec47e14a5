-- ===== src/Mobile/UrlTest/Started.antt =====
-- What a handler is told by StartURLTest, and what it leaves running.
use nunya_core.Common.{
  ℕ, ◌≡◌, refl, Bool, true, false, Option, none, some, List, [], ◌∷◌, ◌++◌, if◌then◌else◌, has_text,
  map, length,
}
use nunya_core.Xray.Startup.{World}
use nunya_core.Xray.Startup.Opened.{IsFresh}
use nunya_core.Rpc.TestEnv.{TestRequest, TestEnv}
use nunya_core.Rpc.TestEnv.Undone.{EnvPost}
use nunya_core.Mobile.Instance.{App}
use nunya_core.Mobile.TestEnv.{prepare_test_env}
use nunya_core.Mobile.TestEnv.Same.{mobile_env-EnvPost}
use nunya_core.Probe.UrlTest.{UrlTestResult}
use nunya_core.Mobile.UrlTest.{
  Report, new_url_test_reporter, run, on_result, env_closed, on_done, Call, Done,
  url_test_goroutine, with_request, start_url_test,
}
use nunya_core.Mobile.UrlTest.Reported.{calls_for, first_call, seen, run-calls, run_once}

-- What prepareTestEnv gives, if StartURLTest comes to it.
abbrev pub prepared : Call → Option TestRequest → Bool → App → Option TestEnv × App
prepared c none handler app = (none, app)
prepared c (some req) false app = (none, app)
prepared c (some req) true app =
    prepare_test_env c.current req.current c.platform req c.sidecar c.full c.box app

module _ (batch : List (List ℕ) → List UrlTestResult) (n : ℕ) (t : List ℕ) where
  abbrev pub UrlTestPost : Call → World → Option TestEnv × App → Done → Type 0
  UrlTestPost c w (none, app) d =
      (d.accepted ≡ false) × (d.events ≡ []) × (d.app.world.live n ≡ w.live n)
  UrlTestPost c w (some env, app) d =
      (d.accepted ≡ true)
      × (d.app.world.live n ≡ w.live n)
      × ((calls : List Report) × (d.events ≡ map on_result calls ++ (env_closed ∷ on_done ∷ []))
          × (calls_for t calls ≡ (
              if has_text env.tags t
              then first_call t (seen c.ticks c.last (batch env.tags))
              else []))
          × (length (calls_for t calls) ≡ (if has_text env.tags t then 1 else 0)))

  goroutine-UrlTestPost :
      (c : Call) (w : World) (m : Option TestEnv × App)
      → ((tags : List (List ℕ)) → map (λ (x : UrlTestResult). x.tag) (batch tags) ≡ tags)
      → EnvPost n w (m.0, m.1.world)
      → UrlTestPost c w m (url_test_goroutine batch c m)
  goroutine-UrlTestPost c w (none, app) each p = (refl, refl, p)
  goroutine-UrlTestPost c w (some env, app) each p = (
    refl,
    p,
    (
      (run c.ticks c.last (batch env.tags) (new_url_test_reporter env.tags)).calls,
      refl,
      run-calls t env.tags c.ticks c.last (batch env.tags),
      run_once t env.tags c.ticks c.last (batch env.tags) (each env.tags),
    ),
  )

  request-UrlTestPost :
      (c : Call) (app : App) (req : Option TestRequest) (handler : Bool)
      → ((tags : List (List ℕ)) → map (λ (x : UrlTestResult). x.tag) (batch tags) ≡ tags)
      → IsFresh n app.world
      → UrlTestPost c app.world (prepared c req handler app) (with_request batch c req handler app)
  request-UrlTestPost c app none handler each f = (refl, refl, refl)
  request-UrlTestPost c app (some req) false each f = (refl, refl, refl)
  request-UrlTestPost c app (some req) true each f =
      goroutine-UrlTestPost c app.world
        (prepare_test_env c.current req.current c.platform req c.sidecar c.full c.box app) each
        (mobile_env-EnvPost n app c.current c.platform req c.sidecar c.full c.box f)

-- Where BatchURLTest gives one result for each tag in order and no handle to come is live: a
-- StartURLTest that fails, for a nil argument or in prepareTestEnv, tells the handler nothing and
-- leaves what runs as it was. One that succeeds makes, for each tag of the environment, exactly one
-- call of OnResult, of the first result with that tag that was drained or returned, and none for
-- another tag; then it closes the environment, after which what runs is as it was before, and then
-- calls OnDone once.
pub start_url_test-UrlTestPost :
    (batch : List (List ℕ) → List UrlTestResult) (n : ℕ) (t : List ℕ) (c : Call) (app : App)
    → ((tags : List (List ℕ)) → map (λ (x : UrlTestResult). x.tag) (batch tags) ≡ tags)
    → IsFresh n app.world
    → UrlTestPost batch n t c app.world
        (prepared c c.request c.handler app)
        (start_url_test batch c app)
unfolding start_url_test
start_url_test-UrlTestPost batch n t c app each f =
    request-UrlTestPost batch n t c app c.request c.handler each f
