-- ===== src/Probe/SpeedTest.antt =====
-- internal/probe/speedtest.go: BatchSpeedTest with the end of simpleDownloadTest and of
-- speedTestWithDialer, where it is not about countries only. What a test comes to is the argument
-- Run; a speed is the text that BrateToStr makes of it. The latency, the byte counts and the names of
-- the server, which a test sets beside the speeds, are left out.
pub mod Reported
use nunya_core.Common.{
  ℕ, suc, Bool, true, false, not, ◌&&◌, ◌||◌, Option, none, some, List, [], ◌∷◌, if◌then◌else◌,
  codes, ◌++◌,
}

-- context.Canceled, or an error with a text.
pub data TestError : Type 0 where
  canceled : TestError
  other : List ℕ → TestError

pub record SpeedTestResult : Type 0 where
  pub tag : List ℕ
  pub dl_speed : List ℕ
  pub ul_speed : List ℕ
  pub error : Option TestError
  pub cancelled : Bool

-- No server is found or no request made; or the test ends, with the error of its goroutine; or the
-- context is done first. The speeds are the last that were set.
pub data Run : Type 0 where
  no_server : TestError → Run
  ended : (dl ul : List ℕ) → Option TestError → Run
  interrupted : (dl ul : List ℕ) → TestError → Run

pub record Kind : Type 0 where
  pub test_dl : Bool
  pub test_ul : Bool
  pub simple_dl : Bool

abbrev pub new_result : List ℕ → SpeedTestResult
new_result tag = record { tag = tag; dl_speed = []; ul_speed = []; error = none; cancelled = false }

-- simpleDownloadTest: the result, and the error that it returns.
abbrev pub simple_download_test : List ℕ → Run → SpeedTestResult × Option TestError
simple_download_test tag (no_server e) = (new_result tag, some e)
simple_download_test tag (ended dl ul e) = (record (new_result tag) { dl_speed = dl; error = e }, e)
simple_download_test tag (interrupted dl ul e) =
    (record (new_result tag) { dl_speed = dl; cancelled = true }, some e)

-- The goroutine of speedTestWithDialer keeps no error that is a cancellation.
abbrev pub unless_canceled : Option TestError → Option TestError
unless_canceled none = none
unless_canceled (some canceled) = none
unless_canceled (some (other text)) = some (other text)

abbrev pub speed_test_with_dialer : List ℕ → Run → SpeedTestResult × Option TestError
speed_test_with_dialer tag (no_server e) = (new_result tag, some e)
speed_test_with_dialer tag (ended dl ul e) =
    (record (new_result tag) { dl_speed = dl; ul_speed = ul; error = unless_canceled e }, none)
speed_test_with_dialer tag (interrupted dl ul e) =
    (record (new_result tag) { dl_speed = dl; ul_speed = ul; cancelled = true }, some e)

-- `if err != nil && !errors.Is(err, context.Canceled)`
abbrev pub keep_error : Option TestError → SpeedTestResult → SpeedTestResult
keep_error none r = r
keep_error (some canceled) r = r
keep_error (some (other text)) r = record r { error = some (other text) }

abbrev pub blank : Kind → SpeedTestResult → SpeedTestResult
blank k r = record r {
  dl_speed = if not k.test_dl && not k.simple_dl then [] else r.dl_speed;
  ul_speed = if not k.test_ul then [] else r.ul_speed;
}

abbrev pub missing_result : List ℕ → SpeedTestResult
missing_result tag = record (new_result tag) {
  error = some (other (codes "no outbound with tag " ++ (tag ++ codes " found")));
}

unfoldable pub one_result : Kind → List ℕ → Bool → Run → SpeedTestResult
one_result k tag false run = missing_result tag
one_result k tag true run =
    let r = if k.simple_dl then simple_download_test tag run else speed_test_with_dialer tag run in
    blank k (keep_error r.1 r.0)

-- The outbounds of the box, and for the i-th tag whether the context is done before it, and its run.
module _ (found : List ℕ → Bool) (done : ℕ → Bool) (run : ℕ → Run) where
  unfoldable pub batch_speed_test : Kind → ℕ → List (List ℕ) → List SpeedTestResult
  unfolding one_result
  batch_speed_test k i [] = []
  batch_speed_test k i (tag ∷ tags) =
      let rest = batch_speed_test k (suc i) tags in
      if done i then [] else one_result k tag (found tag) (run i) ∷ rest
