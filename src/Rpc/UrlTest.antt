-- ===== src/Rpc/UrlTest.antt =====
-- internal/rpc/urltest.go: the handler Test. The batch of tests and what collectVPNStatus answers are
-- arguments; an error is its text.
pub mod Answered
use nunya_core.Common.{
  ℕ, Bool, true, false, not, ◌&&◌, Option, none, some, List, [], ◌∷◌, if◌then◌else◌, eq_text, codes,
}
use nunya_core.Xray.Gate.{Bringup}
use nunya_core.Xray.Startup.{World}
use nunya_core.Probe.UrlTest.{UrlTestResult, error_string, latency_ms}
use nunya_core.Rpc.TestEnv.{unwind, TestRequest, Running, TestEnv, prepare_test_env}

-- URLTestResp
pub record Entry : Type 0 where
  pub outbound_tag : List ℕ
  pub latency : ℕ
  pub error : List ℕ

abbrev pub entry_of : List ℕ → UrlTestResult → Entry
entry_of tag x = record {
  outbound_tag = tag;
  latency = latency_ms x.duration;
  error = error_string x.error;
}

abbrev pub push : Entry → Option (List Entry) → Option (List Entry)
push e none = none
push e (some entries) = some (e ∷ entries)

-- The loop over the results, with env.tags[idx]; `none` is a panic.
unfoldable pub entries_of : List (List ℕ) → List UrlTestResult → Option (List Entry)
entries_of tags [] = some []
entries_of [] (x ∷ results) = none
entries_of (t ∷ tags) (x ∷ results) = push (entry_of t x) (entries_of tags results)

abbrev pub is_failure : Entry → Bool
is_failure e = not (eq_text e.error [])

-- The map `failed`, written from the first entry to the last.
unfoldable pub failed : List Entry → Bool → List ℕ → Bool
unfolding eq_text
failed [] before tag = before
failed (e ∷ entries) before tag =
    failed entries (if eq_text e.outbound_tag tag then is_failure e else before) tag

unfoldable pub pending_tags : List Entry → List (List ℕ) → List (List ℕ)
unfolding failed
pending_tags entries [] = []
pending_tags entries (tag ∷ tags) =
    let pending = pending_tags entries tags in
    if failed entries false tag then tag ∷ pending else pending

pub data Reply (S : Type 0) : Type 0 where
  fails panics : Reply S
  replies : List Entry → Option S → Reply S

abbrev pub not_running : Option Running → Bool
not_running none = true
not_running (some r) = false

-- Where the instance is not running.
abbrev pub not_running_entry : Entry
not_running_entry = record {
  outbound_tag = codes "proxy";
  latency = 0;
  error = codes "Instance is not running";
}

module _ {S : Type 0} (batch : List (List ℕ) → List UrlTestResult)
    (collect : List (List ℕ) → S) where
  abbrev pub ask_status : List (List ℕ) → Option S
  ask_status [] = none
  ask_status (t ∷ pending) = some (collect (t ∷ pending))

  abbrev pub reply_of : List (List ℕ) → Option (List Entry) → Reply S
  reply_of vpn_tags none = panics
  reply_of vpn_tags (some entries) = replies entries (ask_status (pending_tags entries vpn_tags))

  -- The error of prepareTestEnv is errInstanceNotRunning only where the running box is asked for and
  -- there is none.
  abbrev pub test_env :
      List (List ℕ) → TestRequest → Option Running → Option TestEnv × World → Reply S × World
  test_env vpn_tags req running (none, w) = (
    if req.current && not_running running then replies (not_running_entry ∷ []) none else fails,
    w,
  )
  test_env vpn_tags req running (some env, w) =
      (reply_of vpn_tags (entries_of env.tags (batch env.tags)), unwind env.close w)

  unfoldable pub test :
      List (List ℕ)
      → TestRequest
      → Option Running
      → Bringup
      → List Bringup
      → Option (List ℕ)
      → World
      → Reply S × World
  unfolding entries_of pending_tags prepare_test_env unwind
  test vpn_tags req running sidecar full box w =
      test_env vpn_tags req running (prepare_test_env req running sidecar full box w)
