-- ===== src/Probe/UrlTest.antt =====
-- internal/probe/urltest.go: the result of a URL test, and what the run of one tag makes of the
-- answers to its requests. A duration is in nanoseconds, an error is its text.
use nunya_core.Common.{ℕ, ◌/◌, ◌%◌, ◌^◌, Bool, true, false, Option, none, some, List, []}

pub record UrlTestResult : Type 0 where
  pub duration : ℕ
  pub tag : List ℕ
  pub error : Option (List ℕ)

-- What comes of NewRequest and of Do, with the time that it took.
pub data Response : Type 0 where
  bad_request not_answered : List ℕ → Response
  responds : ℕ → Response

abbrev pub url_test : Response → ℕ × Option (List ℕ)
url_test (bad_request e) = (0, some e)
url_test (not_answered e) = (0, some e)
url_test (responds elapsed) = (elapsed, none)

abbrev pub second_test : Bool → Response → ℕ × Option (List ℕ) → ℕ × Option (List ℕ)
second_test false second first = first
second_test true second (duration, some e) = (duration, some e)
second_test true second (duration, none) = url_test second

-- `run`: awaitTunnels, then one request or two.
unfoldable pub run_url_test : List ℕ → Bool → Option (List ℕ) → Response → Response → UrlTestResult
run_url_test tag twice (some e) first second = record { duration = 0; tag = tag; error = some e }
run_url_test tag twice none first second =
    let r = second_test twice second (url_test first) in
    record { duration = r.0; tag = tag; error = r.1 }

abbrev pub fail_url_test : List ℕ → List ℕ → UrlTestResult
fail_url_test tag e = record { duration = 0; tag = tag; error = some e }

abbrev pub error_string : Option (List ℕ) → List ℕ
error_string none = []
error_string (some text) = text

-- int32(Milliseconds()), by its bits.
abbrev pub latency_ms : ℕ → ℕ
latency_ms duration = (duration / 1000000) % 2 ^ 32
