-- ===== src/Rpc/Dispatch.antt =====
-- internal/rpc/dispatch.go: the handler table, dispatch, and the goroutine that answers one request.
-- The handlers behind the table (with the protobuf decoding around them) are the argument `handler`.
pub mod Answer
use nunya_core.Common.{
  ℕ, Option, none, some, List, [], ◌∷◌, ◌++◌, Bool, true, false, ◌&&◌, ◌==◌, if◌then◌else◌, codes,
  eq_text,
}
use nunya_core.Rpc.Frame.{Request, Response}

-- The methods that the server implements.
pub data Method : Type 0 where
  start stop check_config test stop_test query_url_test ip_test query_ip_test query_stats
        query_connections close_connections query_auto_selectors auto_selector_action is_privileged
        set_system_dns get_default_interface speed_test query_speed_test query_country_test
        gen_wg_key_pair warp_register install_dashboard query_vpn_status submit_vpn_challenge
        cancel_vpn_challenge capture_diagnostics stop_diagnostics update_rule_sets :
      Method

-- The map `handlers`.
unfoldable pub handlers : List (List ℕ × Method)
handlers =
    (codes "Start", start)
    ∷ (codes "Stop", stop)
    ∷ (codes "CheckConfig", check_config)
    ∷ (codes "Test", test)
    ∷ (codes "StopTest", stop_test)
    ∷ (codes "QueryURLTest", query_url_test)
    ∷ (codes "IPTest", ip_test)
    ∷ (codes "QueryIPTest", query_ip_test)
    ∷ (codes "QueryStats", query_stats)
    ∷ (codes "QueryConnections", query_connections)
    ∷ (codes "CloseConnections", close_connections)
    ∷ (codes "QueryAutoSelectors", query_auto_selectors)
    ∷ (codes "AutoSelectorAction", auto_selector_action)
    ∷ (codes "IsPrivileged", is_privileged)
    ∷ (codes "SetSystemDNS", set_system_dns)
    ∷ (codes "GetDefaultInterface", get_default_interface)
    ∷ (codes "SpeedTest", speed_test)
    ∷ (codes "QuerySpeedTest", query_speed_test)
    ∷ (codes "QueryCountryTest", query_country_test)
    ∷ (codes "GenWgKeyPair", gen_wg_key_pair)
    ∷ (codes "WarpRegister", warp_register)
    ∷ (codes "InstallDashboard", install_dashboard)
    ∷ (codes "QueryVPNStatus", query_vpn_status)
    ∷ (codes "SubmitVPNChallenge", submit_vpn_challenge)
    ∷ (codes "CancelVPNChallenge", cancel_vpn_challenge)
    ∷ (codes "CaptureDiagnostics", capture_diagnostics)
    ∷ (codes "StopDiagnostics", stop_diagnostics)
    ∷ (codes "UpdateRuleSets", update_rule_sets)
    ∷ []

unfoldable pub find_handler : List ℕ → List (List ℕ × Method) → Option Method
unfolding eq_text
find_handler name [] = none
find_handler name ((key, m) ∷ rest) = if eq_text key name then some m else find_handler name rest

-- How a call ends: `respData, nil`, an error with its text, or a panic with the printed value.
pub data Outcome : Type 0 where
  returned : List ℕ → Outcome
  failed : List ℕ → Outcome
  panicked : List ℕ → Outcome

module _ (handler : Method → List ℕ → Outcome) where
  unfoldable pub dispatch : List ℕ → List ℕ → Outcome
  dispatch method payload = elim (find_handler method handlers) [
    | none ↦ failed (codes "unknown method: " ++ method)
    | some m ↦ handler m payload
  ]

  -- The three calls of writeResponse, the recover's among them.
  abbrev pub respond : Request → Outcome → Response
  respond r (returned d) = record { id = r.id; status = 0; payload = d }
  respond r (failed e) = record { id = r.id; status = 1; payload = e }
  respond r (panicked v) = record {
    id = r.id;
    status = 1;
    payload = codes "core panic in " ++ (r.method ++ (codes ": " ++ v));
  }

  -- The body of the goroutine that Serve starts for a request.
  unfoldable pub answer : Request → Response
  unfolding dispatch
  answer r = respond r (dispatch r.method r.payload)
