-- ===== src/Rpc/Dispatch/Answer.antt =====
-- Which handler a method name reaches, and what the answer says.
use nunya_core.Common.{codes, eq_text→eq}
use nunya_core.Common.{
  ℕ, ◌≡◌, refl, ap, none, some, List, [], ◌∷◌, ◌++◌, arith, ◌≢◌, inl, inr, Option-cases,
}
use nunya_core.Rpc.Frame.{Request, Response}
use nunya_core.Rpc.Dispatch.{
  Method, handlers, find_handler, Outcome, returned, failed, panicked, dispatch, respond, answer,
}

-- The name that a method has in the service definition of the protocol.
unfoldable pub method_name : Method → List ℕ
method_name Method.start = codes "Start"
method_name Method.stop = codes "Stop"
method_name Method.check_config = codes "CheckConfig"
method_name Method.test = codes "Test"
method_name Method.stop_test = codes "StopTest"
method_name Method.query_url_test = codes "QueryURLTest"
method_name Method.ip_test = codes "IPTest"
method_name Method.query_ip_test = codes "QueryIPTest"
method_name Method.query_stats = codes "QueryStats"
method_name Method.query_connections = codes "QueryConnections"
method_name Method.close_connections = codes "CloseConnections"
method_name Method.query_auto_selectors = codes "QueryAutoSelectors"
method_name Method.auto_selector_action = codes "AutoSelectorAction"
method_name Method.is_privileged = codes "IsPrivileged"
method_name Method.set_system_dns = codes "SetSystemDNS"
method_name Method.get_default_interface = codes "GetDefaultInterface"
method_name Method.speed_test = codes "SpeedTest"
method_name Method.query_speed_test = codes "QuerySpeedTest"
method_name Method.query_country_test = codes "QueryCountryTest"
method_name Method.gen_wg_key_pair = codes "GenWgKeyPair"
method_name Method.warp_register = codes "WarpRegister"
method_name Method.install_dashboard = codes "InstallDashboard"
method_name Method.query_vpn_status = codes "QueryVPNStatus"
method_name Method.submit_vpn_challenge = codes "SubmitVPNChallenge"
method_name Method.cancel_vpn_challenge = codes "CancelVPNChallenge"
method_name Method.capture_diagnostics = codes "CaptureDiagnostics"
method_name Method.stop_diagnostics = codes "StopDiagnostics"
method_name Method.update_rule_sets = codes "UpdateRuleSets"

-- Each method is reached under its own name.
find_handler-method_name : (m : Method) → find_handler (method_name m) handlers ≡ some m
unfolding find_handler handlers method_name
find_handler-method_name Method.start = refl
find_handler-method_name _ = refl

Sound : List (List ℕ × Method) → Type 0
Sound [] = Unit
Sound ((key, m) ∷ rest) = (key ≡ method_name m) × Sound rest

name_of_handler :
    (table : List (List ℕ × Method)) (name : List ℕ) (m : Method)
    → Sound table
    → find_handler name table ≡ some m
    → name ≡ method_name m
unfolding find_handler Sound
name_of_handler [] name m s h = cc
name_of_handler ((key, k) ∷ rest) name m s h =
    ground (arith, eq_text→eq key name, name_of_handler rest name m s.1)

handlers-Sound : Sound handlers
unfolding Sound handlers method_name
handlers-Sound = (
  refl,
  (
    refl,
    (
      refl,
      (
        refl,
        (
          refl,
          (
            refl,
            (
              refl,
              (
                refl,
                (
                  refl,
                  (
                    refl,
                    (
                      refl,
                      (
                        refl,
                        (
                          refl,
                          (
                            refl,
                            (
                              refl,
                              (
                                refl,
                                (
                                  refl,
                                  (
                                    refl,
                                    (
                                      refl,
                                      (
                                        refl,
                                        (
                                          refl,
                                          (
                                            refl,
                                            (refl, (refl, (refl, (refl, (refl, (refl, tt)))))),
                                          ),
                                        ),
                                      ),
                                    ),
                                  ),
                                ),
                              ),
                            ),
                          ),
                        ),
                      ),
                    ),
                  ),
                ),
              ),
            ),
          ),
        ),
      ),
    ),
  ),
)

-- The four ways in which a request is answered, told from the service definition.
pub data Answered (handler : Method → List ℕ → Outcome) (r : Request) (a : Response) : Type 0 where
  success :
      (m : Method) (d : List ℕ)
      → r.method ≡ method_name m
      → handler m r.payload ≡ returned d
      → a ≡ record { id = r.id; status = 0; payload = d }
      → Answered handler r a
  failure :
      (m : Method) (e : List ℕ)
      → r.method ≡ method_name m
      → handler m r.payload ≡ failed e
      → a ≡ record { id = r.id; status = 1; payload = e }
      → Answered handler r a
  panic :
      (m : Method) (v : List ℕ)
      → r.method ≡ method_name m
      → handler m r.payload ≡ panicked v
      → a ≡ record {
        id = r.id;
        status = 1;
        payload = codes "core panic in " ++ (r.method ++ (codes ": " ++ v));
      }
      → Answered handler r a
  unknown :
      ((m : Method) → r.method ≢ method_name m)
      → a ≡ record { id = r.id; status = 1; payload = codes "unknown method: " ++ r.method }
      → Answered handler r a

module _ (handler : Method → List ℕ → Outcome) (r : Request) where
  respond-Answered :
      (m : Method) (o : Outcome)
      → r.method ≡ method_name m
      → handler m r.payload ≡ o
      → Answered handler r (respond handler r o)
  respond-Answered m (returned d) e h = success m d e h refl
  respond-Answered m (failed x) e h = failure m x e h refl
  respond-Answered m (panicked v) e h = panic m v e h refl

  answer_known :
      (m : Method) → find_handler r.method handlers ≡ some m → Answered handler r (answer handler r)
  unfolding answer
  answer_known m e =
      rw (e, dispatch)
        (respond-Answered m (handler m r.payload)
          (name_of_handler handlers r.method m handlers-Sound e) refl)

  answer_unknown : find_handler r.method handlers ≡ none → Answered handler r (answer handler r)
  unfolding answer
  answer_unknown e =
      rw (e, dispatch)
        (unknown (λ m h. cc (find_handler-method_name m, ap (λ n. find_handler n handlers) h)) refl)

  -- Every request is answered once under its own id: by the handler that the service definition
  -- names, with status 0 exactly if that returned, or as an unknown method.
  pub answer-Answered : Answered handler r (answer handler r)
  answer-Answered = elim (Option-cases (find_handler r.method handlers)) [
    | inl e ↦ answer_unknown e
    | inr (m, e) ↦ answer_known m e
  ]
