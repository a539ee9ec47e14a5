-- ===== src/Rpc/Tests.antt =====
-- internal/rpc at concrete inputs.
use nunya_core.Common.{codes}
use nunya_core.Common.{ℕ, ◌≡◌, refl, true, false, none, some, List, [], ◌∷◌, ◌++◌, arith}
use nunya_core.Rpc.Frame.{Request, Response, put_u32, put_u16, serve, response_header}
use nunya_core.Rpc.Frame.Parse.{encode}
use nunya_core.Rpc.Frame.Stream.{frames, Served, serve-Served, serve-frames}
use nunya_core.Rpc.Dispatch.{Method, Outcome, returned, answer}
use nunya_core.Rpc.Dispatch.Answer.{Answered, answer-Answered}
use nunya_core.Rpc.Writer.{Wire, respond, send_bare, send_header, send_data, Reach, unused, then_}
use nunya_core.Rpc.Writer.Peer.{received}
use nunya_core.Rpc.Writer.Order.{received-Reach}
use nunya_core.Rpc.State.{Core}
use nunya_core.Xray.Gate.{succeeds, start_fails}
use nunya_core.Xray.Startup.{World}
use nunya_core.Rpc.TestEnv.{TestRequest, prepare_test_env}
use nunya_core.Rpc.TestEnv.Undone.{EnvPost, prepare_test_env-EnvPost}
use nunya_core.Rpc.Lifecycle.{
  LoadConfig, Env, already_started, start, start_body, first_error, stop,
}
use nunya_core.Rpc.Lifecycle.Resources.{Idle}
use nunya_core.Rpc.Lifecycle.Contract.{
  StartPost, start-StartPost, stop-start-Idle, start_running, start_keeps_extra,
}

abbrev ping : Request
ping = record { id = 7; method = codes "Stop"; payload = 1 ∷ 2 ∷ [] }

abbrev ping_bytes : List ℕ
ping_bytes = 7 ∷ 0 ∷ 0 ∷ 0 ∷ 4 ∷ 0 ∷ 83 ∷ 116 ∷ 111 ∷ 112 ∷ 2 ∷ 0 ∷ 0 ∷ 0 ∷ 1 ∷ 2 ∷ []

sample_frame : encode ping ≡ ping_bytes
unfolding encode put_u32 put_u16
sample_frame = refl

serve-Served_example :
    (rs : List Request) × (serve (ping_bytes ++ (9 ∷ [])) ≡ some rs)
    × Served (ping_bytes ++ (9 ∷ [])) rs
serve-Served_example = serve-Served (ping_bytes ++ (9 ∷ [])) (omega arith)

serve-frames_example : serve (frames (ping ∷ []) ++ (7 ∷ 0 ∷ [])) ≡ some (ping ∷ [])
serve-frames_example =
    serve-frames (ping ∷ []) ping (7 ∷ 0 ∷ []) 0
      (0 ∷ 4 ∷ 0 ∷ 83 ∷ 116 ∷ 111 ∷ 112 ∷ 2 ∷ 0 ∷ 0 ∷ 0 ∷ 1 ∷ 2 ∷ []) ((omega arith), tt)
      (omega arith) sample_frame

abbrev echo : Method → List ℕ → Outcome
echo m d = returned d

answer-Answered_example : Answered echo ping (answer echo ping)
answer-Answered_example = answer-Answered echo ping

abbrev first : Response
first = record { id = 1; status = 0; payload = 5 ∷ [] }

abbrev second : Response
second = record { id = 2; status = 0; payload = [] }

-- The second answer overtakes the first.
abbrev overtaken : Wire
overtaken = record {
  given = second ∷ first ∷ [];
  out = response_header second ++ (response_header first ++ (5 ∷ []));
  up = true;
  waiting = [];
  writing = none;
  done = second ∷ first ∷ [];
}

overtaken-Reach : Reach overtaken
unfolding response_header put_u32
overtaken-Reach =
    then_
      (then_
        (then_ (then_ (then_ unused (respond first)) (respond second))
          (send_bare [] second (first ∷ []) refl refl refl refl))
        (send_header [] first [] refl refl refl (λ e. cc)))
      (send_data first refl refl)

received-Reach_example : received 3 overtaken.out ≡ second ∷ first ∷ []
received-Reach_example = received-Reach overtaken-Reach (omega arith)

abbrev nothing : Core
nothing = record {
  box_instance = none;
  xray_instance = none;
  xray_gate = none;
  xray_full_gates = [];
  extra_process = none;
  need_unset_dns = false;
  auto_redirect_mark = 0;
  live = λ n. false;
  next = 0;
}

nothing-Idle : Idle nothing
nothing-Idle = record {
  no_box = refl;
  no_xray = refl;
  no_gate = refl;
  no_full = refl;
  no_dns = refl;
  dead = λ n. refl;
}

abbrev lazy_request : LoadConfig
lazy_request = record {
  need_extra_process = true;
  has_extra_conf = true;
  need_xray = true;
  xray_lazy_start = true;
  tun_ipv4_cidr_set = false;
}

abbrev all_well : Env
all_well = record {
  split_args = none;
  create_extra_config = none;
  start_extra = none;
  mark = 9;
  start_gate = none;
  create_xray = none;
  prepare_xray = none;
  start_xray = none;
  full_gates = none ∷ none ∷ [];
  create_box = none;
  is_darwin = false;
  tun_is_v4 = false;
}

abbrev gate_fails : Env
gate_fails = record all_well { start_gate = some 4 }

abbrev box_fails : Env
box_fails = record all_well { create_box = some 3 }

start_succeeds : (start lazy_request all_well nothing).0 ≡ none
unfolding start start_body first_error
start_succeeds = refl

start-StartPost_example : StartPost (start lazy_request box_fails nothing)
start-StartPost_example = start-StartPost lazy_request box_fails nothing nothing-Idle

stop-start-Idle_example :
    Idle (stop (start lazy_request all_well nothing).1)
    × ((stop (start lazy_request all_well nothing).1).auto_redirect_mark ≡ 0)
unfolding start start_body first_error
stop-start-Idle_example =
    stop-start-Idle lazy_request all_well nothing (start lazy_request all_well nothing).1
      nothing-Idle refl

abbrev running : Core
running = record nothing { box_instance = some 0; live = λ n. true }

start_running_example :
    (start lazy_request all_well running
      ≡ (some already_started, record running { box_instance = none; auto_redirect_mark = 0 }))
    × (stop (start lazy_request all_well running).1 ≡ (start lazy_request all_well running).1)
start_running_example = start_running lazy_request all_well running 0 refl

start_keeps_extra_example : (stop (start lazy_request gate_fails nothing).1).live 0 ≡ true
start_keeps_extra_example =
    start_keeps_extra lazy_request gate_fails nothing 4 nothing-Idle refl refl refl refl refl refl

abbrev empty_world : World
empty_world = record { live = λ n. false; next = 0 }

abbrev probe_request : TestRequest
probe_request = record {
  current = false;
  need_xray = true;
  tags = codes "a" ∷ [];
  use_default_outbound = false;
}

-- The sidecar and one full config come up, the second full config does not.
prepare_test_env-EnvPost_example :
    EnvPost 1 empty_world
      (prepare_test_env probe_request none succeeds (succeeds ∷ start_fails ∷ []) none empty_world)
prepare_test_env-EnvPost_example =
    prepare_test_env-EnvPost 1 empty_world probe_request none succeeds (succeeds ∷ start_fails ∷ [])
      none (λ e. cc)
