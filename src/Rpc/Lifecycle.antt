-- ===== src/Rpc/Lifecycle.antt =====
-- internal/rpc/lifecycle.go: Start and Stop. What the calls into sing-box, Xray, the operating
-- system and the parsers return is the argument `env` of a Start.
pub mod Resources
pub mod Stages
pub mod Contract
use nunya_core.Common.{
  ℕ, ◌+◌, ◌≡◌, Bool, true, false, not, ◌&&◌, Option, none, some, List, [], ◌∷◌, if◌then◌else◌,
  is_some,
}
use nunya_core.Rpc.State.{
  Core, opened, close, close_some, close_all, set_box_instance, set_xray, set_xray_full_gates,
  close_xray, stop_extra,
}

pub data Failure : Type 0 where
  already_started invalid_tun_cidr : Failure
  parse_args extra_conf extra_start gate_start xray_create xray_prepare xray_start box_create :
      ℕ → Failure

-- The fields of gen.LoadConfigReq that Start branches on.
pub record LoadConfig : Type 0 where
  pub need_extra_process : Bool
  pub has_extra_conf : Bool
  pub need_xray : Bool
  pub xray_lazy_start : Bool
  pub tun_ipv4_cidr_set : Bool

-- `none` is a nil error, `some` an error by its number.
pub record Env : Type 0 where
  pub split_args : Option ℕ  -- shlex.Split
  pub create_extra_config : Option ℕ  -- process.CreateExtraConfig
  pub start_extra : Option ℕ  -- extraProcess.Start
  pub mark : ℕ  -- autoRedirectMarkFor
  pub start_gate : Option ℕ  -- xray.StartGate of the sidecar
  pub create_xray : Option ℕ  -- xray.CreateXrayInstance
  pub prepare_xray : Option ℕ  -- prepareXray
  pub start_xray : Option ℕ  -- instance.Start
  pub full_gates : List (Option ℕ)  -- xray.StartGate of each full config
  pub create_box : Option ℕ  -- boxmain.Create
  pub is_darwin : Bool
  pub tun_is_v4 : Bool  -- the CIDR parses, to an IPv4 prefix

-- The body of a Go function between its early returns: the state is kept when it fails.
pub data Result : Type 0 where
  done : Core → Result
  fail : Failure → Core → Result

abbrev pub then_ : Result → (Core → Result) → Result
then_ (done s) f = f s
then_ (fail e s) f = fail e s

abbrev pub check : Option ℕ → (ℕ → Failure) → Core → Result
check none e s = done s
check (some x) e s = fail (e x) s

-- lines of `if *in.NeedExtraProcess`: NewProcess is assigned before it is started.
unfoldable pub start_extra_process : LoadConfig → Env → Core → Result
start_extra_process req env s =
    if not req.need_extra_process
    then done s
    else then_ (check env.split_args parse_args s) λ s.
      then_ (if req.has_extra_conf then check env.create_extra_config extra_conf s else done s) λ s.
        let assigned = record s { extra_process = some s.next; next = s.next + 1 } in
        then_ (check env.start_extra extra_start assigned)
          λ t. done (record t { live = (opened s).live })

-- The same, where the failure is answered by a cleanup first.
abbrev pub check_or : Option ℕ → (ℕ → Failure) → (Core → Core) → Core → Result
check_or none e cleanup s = done s
check_or (some x) e cleanup s = fail (e x) (cleanup s)

-- The sidecar under `if *in.NeedXray`: a gate when lazy, else an instance that is closed again if
-- it cannot be prepared or started.
unfoldable pub start_sidecar : LoadConfig → Env → Core → Result
start_sidecar req env s =
    if not req.need_xray
    then done s
    else if req.xray_lazy_start
    then (then_ (check env.start_gate gate_start s)
        λ s. done (set_xray none (some s.next) (opened s)))
    else then_ (check env.create_xray xray_create s) λ s.
      then_ (check_or env.prepare_xray xray_prepare (close s.next) (opened s)) λ created.
        then_ (check_or env.start_xray xray_start (close s.next) created)
          λ started. done (set_xray (some s.next) none started)

-- internal/rpc/xray.go, startXrayFullGates. The first config goes alone; the others all run, and
-- only then the first error in the order of the configs closes every gate that opened.
unfoldable pub open_gates : List (Option ℕ) → Core → List ℕ × Core
open_gates [] s = ([], s)
open_gates (none ∷ rest) s = let (gates, t) = open_gates rest (opened s) in (s.next ∷ gates, t)
open_gates (some x ∷ rest) s = open_gates rest s

unfoldable pub first_error : List (Option ℕ) → Option ℕ
first_error [] = none
first_error (none ∷ rest) = first_error rest
first_error (some x ∷ rest) = some x

unfoldable pub start_full_gates : List (Option ℕ) → Core → List ℕ × Option ℕ × Core
start_full_gates [] s = ([], none, s)
start_full_gates (some x ∷ rest) s = ([], some x, s)
start_full_gates (none ∷ rest) s =
    let (gates, t) = open_gates (none ∷ rest) s in
    elim (first_error rest) [ none ↦ (gates, none, t) | some x ↦ ([], some x, close_all gates t) ]

abbrev pub publish_full : List ℕ × Option ℕ × Core → Result
publish_full (gates, none, t) = done (set_xray_full_gates gates t)
publish_full (gates, some x, t) = fail (gate_start x) (close_xray t)

-- `if fullConfigs := …; len(fullConfigs) > 0`
unfoldable pub start_full : Env → Core → Result
start_full env s = elim env.full_gates [
  | [] ↦ done s
  | first ∷ rest ↦ publish_full (start_full_gates (first ∷ rest) s)
]

unfoldable pub create_box : Env → Core → Result
create_box env s =
    then_ (check_or env.create_box box_create (λ s. close_xray (stop_extra s)) s)
      λ s. done (set_box_instance (some s.next) (opened s))

-- Start's closure for a tunnel address that it cannot use.
unfoldable pub stop_all_cores : Core → Core
stop_all_cores s = close_xray (stop_extra (set_box_instance none (close_some s.box_instance s)))

-- The darwin block; `box` is the handle just published. The second test repeats the first.
unfoldable pub set_tunnel_dns : LoadConfig → Env → Core → Result
set_tunnel_dns req env s =
    if not (env.is_darwin && req.tun_ipv4_cidr_set)
    then done s
    else if not env.tun_is_v4
    then fail invalid_tun_cidr (stop_all_cores s)
    else done (record s { need_unset_dns = true })

-- Start past the check for a running box.
unfoldable pub launch : LoadConfig → Env → Core → Result
unfolding start_extra_process start_sidecar start_full start_full_gates create_box set_tunnel_dns
launch req env s = then_ (start_extra_process req env s) λ s.
    then_ (start_sidecar req env (record s { auto_redirect_mark = env.mark }))
      λ s. then_ (start_full env s) λ s. then_ (create_box env s) λ s. set_tunnel_dns req env s

unfoldable pub start_body : LoadConfig → Env → Core → Result
unfolding launch
start_body req env s =
    let launched = launch req env s in
    if is_some s.box_instance then fail already_started s else launched

-- The deferred function: it runs on every return, and resets the globals on every error.
abbrev pub deferred : Result → Option Failure × Core
deferred (done s) = (none, s)
deferred (fail e s) = (some e, record (set_box_instance none s) { auto_redirect_mark = 0 })

unfoldable pub start : LoadConfig → Env → Core → Option Failure × Core
start req env s = deferred (start_body req env s)

unfoldable pub stop : Core → Core
stop s = elim s.box_instance [
  | none ↦ s
  | some box ↦
      let unpublished = set_box_instance none (record s { need_unset_dns = false }) in
      record (close_xray (stop_extra (close box unpublished))) { auto_redirect_mark = 0 }
]
