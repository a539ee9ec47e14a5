-- ===== src/Rpc/Lifecycle/Contract.antt =====
-- What a caller of Start and Stop may rely on, and two ways in which something is left running.
use nunya_core.Common.{
  ℕ, ◌+◌, ◌≡◌, refl, ap, sym, ◌∙◌, subst, true, Option, none, some, if◌then◌else◌, is_some, arith,
}
use nunya_core.Rpc.State.{Core, opened, Tracked}
use nunya_core.Rpc.Lifecycle.Resources.{stop-Idle, Idle, LeftOver, Ensures}
use nunya_core.Rpc.Lifecycle.Stages.{launch-Ensures}
use nunya_core.Rpc.Lifecycle.{
  LoadConfig, Env, Result, done, fail, Failure, start_extra_process, start_sidecar, start_body,
  launch, start, stop, already_started, deferred,
}

start_body_lem :
    (req : LoadConfig) (env : Env) (s : Core) (b : Option ℕ)
    → s.box_instance ≡ b
    → start_body req env s ≡ (if is_some b then fail already_started s else launch req env s)
unfolding start_body
start_body_lem req env s b e =
    ap (λ (b : Option ℕ). if is_some b then fail already_started s else launch req env s) e

-- What a Start from an idle core promises, by its answer.
abbrev pub StartPost : Option Failure × Core → Type 0
StartPost (none, t) = (is_some t.box_instance ≡ true) × Tracked t
StartPost (some e, t) = LeftOver e t × (t.auto_redirect_mark ≡ 0)

-- From an idle core, a Start that succeeds publishes a box and tracks all that runs; one that fails
-- leaves no box, no Xray and no mark, and nothing running but, where the Xray side failed, the
-- extra process that it still names.
pub start-StartPost :
    (req : LoadConfig) (env : Env) (s : Core) → Idle s → StartPost (start req env s)
unfolding start
start-StartPost req env s h =
    rw (start_body_lem req env s none h.no_box)
      (post (launch req env s) (launch-Ensures req env s h))
  where
    post :
        (r : Result)
        → Ensures (λ t. (is_some t.box_instance ≡ true) × Tracked t) r
        → StartPost (deferred r)
    post (done t) p = p
    post (fail e t) p = (
      record {
        only_extra = record {
          no_box = refl;
          no_xray = p.only_extra.no_xray;
          no_gate = p.only_extra.no_gate;
          no_full = p.only_extra.no_full;
          no_dns = p.only_extra.no_dns;
          live_extra = p.only_extra.live_extra;
        };
        dead = p.dead;
      },
      refl,
    )

-- A successful Start followed by Stop is back at an idle core: nothing runs.
pub stop-start-Idle :
    (req : LoadConfig) (env : Env) (s t : Core)
    → Idle s
    → start req env s ≡ (none, t)
    → Idle (stop t) × ((stop t).auto_redirect_mark ≡ 0)
stop-start-Idle req env s t h e =
    let (box, tracked) = subst StartPost e (start-StartPost req env s h) in
    stop-Idle t tracked (λ none_. cc)

-- A Start while a box runs answers that one does, and forgets that box: it and all else go on
-- running, and Stop does nothing any more.
pub start_running :
    (req : LoadConfig) (env : Env) (s : Core) (box : ℕ)
    → s.box_instance ≡ some box
    → (start req env s
        ≡ (some already_started, record s { box_instance = none; auto_redirect_mark = 0 }))
      × (stop (start req env s).1 ≡ (start req env s).1)
unfolding start stop
start_running req env s box e =
    let answer = ap deferred (start_body_lem req env s (some box) e) in
    (
      answer,
      ap (λ (p : Option Failure × Core). stop p.1) answer
          ∙ sym (ap (λ (p : Option Failure × Core). p.1) answer),
    )

launch_fails :
    (req : LoadConfig) (env : Env) (s : Core) (x : ℕ)
    → req.need_extra_process ≡ true
    → env.split_args ≡ none
    → env.create_extra_config ≡ none
    → env.start_extra ≡ none
    → req.need_xray ≡ true
    → (if req.xray_lazy_start then env.start_gate else env.create_xray) ≡ some x
    → launch req env s
      ≡ fail
          (if req.xray_lazy_start then Failure.gate_start x else Failure.xray_create x)
          (record s {
            extra_process = some s.next;
            auto_redirect_mark = env.mark;
            live = (opened s).live;
            next = s.next + 1;
          })
unfolding launch start_extra_process start_sidecar
launch_fails req env s x a b c d e f = ground arith

-- Where the sidecar fails at once, the extra process that was started for it goes on running with
-- no box published, and Stop does not end it.
pub start_keeps_extra :
    (req : LoadConfig) (env : Env) (s : Core) (x : ℕ)
    → Idle s
    → req.need_extra_process ≡ true
    → env.split_args ≡ none
    → env.create_extra_config ≡ none
    → env.start_extra ≡ none
    → req.need_xray ≡ true
    → (if req.xray_lazy_start then env.start_gate else env.create_xray) ≡ some x
    → (stop (start req env s).1).live s.next ≡ true
unfolding start stop
start_keeps_extra req env s x h a b c d e f =
    rw (start_body_lem req env s none h.no_box ∙ launch_fails req env s x a b c d e f)
      (ground arith)
