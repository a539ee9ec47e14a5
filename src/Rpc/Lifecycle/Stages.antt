-- ===== src/Rpc/Lifecycle/Stages.antt =====
-- Start stage by stage: what each hands on, and what it leaves when it fails.
use nunya_core.Common.{
  ℕ, ◌≡◌, refl, true, false, Option, none, some, List, [], ◌∷◌, if◌then◌else◌, is_some, arith, ◌⊎◌,
  inl, inr, Option-cases,
}
use nunya_core.Rpc.State.{
  Core, opened, close_all, set_xray_full_gates, close_xray, stop_extra, contains, held, Tracked,
}
use nunya_core.Rpc.Lifecycle.Resources.{
  Idle, OnlyExtra, LeftOver, is_xray_failure, Ensures, then_-Ensures,
}
use nunya_core.Rpc.Lifecycle.{
  LoadConfig, Env, Failure, start_extra_process, start_sidecar, open_gates, start_full_gates,
  start_full, first_error, create_box, stop_all_cores, set_tunnel_dns, launch,
}

-- The sidecar is up, the box is not.
record HasSidecar (s : Core) : Type 0 where
  no_box : s.box_instance ≡ none
  no_full : s.xray_full_gates ≡ []
  no_dns : s.need_unset_dns ≡ false
  tracked : Tracked s

record HasXray (s : Core) : Type 0 where
  no_box : s.box_instance ≡ none
  no_dns : s.need_unset_dns ≡ false
  tracked : Tracked s

record HasBox (s : Core) : Type 0 where
  box : is_some s.box_instance ≡ true
  no_dns : s.need_unset_dns ≡ false
  tracked : Tracked s

start_extra_process-Ensures :
    (req : LoadConfig) (env : Env) (s : Core)
    → Idle s
    → Ensures OnlyExtra (start_extra_process req env s)
unfolding start_extra_process is_xray_failure
start_extra_process-Ensures req env s h = ground arith

start_sidecar-Ensures :
    (req : LoadConfig) (env : Env) (s : Core)
    → OnlyExtra s
    → Ensures HasSidecar (start_sidecar req env s)
unfolding start_sidecar is_xray_failure held
start_sidecar-Ensures req env s h = ground arith

-- `t` is `s` with the gates `gs` opened.
record Opened (s : Core) (gs : List ℕ) (t : Core) : Type 0 where
  box : t.box_instance ≡ s.box_instance
  instance_ : t.xray_instance ≡ s.xray_instance
  gate : t.xray_gate ≡ s.xray_gate
  full : t.xray_full_gates ≡ s.xray_full_gates
  extra : t.extra_process ≡ s.extra_process
  dns : t.need_unset_dns ≡ s.need_unset_dns
  on : (n : ℕ) → t.live n ≡ (if contains n gs then true else s.live n)

open_gates-Opened :
    (configs : List (Option ℕ)) (s : Core)
    → Opened s (open_gates configs s).0 (open_gates configs s).1
unfolding open_gates contains
open_gates-Opened [] s = record {
  box = refl;
  instance_ = refl;
  gate = refl;
  full = refl;
  extra = refl;
  dns = refl;
  on = λ n. refl;
}
open_gates-Opened (none ∷ rest) s =
    let o = open_gates-Opened rest (opened s) in
    record {
      box = o.box;
      instance_ = o.instance_;
      gate = o.gate;
      full = o.full;
      extra = o.extra;
      dns = o.dns;
      on = λ n. ground (arith, o.on n);
    }
open_gates-Opened (some x ∷ rest) s = open_gates-Opened rest s

module _ (s t : Core) (gs : List ℕ) (o : Opened s gs t) (h : HasSidecar s) where
  full_done : HasXray (set_xray_full_gates gs t)
  unfolding held contains
  full_done = record {
    no_box = ground arith;
    no_dns = ground arith;
    tracked = λ n. ground (arith, o.on n, h.tracked n);
  }

  full_failed : (x : ℕ) → LeftOver (Failure.gate_start x) (close_xray (close_all gs t))
  unfolding held contains close_xray is_xray_failure
  full_failed x = record {
    only_extra = record {
      no_box = ground arith;
      no_xray = refl;
      no_gate = refl;
      no_full = refl;
      no_dns = ground arith;
      live_extra = λ n. ground (arith, o.on n, h.tracked n);
    };
    dead = λ e. cc;
  }

start_full_gates_first :
    (rest : List (Option ℕ)) (s : Core)
    → let (gates, t) = open_gates (none ∷ rest) s in
      ((first_error rest ≡ none) × (start_full_gates (none ∷ rest) s ≡ (gates, none, t)))
      ⊎ ((x : ℕ) × (start_full_gates (none ∷ rest) s ≡ ([], some x, close_all gates t)))
unfolding start_full_gates
start_full_gates_first rest s = elim (Option-cases (first_error rest)) [
  | inl e ↦ inl (e, rw (e, start_full_gates))
  | inr (x, e) ↦ inr (x, rw (e, start_full_gates))
]

start_full-Ensures :
    (configs : List (Option ℕ)) (env : Env) (s : Core)
    → env.full_gates ≡ configs
    → HasSidecar s
    → Ensures HasXray (start_full env s)
unfolding start_full close_xray contains
start_full-Ensures [] env s e h =
    rw (e, start_full) (record { no_box = h.no_box; no_dns = h.no_dns; tracked = h.tracked })
start_full-Ensures (some x ∷ rest) env s e h =
    rw (e, start_full) (unfold start_full_gates in full_failed s s [] none_open h x)
  where
    none_open : Opened s [] s
    none_open = record {
      box = refl;
      instance_ = refl;
      gate = refl;
      full = refl;
      extra = refl;
      dns = refl;
      on = λ n. unfold contains in refl;
    }
start_full-Ensures (none ∷ rest) env s e h =
    let o = open_gates-Opened (none ∷ rest) s in
    elim (start_full_gates_first rest s) [
      | inl (f, g) ↦ rw (e, start_full) (rw g (full_done s _ _ o h))
      | inr (x, g) ↦ rw (e, start_full) (rw g (full_failed s _ _ o h x))
    ]

create_box-Ensures : (env : Env) (s : Core) → HasXray s → Ensures HasBox (create_box env s)
unfolding create_box held close_xray stop_extra is_xray_failure
create_box-Ensures env s h = ground arith

set_tunnel_dns-Ensures :
    (req : LoadConfig) (env : Env) (s : Core)
    → HasBox s
    → Ensures (λ t. (is_some t.box_instance ≡ true) × Tracked t) (set_tunnel_dns req env s)
unfolding set_tunnel_dns stop_all_cores held close_xray stop_extra is_xray_failure
set_tunnel_dns-Ensures req env s h = ground arith

pub launch-Ensures :
    (req : LoadConfig) (env : Env) (s : Core)
    → Idle s
    → Ensures (λ t. (is_some t.box_instance ≡ true) × Tracked t) (launch req env s)
unfolding launch
launch-Ensures req env s h =
    then_-Ensures _ _ _ _ (start_extra_process-Ensures req env s h) λ s₁ h₁.
      then_-Ensures HasSidecar _ _ _
        (start_sidecar-Ensures req env (record s₁ { auto_redirect_mark = env.mark }) (marked s₁ h₁))
        λ s₂ h₂. then_-Ensures _ _ _ _ (start_full-Ensures env.full_gates env s₂ refl h₂) λ s₃ h₃.
          then_-Ensures _ _ _ _ (create_box-Ensures env s₃ h₃)
            λ s₄ h₄. set_tunnel_dns-Ensures req env s₄ h₄
  where
    marked : (s : Core) → OnlyExtra s → OnlyExtra (record s { auto_redirect_mark = env.mark })
    marked s h = record {
      no_box = h.no_box;
      no_xray = h.no_xray;
      no_gate = h.no_gate;
      no_full = h.no_full;
      no_dns = h.no_dns;
      live_extra = h.live_extra;
    }
