-- ===== src/Rpc/Lifecycle/Resources.antt =====
-- What runs after a Start and after a Stop.
use nunya_core.Common.{
  ℕ, ◌≡◌, ◌≢◌, refl, Bool, true, false, none, some, [], arith, inl, inr, Option-cases,
}
use nunya_core.Rpc.State.{Core, close_xray, stop_extra, held, Tracked}
use nunya_core.Rpc.Lifecycle.{Result, done, fail, Failure, stop, already_started, then_}

-- Start finds nothing running: what it may find is the name of a process that is gone.
pub record Idle (s : Core) : Type 0 where
  pub no_box : s.box_instance ≡ none
  pub no_xray : s.xray_instance ≡ none
  pub no_gate : s.xray_gate ≡ none
  pub no_full : s.xray_full_gates ≡ []
  pub no_dns : s.need_unset_dns ≡ false
  pub dead : (n : ℕ) → s.live n ≡ false

-- After Stop of a tracked core nothing runs and every global is reset.
pub stop-Idle :
    (s : Core)
    → Tracked s
    → s.box_instance ≢ none
    → Idle (stop s) × ((stop s).auto_redirect_mark ≡ 0)
unfolding stop close_xray stop_extra held
stop-Idle s t b = elim (Option-cases s.box_instance) [
  | inl e ↦ absurd (b e)
  | inr (h, e) ↦
      rw (e, stop)
        (
          record {
            no_box = refl;
            no_xray = refl;
            no_gate = refl;
            no_full = refl;
            no_dns = refl;
            dead = λ n. ground (arith, t n);
          },
          refl,
        )
]

-- The failures of the Xray stages, which come after the extra process has been started.
unfoldable pub is_xray_failure : Failure → Bool
is_xray_failure (Failure.gate_start x) = true
is_xray_failure (Failure.xray_create x) = true
is_xray_failure (Failure.xray_prepare x) = true
is_xray_failure (Failure.xray_start x) = true
is_xray_failure already_started = false
is_xray_failure _ = false

-- No Xray and no box: what may run is the extra process.
pub record OnlyExtra (s : Core) : Type 0 where
  pub no_box : s.box_instance ≡ none
  pub no_xray : s.xray_instance ≡ none
  pub no_gate : s.xray_gate ≡ none
  pub no_full : s.xray_full_gates ≡ []
  pub no_dns : s.need_unset_dns ≡ false
  pub live_extra : (n : ℕ) → s.live n ≡ true → s.extra_process ≡ some n

-- What a failed Start leaves behind: the extra process at most, and that only where the Xray side
-- failed.
pub record LeftOver (e : Failure) (s : Core) : Type 0 where
  pub only_extra : OnlyExtra s
  pub dead : is_xray_failure e ≡ false → (n : ℕ) → s.live n ≡ false

abbrev pub Ensures : (Core → Type 0) → Result → Type 0
Ensures P (done s) = P s
Ensures P (fail e s) = LeftOver e s

pub then_-Ensures :
    (P Q : Core → Type 0) (r : Result) (f : Core → Result)
    → Ensures P r
    → ((s : Core) → P s → Ensures Q (f s))
    → Ensures Q (then_ r f)
then_-Ensures P Q (done s) f h k = k s h
then_-Ensures P Q (fail e s) f h k = h
