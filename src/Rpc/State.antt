-- ===== src/Rpc/State.antt =====
-- internal/rpc/state.go: the package's globals, with the running things that they point to.
-- A pointer to a box, an Xray instance, a gate or an extra process is a handle, a number; `live`
-- tells which handles name something that runs. lifecycleMu makes each Start and Stop one step.
use nunya_core.Common.{
  is_handle, ℕ, ◌+◌, ◌≡◌, Bool, true, false, ◌||◌, Option, none, List, [], ◌∷◌, ◌==◌, if◌then◌else◌,
}

pub record Core : Type 0 where
  pub box_instance : Option ℕ
  pub xray_instance : Option ℕ
  pub xray_gate : Option ℕ
  pub xray_full_gates : List ℕ
  pub extra_process : Option ℕ
  pub need_unset_dns : Bool
  pub auto_redirect_mark : ℕ
  pub live : ℕ → Bool
  pub next : ℕ

-- A new handle, for something that has just been started.
abbrev pub opened : Core → Core
opened s = record s { live = λ n. if n == s.next then true else s.live n; next = s.next + 1 }

unfoldable pub contains : ℕ → List ℕ → Bool
contains n [] = false
contains n (h ∷ hs) = n == h || contains n hs

-- Close, Stop or Kill of what some handles name; a second one changes nothing.
abbrev pub close_those : (ℕ → Bool) → Core → Core
close_those named s = record s { live = λ n. if named n then false else s.live n }

abbrev pub close : ℕ → Core → Core
close h = close_those (λ n. n == h)

-- Under `if p != nil`.
abbrev pub close_some : Option ℕ → Core → Core
close_some p = close_those (λ n. is_handle n p)

-- A loop over a slice.
abbrev pub close_all : List ℕ → Core → Core
close_all hs = close_those (λ n. contains n hs)

abbrev pub set_box_instance : Option ℕ → Core → Core
set_box_instance b s = record s { box_instance = b }

abbrev pub set_xray : Option ℕ → Option ℕ → Core → Core
set_xray instance gate s = record s { xray_instance = instance; xray_gate = gate }

abbrev pub set_xray_full_gates : List ℕ → Core → Core
set_xray_full_gates gates s = record s { xray_full_gates = gates }

-- internal/rpc/xray.go, closeXray.
unfoldable pub close_xray : Core → Core
close_xray s =
    let cleared = record s { xray_instance = none; xray_gate = none; xray_full_gates = [] } in
    close_some s.xray_instance (close_all s.xray_full_gates (close_some s.xray_gate cleared))

-- `if extraProcess != nil { extraProcess.Stop(); extraProcess = nil }`
unfoldable pub stop_extra : Core → Core
stop_extra s = record (close_some s.extra_process s) { extra_process = none }

-- Some global points to the handle.
unfoldable pub held : Core → ℕ → Bool
held s n =
    is_handle n s.box_instance
    || (is_handle n s.xray_instance
        || (is_handle n s.xray_gate
            || (contains n s.xray_full_gates || is_handle n s.extra_process)))

-- Nothing runs that no global points to.
abbrev pub Tracked : Core → Type 0
Tracked s = (n : ℕ) → s.live n ≡ true → held s n ≡ true
