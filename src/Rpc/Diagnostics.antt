-- ===== src/Rpc/Diagnostics.antt =====
-- internal/rpc/diagnostics.go: CaptureDiagnostics with captureDiagnosticsWindow, its profilers and the
-- names in the archive. What the runtime answers, and where a write into the archive panics, are
-- arguments.
pub mod Names
pub mod Released
use nunya_core.Common.{
  ℕ, ◌+◌, ◌*◌, ◌^◌, Bool, true, false, not, ◌&&◌, ◌||◌, Option, none, some, List, [], ◌∷◌, ◌++◌,
  ◌==◌, if◌then◌else◌, leb, ltb, codes, eq_text, contains, map,
}

-- The runtime's profilers and the package's variables; `stop` is a window's cancel function.
pub record Profilers : Type 0 where
  pub mutex_fraction : ℕ
  pub block_rate : ℕ
  pub cpu : Bool
  pub tracing : Bool
  pub locked : Bool  -- diagnosticsMu
  pub stop : Option ℕ

-- The functions that are deferred in a window.
pub data Deferred : Type 0 where
  restore_contention : ℕ → Deferred
  stop_recorder stop_cpu : Deferred

abbrev pub run_deferred : Deferred → Profilers → Profilers
run_deferred (restore_contention fraction) s = record s {
  mutex_fraction = fraction;
  block_rate = 0;
}
run_deferred stop_recorder s = record s { tracing = false }
run_deferred stop_cpu s = record s { cpu = false }

-- The function deferred last stands first.
unfoldable pub run_all : List Deferred → Profilers → Profilers
run_all [] s = s
run_all (d ∷ ds) s = run_all ds (run_deferred d s)

-- A window at work: the profilers and what is deferred so far.
pub record Window : Type 0 where
  pub state : Profilers
  pub deferred : List Deferred

-- Whether the two starts succeed, and whether each write into the archive panics.
pub record Answers : Type 0 where
  pub trace_starts : Bool
  pub cpu_starts : Bool
  pub early_panics : Bool  -- README.txt to heap-start.pprof
  pub start_panics : Bool  -- mutex-start.pprof, block-start.pprof
  pub cpu_panics : Bool  -- cpu.pprof
  pub trace_panics : Bool  -- trace.out

-- Where a step panics, the rest is not run.
abbrev pub unless : Bool → (Window → Window) → Window → Window
unless true rest w = w
unless false rest w = rest w

abbrev pub start_contention : Bool → Window → Window
start_contention false w = w
start_contention true w = record {
  state = record w.state { mutex_fraction = 10; block_rate = 100000 };
  deferred = restore_contention w.state.mutex_fraction ∷ w.deferred;
}

abbrev pub start_trace : Bool → Window → Window
start_trace false w = w
start_trace true w = record {
  state = record w.state { tracing = true };
  deferred = stop_recorder ∷ w.deferred;
}

abbrev pub start_cpu : Bool → Window → Window
start_cpu false w = w
start_cpu true w = record {
  state = record w.state { cpu = true };
  deferred = stop_cpu ∷ w.deferred;
}

-- After the wait: the CPU profile is stopped and written, then the trace is written and stopped, and
-- then the last profiles are written, which changes no profiler.
abbrev pub end_trace : Bool → Answers → Window → Window
end_trace false a w = w
end_trace true a w =
    unless a.trace_panics (λ v. record v { state = record v.state { tracing = false } }) w

abbrev pub end_cpu : Bool → Window → Window
end_cpu false w = w
end_cpu true w = record w { state = record w.state { cpu = false } }

abbrev pub finish_window : Bool → Answers → Window → Window
finish_window traced a w =
    unless (a.cpu_starts && a.cpu_panics) (end_trace traced a) (end_cpu a.cpu_starts w)

abbrev pub record_window : Bool → Answers → Window → Window
record_window with_trace a w =
    finish_window (with_trace && a.trace_starts) a
      (start_cpu a.cpu_starts (start_trace (with_trace && a.trace_starts) w))

-- captureDiagnosticsWindow, with what is deferred in it.
unfoldable pub capture_window : Bool → Bool → Answers → Profilers → Profilers
unfolding run_all
capture_window contention with_trace a s =
    let w =
      unless (contention && a.start_panics) (record_window with_trace a)
        (start_contention contention (record { state = s; deferred = [] })) in
    run_all w.deferred w.state

-- path.Base after every "\\" (92) has become a "/" (47).
abbrev pub slashed : List ℕ → List ℕ
slashed name = map (λ (c : ℕ). if c == 92 then 47 else c) name

abbrev pub or_slash : ℕ → List ℕ → List ℕ
or_slash c [] = if c == 47 then [] else c ∷ []
or_slash c (d ∷ rest) = c ∷ d ∷ rest

-- Without the slashes at its end.
unfoldable pub strip_slashes : List ℕ → List ℕ
strip_slashes [] = []
strip_slashes (c ∷ text) = or_slash c (strip_slashes text)

unfoldable pub last_element : List ℕ → List ℕ
unfolding contains
last_element [] = []
last_element (c ∷ text) =
    let rest = last_element text in
    if contains text 47 then rest else if c == 47 then text else c ∷ text

abbrev pub or_root : List ℕ → List ℕ
or_root [] = codes "/"
or_root (c ∷ text) = c ∷ text

abbrev pub base_name : List ℕ → List ℕ
base_name [] = codes "."
base_name (c ∷ name) = or_root (last_element (strip_slashes (c ∷ name)))

abbrev pub usable : List ℕ → List ℕ
usable b =
    if eq_text b (codes ".") || (eq_text b (codes "..") || eq_text b (codes "/")) then [] else b

unfoldable pub attachment_name : List ℕ → List ℕ
unfolding strip_slashes last_element eq_text
attachment_name name = usable (base_name (slashed name))

pub record Attachment : Type 0 where
  pub name : List ℕ
  pub size : ℕ

unfoldable pub attached_bytes : List Attachment → ℕ
attached_bytes [] = 0
attached_bytes (x ∷ xs) = x.size + attached_bytes xs

-- The names that the attachments have in the archive.
unfoldable pub entry_names : List Attachment → List (List ℕ)
unfolding attachment_name
entry_names [] = []
entry_names (x ∷ xs) =
    let name = attachment_name x.name in
    if eq_text name [] then entry_names xs else (codes "app/" ++ name) ∷ entry_names xs

-- A duration that is not positive is 0.
pub record Request : Type 0 where
  pub duration_ms : ℕ
  pub contention : Bool
  pub trace : Bool
  pub attachments : List Attachment

pub data CaptureReply : Type 0 where
  not_positive already_running too_large panicked : CaptureReply
  archive : List (List ℕ) → CaptureReply

abbrev pub window_panics : Request → Answers → Bool
window_panics req a =
    a.early_panics
    || ((req.contention && a.start_panics)
        || ((a.cpu_starts && a.cpu_panics) || (req.trace && (a.trace_starts && a.trace_panics))))

-- The window is not reached where an earlier write panics.
abbrev pub window_state : Request → Answers → Profilers → Bool → Profilers
window_state req a s true = s
window_state req a s false = capture_window req.contention req.trace a s

-- The rest of CaptureDiagnostics, up to the deferred unlock, by whether the attachments are too
-- large; `h` is the window's cancel function, and `late` tells whether a
-- later step panics or fails.
abbrev pub sized_capture :
    Request → Answers → Bool → ℕ → Profilers → Bool → CaptureReply × Profilers
sized_capture req a late h s true = (too_large, s)
sized_capture req a late h s false = (
  if window_panics req a || late then panicked else archive (entry_names req.attachments),
  record (window_state req a (record s { stop = some h }) a.early_panics) { stop = none },
)

abbrev pub unlocked : CaptureReply × Profilers → CaptureReply × Profilers
unlocked (reply, s) = (reply, record s { locked = false })

-- By whether the lock is held.
abbrev pub lock_capture : Request → Answers → Bool → ℕ → Profilers → Bool → CaptureReply × Profilers
lock_capture req a late h s true = (already_running, s)
lock_capture req a late h s false = unlocked (
    sized_capture req a late h (record s { locked = true })
      (ltb (32 * 2 ^ 20) (attached_bytes req.attachments)))

unfoldable pub capture_diagnostics :
    Request → Answers → Bool → ℕ → Profilers → CaptureReply × Profilers
capture_diagnostics req a late h s =
    if req.duration_ms == 0 then (not_positive, s) else lock_capture req a late h s s.locked
