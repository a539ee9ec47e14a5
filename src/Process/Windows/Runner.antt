-- ===== src/Process/Windows/Runner.antt =====
-- internal/process/process_windows.go: tokenRunner as a step relation. One goroutine calls Wait, two
-- pumps copy the output, any goroutine may call Kill, and the child may end at any time. `faults`
-- counts calls with a handle that is not open.
pub mod Closed
use nunya_core.Common.{ℕ, ◌+◌, zero, suc, ◌≡◌, Bool, true, false, if◌then◌else◌}

pub data Waiter : Type 0 where
  before : Waiter
  waiting : Waiter
  draining : ℕ → Waiter  -- the values still to be taken from `done`
  returned : Waiter

pub record Runner : Type 0 where
  pub set : Bool  -- hProcess is not 0
  pub process : Bool  -- the handle is open
  pub out_read : Bool
  pub err_read : Bool
  pub done : ℕ
  pub ended : Bool  -- the child
  pub waiter : Waiter
  pub faults : ℕ

abbrev pub started : Runner
started = record {
  set = true;
  process = true;
  out_read = true;
  err_read = true;
  done = 0;
  ended = false;
  waiter = before;
  faults = 0;
}

unfoldable pub used : Bool → Runner → Runner
used true r = r
used false r = record r { faults = suc r.faults }

-- The first lines of Wait.
unfoldable pub enter : Bool → Runner → Runner
enter false r = record r { waiter = returned }
enter true r = record r { waiter = waiting }

-- The last lines of Wait, under the lock.
unfoldable pub close_process : Bool → Runner → Runner
unfolding used
close_process false r = record r { waiter = returned }
close_process true r = record (used r.process r) { process = false; set = false; waiter = returned }

-- TerminateProcess; what it does to the child is a step `ends`.
unfoldable pub kill : Bool → Runner → Runner
unfolding used
kill false r = r
kill true r = used r.process r

pub data Step : Runner → Runner → Type 0 where
  ends : (r : Runner) → Step r (record r { ended = true })
  out_pumped :
      (r : Runner) → r.out_read ≡ true → Step r (record r { out_read = false; done = suc r.done })
  err_pumped :
      (r : Runner) → r.err_read ≡ true → Step r (record r { err_read = false; done = suc r.done })
  waits : (r : Runner) → r.waiter ≡ before → Step r (enter r.set r)
  signaled :
      (r : Runner)
      → r.waiter ≡ waiting
      → r.ended ≡ true
      → Step r (record (used r.process r) { waiter = draining 2 })
  drained :
      (r : Runner) (k d : ℕ)
      → r.waiter ≡ draining (suc k)
      → r.done ≡ suc d
      → Step r (record r { waiter = draining k; done = d })
  closes : (r : Runner) → r.waiter ≡ draining 0 → Step r (close_process r.set r)
  kills : (r : Runner) → Step r (kill r.set r)

pub data Reach (r : Runner) : Runner → Type 0 where
  here : Reach r r
  next : {s t : Runner} → Reach r s → Step s t → Reach r t
