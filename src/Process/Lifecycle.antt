-- ===== src/Process/Lifecycle.antt =====
-- internal/process/process.go: Start, Stop and the goroutine that waits, as a step relation. A Process
-- is started once; startChild may fail, the child may end at any time, and RemoveAll removes the path.
pub mod Removed
use nunya_core.Common.{ℕ, ◌+◌, suc, ◌≡◌, Bool, true, false, not, if◌then◌else◌}

pub data Phase : Type 0 where
  fresh : Phase
  refused : Phase  -- startChild has failed
  started : Phase

pub data Waiter : Type 0 where
  absent : Waiter
  waiting : Waiter
  waited : Waiter  -- Wait has returned
  ended : Waiter

pub data Stopper : Type 0 where
  idle : Stopper
  marked : Stopper
  killed : Stopper
  stopped : Stopper

pub record Process : Type 0 where
  pub has_path : Bool  -- cleanupPath is not empty
  pub path : Bool  -- it is there
  pub phase : Phase
  pub alive : Bool  -- the child
  pub waiter : Waiter
  pub stopper : Stopper
  pub stop_flag : Bool
  pub warnings : ℕ  -- "exited unexpectedly"

abbrev pub new_process : Bool → Process
new_process has_path = record {
  has_path = has_path;
  path = has_path;
  phase = fresh;
  alive = false;
  waiter = absent;
  stopper = idle;
  stop_flag = false;
  warnings = 0;
}

unfoldable pub cleanup : Process → Process
cleanup p = if p.has_path then record p { path = false } else p

-- The kill of a child, if there is one.
abbrev pub kill : Phase → Process → Process
kill started p = record p { alive = false; stopper = killed }
kill _ p = record p { stopper = killed }

pub data Step : Process → Process → Type 0 where
  start_fails : (p : Process) → p.phase ≡ fresh → Step p (record (cleanup p) { phase = refused })
  starts :
      (p : Process)
      → p.phase ≡ fresh
      → Step p (record p { phase = started; alive = true; waiter = waiting; stop_flag = false })
  exits : (p : Process) → p.phase ≡ started → Step p (record p { alive = false })
  waits :
      (p : Process) → p.waiter ≡ waiting → p.alive ≡ false → Step p (record p { waiter = waited })
  cleans :
      (p : Process)
      → p.waiter ≡ waited
      → Step p (record (cleanup p) {
        waiter = ended;
        warnings = if p.stop_flag then p.warnings else suc p.warnings;
      })
  marks :
      (p : Process) → p.stopper ≡ idle → Step p (record p { stop_flag = true; stopper = marked })
  kills : (p : Process) → p.stopper ≡ marked → Step p (kill p.phase p)
  stops : (p : Process) → p.stopper ≡ killed → Step p (record (cleanup p) { stopper = stopped })

pub data Reach (p : Process) : Process → Type 0 where
  here : Reach p p
  next : {q r : Process} → Reach p q → Step q r → Reach p r
