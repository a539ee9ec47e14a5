-- ===== src/Process/Lifecycle/Removed.antt =====
-- The path to clean up is there while the child runs, and gone afterwards.
use nunya_core.Common.{◌≡◌, refl, Bool, true, false, not, ◌&&◌, ◌||◌, arith}
use nunya_core.Process.Lifecycle.{
  Phase, fresh, refused, Waiter, absent, waiting, waited, ended, Stopper, stopped, Process,
  new_process, cleanup, Step, start_fails, starts, exits, waits, cleans, marks, kills, stops, Reach,
  here, next,
}

abbrev pub is_refused : Phase → Bool
is_refused refused = true
is_refused _ = false

abbrev pub is_ended : Waiter → Bool
is_ended ended = true
is_ended _ = false

abbrev pub is_stopped : Stopper → Bool
is_stopped stopped = true
is_stopped _ = false

abbrev is_waiting : Waiter → Bool
is_waiting waiting = true
is_waiting _ = false

abbrev pub is_waited : Waiter → Bool
is_waited waited = true
is_waited _ = false

abbrev is_absent : Waiter → Bool
is_absent absent = true
is_absent _ = false

abbrev is_fresh : Phase → Bool
is_fresh fresh = true
is_fresh _ = false

-- What has removed the path.
abbrev pub is_over : Process → Bool
is_over p = is_refused p.phase || is_ended p.waiter || is_stopped p.stopper

record ProcessInv (p : Process) : Type 0 where
  path : p.path ≡ (p.has_path && not (is_over p))
  early : (is_fresh p.phase && not (is_absent p.waiter)) ≡ false
  watched : (p.alive && not (is_waiting p.waiter)) ≡ false

Step-ProcessInv : {p q : Process} → Step p q → ProcessInv p → ProcessInv q
unfolding cleanup
Step-ProcessInv (start_fails p e) i = ground arith
Step-ProcessInv (starts p e) i = ground arith
Step-ProcessInv (exits p e) i = ground arith
Step-ProcessInv (waits p e f) i = ground arith
Step-ProcessInv (cleans p e) i = ground arith
Step-ProcessInv (marks p e) i = ground arith
Step-ProcessInv (kills p e) i = ground arith
Step-ProcessInv (stops p e) i = ground arith

Reach-ProcessInv : {has_path : Bool} {p : Process} → Reach (new_process has_path) p → ProcessInv p
Reach-ProcessInv {has_path} here = record { path = ground arith; early = refl; watched = refl }
Reach-ProcessInv (next r st) = Step-ProcessInv st (Reach-ProcessInv r)

-- In every reachable state of a Process that is started once: the path to clean up, if it has one, is
-- gone exactly if startChild has failed, or the goroutine that waits for the child or a Stop has
-- come to its end; and while the child runs, that goroutine has not gone past its Wait.
pub path-Reach :
    {has_path : Bool} {p : Process}
    → Reach (new_process has_path) p
    → (p.path ≡ (p.has_path && not (is_over p)))
      × ((p.alive && (is_ended p.waiter || is_waited p.waiter)) ≡ false)
path-Reach {has_path} {p} r = let i = Reach-ProcessInv r in (i.path, ground (arith, i.watched))
