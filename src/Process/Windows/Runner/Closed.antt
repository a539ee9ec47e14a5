-- ===== src/Process/Windows/Runner/Closed.antt =====
-- The handle of the child is closed once, and not used afterwards; Wait returns.
use nunya_core.Common.{ℕ, ◌+◌, zero, suc, ◌≡◌, refl, Bool, true, false, not, ◌&&◌, ◌||◌, arith}
use nunya_core.Process.Windows.Runner.{
  Waiter, before, waiting, draining, returned, Runner, started, used, enter, close_process, kill,
  Step, ends, out_pumped, err_pumped, waits, signaled, drained, closes, kills, Reach, here, next,
}

abbrev closed : Bool → ℕ
closed true = 0
closed false = 1

abbrev left : Waiter → ℕ
left before = 2
left waiting = 2
left (draining k) = k
left returned = 0

abbrev holds : Waiter → Bool
holds returned = false
holds _ = true

abbrev pub is_returned : Waiter → Bool
is_returned returned = true
is_returned _ = false

pub record RunnerInv (r : Runner) : Type 0 where
  pub agrees : r.process ≡ r.set
  pub counted : r.done + 2 ≡ closed r.out_read + closed r.err_read + left r.waiter
  pub open_ : r.process ≡ holds r.waiter
  pub sound : r.faults ≡ 0

Step-RunnerInv : {r s : Runner} → Step r s → RunnerInv r → RunnerInv s
unfolding used enter close_process kill
Step-RunnerInv (ends r) i = ground arith
Step-RunnerInv (out_pumped r e) i = ground arith
Step-RunnerInv (err_pumped r e) i = ground arith
Step-RunnerInv (waits r e) i = ground arith
Step-RunnerInv (signaled r e d) i = ground arith
Step-RunnerInv (drained r k d e q) i = ground arith
Step-RunnerInv (closes r e) i = ground arith
Step-RunnerInv (kills r) i = ground arith

Reach-RunnerInv : {s : Runner} → Reach started s → RunnerInv s
Reach-RunnerInv here = record { agrees = refl; counted = omega arith; open_ = refl; sound = refl }
Reach-RunnerInv (next r st) = Step-RunnerInv st (Reach-RunnerInv r)

pub Reach-trans : {r s t : Runner} → Reach r s → Reach s t → Reach r t
Reach-trans a here = a
Reach-trans a (next b st) = next (Reach-trans a b) st

-- A run in which Wait returns.
abbrev Returns : Runner → Type 0
Returns s = (t : Runner) × Reach s t × (t.waiter ≡ returned)

by_step : {s t : Runner} → Step s t → Returns t → Returns s
by_step st (t, r, e) = (t, Reach-trans (next here st) r, e)

record Pumped (s : Runner) : Type 0 where
  inv : RunnerInv s
  out_done : s.out_read ≡ false
  err_done : s.err_read ≡ false
  over : s.ended ≡ true

close_process-returned : (b : Bool) (s : Runner) → (close_process b s).waiter ≡ returned
unfolding close_process
close_process-returned false s = refl
close_process-returned true s = refl

draining-Returns : (k : ℕ) (s : Runner) → Pumped s → s.waiter ≡ draining k → Returns s
draining-Returns zero s p e =
    (close_process s.set s, next here (closes s e), close_process-returned s.set s)
draining-Returns (suc k) s p e =
    let st : Step s (record s { waiter = draining k; done = k }) =
      drained s k k e (ground (arith, p.inv.counted, p.out_done, p.err_done)) in
    by_step st (
      draining-Returns k _
        (record {
          inv = Step-RunnerInv st p.inv;
          out_done = p.out_done;
          err_done = p.err_done;
          over = p.over;
        })
        refl)

waiting-Returns : (s : Runner) → Pumped s → s.waiter ≡ waiting → Returns s
unfolding used
waiting-Returns s p e =
    let st = signaled s e p.over in
    by_step st (
      draining-Returns 2 _
        (record {
          inv = Step-RunnerInv st p.inv;
          out_done = ground (arith, p.out_done);
          err_done = ground (arith, p.err_done);
          over = ground (arith, p.over);
        })
        refl)

before-Returns : (s : Runner) → Pumped s → s.waiter ≡ before → Returns s
unfolding enter
before-Returns s p e =
    let st = waits s e in
    by_step st (
      waiting-Returns _
        (record {
          inv = Step-RunnerInv st p.inv;
          out_done = ground (arith, p.out_done);
          err_done = ground (arith, p.err_done);
          over = ground (arith, p.over);
        })
        (ground (arith, p.inv.agrees, p.inv.open_)))

Pumped-Returns : (s : Runner) (w : Waiter) → Pumped s → s.waiter ≡ w → Returns s
Pumped-Returns s before p e = before-Returns s p e
Pumped-Returns s waiting p e = waiting-Returns s p e
Pumped-Returns s (draining k) p e = draining-Returns k s p e
Pumped-Returns s returned p e = (s, here, e)

both-Returns : (s : Runner) → RunnerInv s → s.out_read ≡ false → s.err_read ≡ false → Returns s
both-Returns s i o e = by_step (ends s) (
    Pumped-Returns (record s { ended = true }) _
      (record { inv = Step-RunnerInv (ends s) i; out_done = o; err_done = e; over = refl }) refl)

err-Returns :
    (s : Runner) (b : Bool) → RunnerInv s → s.out_read ≡ false → s.err_read ≡ b → Returns s
err-Returns s false i o e = both-Returns s i o e
err-Returns s true i o e =
    let st = err_pumped s e in by_step st (both-Returns _ (Step-RunnerInv st i) o refl)

out-Returns : (s : Runner) (b : Bool) → RunnerInv s → s.out_read ≡ b → Returns s
out-Returns s false i e = err-Returns s s.err_read i e refl
out-Returns s true i e =
    let st = out_pumped s e in by_step st (err-Returns _ s.err_read (Step-RunnerInv st i) refl refl)

-- In every reachable state of a tokenRunner: no call was made with a closed handle, neither by Wait
-- nor by Kill; the handle of the child is open as long as Wait has not returned, and hProcess is 0
-- exactly if it is closed; when Wait has returned, the read ends of both pipes are closed too. And
-- Wait can always go on to return, once the child and its output end.
pub runner-Reach :
    {s : Runner}
    → Reach started s
    → (s.faults ≡ 0)
      × (s.process ≡ not (is_returned s.waiter))
      × (s.process ≡ s.set)
      × ((is_returned s.waiter && (s.out_read || s.err_read)) ≡ false)
      × ((t : Runner) × Reach s t × (t.waiter ≡ returned))
runner-Reach {s} r =
    let i = Reach-RunnerInv r in
    (
      i.sound,
      ground (arith, i.open_),
      i.agrees,
      ground (arith, i.counted),
      out-Returns s s.out_read i refl,
    )
