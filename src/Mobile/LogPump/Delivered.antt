-- ===== src/Mobile/LogPump/Delivered.antt =====
-- No line is lost that the limit does not push out, and none waits for a wake-up that never comes.
use nunya_core.Common.{
  ℕ, ◌+◌, ◌≡◌, ◌<◌, Bool, true, false, none, some, List, [], ◌∷◌, length, length-append, arith,
  is_some,
}
use nunya_core.Mobile.LogPump.{
  Pump, Runner, not_started, asleep, enqueue, Step, sets_sink, sets_limit, pushes, starts, wakes,
  wakes_up, takes, writes, batch_ends, Reach, idle, then_,
}

abbrev pub is_asleep : Runner → Bool
is_asleep asleep = true
is_asleep _ = false

abbrev pub is_started : Runner → Bool
is_started not_started = false
is_started _ = true

record Woken (p : Pump) : Type 0 where
  -- A goroutine that sleeps over waiting lines has a wake-up in the channel or on its way.
  woken :
      is_asleep p.runner ≡ true
      → is_some p.sink ≡ true
      → 0 < length p.pending
      → p.notify ≡ false
      → 0 < p.wakers + p.setters
  served : is_some p.sink ≡ true → is_started p.runner ≡ false → 0 < p.setters

Step-Woken : {p q : Pump} → Step p q → Woken p → Woken q
unfolding enqueue
Step-Woken (sets_sink none) i = ground arith
Step-Woken (sets_sink (some s)) i = ground arith
Step-Woken (sets_limit n) i = ground arith
Step-Woken {p} (pushes line) i = ground (arith, length-append p.pending (line ∷ []))
Step-Woken (starts n e) i = ground arith
Step-Woken (wakes n e) i = ground arith
Step-Woken (wakes_up e n) i = ground arith
Step-Woken (takes e) i = ground arith
Step-Woken (writes s l ls e) i = ground arith
Step-Woken (batch_ends s e) i = ground arith

Reach-Woken : {ls : List ℕ} {p : Pump} → Reach ls p → Woken p
Reach-Woken idle = ground arith
Reach-Woken (then_ r s) = Step-Woken s (Reach-Woken r)

-- In a reachable state where a sink is set, no call of setSink is at work and none is about to wake
-- the goroutine: the goroutine has been started, and if lines are queued it is not asleep without a
-- wake-up in the channel.
pub pending-Reach :
    {ls : List ℕ} {p : Pump}
    → Reach ls p
    → is_some p.sink ≡ true
    → p.setters ≡ 0
    → p.wakers ≡ 0
    → (is_started p.runner ≡ true)
      × (0 < length p.pending → is_asleep p.runner ≡ true → p.notify ≡ true)
pending-Reach r s x w = ground (arith, Reach-Woken r)
