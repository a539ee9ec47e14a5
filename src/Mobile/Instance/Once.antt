-- ===== src/Mobile/Instance/Once.antt =====
-- mobile/instance.go, Start and Close of one Instance, called by any number of goroutines. One step
-- is a critical section under stateAccess, or what a call does after it.
use nunya_core.Common.{ℕ, ◌+◌, ◌≡◌, ◌≤◌, Bool, true, false, if◌then◌else◌, arith}

pub record Life : Type 0 where
  pub started : Bool
  pub closed : Bool
  pub starting : ℕ  -- calls of Start before the end of the box's Start
  pub closing : ℕ  -- calls of Close before the teardown
  pub box_starts : ℕ
  pub teardowns : ℕ

abbrev pub new_life : Life
new_life = record {
  started = false;
  closed = false;
  starting = 0;
  closing = 0;
  box_starts = 0;
  teardowns = 0;
}

-- The locked part of Close.
unfoldable pub close_locked : Life → Life
close_locked l = if l.closed then l else record l { closed = true; closing = l.closing + 1 }

-- The locked part of Start; `true` is no error.
unfoldable pub start_locked : Life → Bool × Life
start_locked l =
    if l.closed
    then (false, l)
    else if l.started
    then (false, l)
    else (true, record l { started = true; starting = l.starting + 1 })

pub data Step (l : Life) : Life → Type 0 where
  calls_start : Step l (start_locked l).1
  box_starts_up :
      (n : ℕ)
      → l.starting ≡ n + 1
      → Step l (record l { starting = n; box_starts = l.box_starts + 1 })
  box_fails :
      (n : ℕ)
      → l.starting ≡ n + 1
      → Step l (close_locked (record l { starting = n; box_starts = l.box_starts + 1 }))
  calls_close : Step l (close_locked l)
  tears_down :
      (n : ℕ) → l.closing ≡ n + 1 → Step l (record l { closing = n; teardowns = l.teardowns + 1 })

pub data Reach : Life → Type 0 where
  made : Reach new_life
  goes : {l m : Life} → Reach l → Step l m → Reach m

record Tallied (l : Life) : Type 0 where
  starts : l.box_starts + l.starting ≡ (if l.started then 1 else 0)
  downs : l.teardowns + l.closing ≡ (if l.closed then 1 else 0)

Step-Tallied : {l m : Life} → Step l m → Tallied l → Tallied m
unfolding start_locked close_locked
Step-Tallied calls_start i = ground arith
Step-Tallied (box_starts_up n e) i = ground arith
Step-Tallied (box_fails n e) i = ground arith
Step-Tallied calls_close i = ground arith
Step-Tallied (tears_down n e) i = ground arith

Reach-Tallied : {l : Life} → Reach l → Tallied l
Reach-Tallied made = ground arith
Reach-Tallied (goes r s) = Step-Tallied s (Reach-Tallied r)

-- However calls of Start and Close are interleaved: the box's Start runs at most once, and only
-- after a Start was admitted; the teardown runs at most once, exactly once when the instance is
-- closed and no call of Close is at work, and never on an instance that is not closed.
pub teardowns-Reach :
    {l : Life}
    → Reach l
    → (l.box_starts + l.starting ≤ 1)
      × (l.started ≡ false → l.box_starts ≡ 0)
      × (l.teardowns + l.closing ≤ 1)
      × (l.closed ≡ true → l.closing ≡ 0 → l.teardowns ≡ 1)
      × (l.closed ≡ false → l.teardowns ≡ 0)
teardowns-Reach r = ground (arith, Reach-Tallied r)
