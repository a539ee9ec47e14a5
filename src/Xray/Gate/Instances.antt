-- ===== src/Xray/Gate/Instances.antt =====
-- No instance is lost: each one that runs is the gate's or is about to be closed.
use nunya_core.Common.{
  is_handle, ℕ, ◌+◌, ◌≡◌, ◌<◌, refl, subst, Bool, true, false, ◌||◌, ◌==◌, Option, none, some, List,
  ◌∷◌, ◌++◌, arith,
}
use nunya_core.Xray.Gate.{
  Gate, Handler, Phase, Sweeper, waiting, checked, ended, closing, Closer, not_called, finished,
  marked, drained, Bringup, succeeds, track, forget, ensure, sweep_take, close_begin, touch,
  close_instance,
}
use nunya_core.Xray.Gate.Steps.{
  moved, if_ready, Step, clock, accept, track_conn, count, bring, dial, dial_fails, track_upstream,
  relay_ends, uncount, finish, tick_idle, sweep_locked, sweep_close, sweep_ends, close_call,
  close_doors, close_ends, Reach, here, step,
}

abbrev sweeps : ℕ → Sweeper → Bool
sweeps n (closing h) = n == h
sweeps n _ = false

abbrev closes : ℕ → Closer → Bool
closes n (marked o) = is_handle n o
closes n (drained o) = is_handle n o
closes n _ = false

abbrev is_called : Closer → Bool
is_called not_called = false
is_called _ = true

-- At each handle `n`.
pub record Owned (n : ℕ) (g : Gate) : Type 0 where
  pub owned :
      g.live n ≡ true
      → (is_handle n g.instance_ || (sweeps n g.sweeper || closes n g.closer)) ≡ true
  pub runs : is_handle n g.instance_ ≡ true → g.live n ≡ true
  pub fresh : g.live n ≡ true → n < g.next
  pub apart : sweeps n g.sweeper ≡ true → (is_handle n g.instance_ ≡ false) × (n < g.next)
  pub apart_closer : closes n g.closer ≡ true → is_handle n g.instance_ ≡ false
  pub shut : g.closed ≡ true → g.instance_ ≡ none
  pub called : is_called g.closer ≡ g.closed

Step-Owned : (n : ℕ) {g g' : Gate} → Step g g' → Owned n g → Owned n g'
Step-Owned n clock i = ground arith
Step-Owned n (accept c l) i = ground arith
Step-Owned n (track_conn front c back a) i = unfold track in ground arith
Step-Owned n (count front c back a) i = ground arith
Step-Owned n (bring front c back b a) i = unfold ensure in ground arith
Step-Owned n (dial front c h u back a) i = ground arith
Step-Owned n (dial_fails front c h back a) i = ground arith
Step-Owned n (track_upstream front c u back a) i = unfold track in ground arith
Step-Owned n (relay_ends front c u back a) i = unfold forget in ground arith
Step-Owned n (uncount front c back k a e) i = ground arith
Step-Owned n (finish front c back a) i = unfold forget in ground arith
Step-Owned n (tick_idle w t) i = ground arith
Step-Owned n (sweep_locked e) i = unfold sweep_take in ground arith
Step-Owned n (sweep_close h e) i = ground arith
Step-Owned n (sweep_ends e t) i = ground arith
Step-Owned n (close_call e) i = unfold close_begin in ground arith
Step-Owned n (close_doors o e) i = ground arith
Step-Owned n (close_ends o e) i = ground arith

pub Reach-Owned : (n : ℕ) {idle now : ℕ} {g : Gate} → Reach idle now g → Owned n g
Reach-Owned n here = ground arith
Reach-Owned n (step r s) = Step-Owned n s (Reach-Owned n r)

-- In a reachable state where Close has ended, an instance that runs is the one that the sweeper is
-- about to close.
pub close-Reach :
    (n : ℕ) {idle now : ℕ} {g : Gate}
    → Reach idle now g
    → g.closer ≡ finished
    → g.live n ≡ true
    → g.sweeper ≡ closing n
close-Reach n {g = g} r e l = by_sweeper g.sweeper refl
  where
    by_sweeper : (w : Sweeper) → g.sweeper ≡ w → g.sweeper ≡ closing n
    by_sweeper waiting w = absurd (ground (arith, Reach-Owned n r))
    by_sweeper checked w = absurd (ground (arith, Reach-Owned n r))
    by_sweeper ended w = absurd (ground (arith, Reach-Owned n r))
    by_sweeper (closing h) w = ground (arith, Reach-Owned n r)

-- Two instances run at once only while one of them is being closed.
pub one_instance :
    (m n : ℕ) {idle now : ℕ} {g : Gate}
    → Reach idle now g
    → g.live m ≡ true
    → g.live n ≡ true
    → sweeps m g.sweeper ≡ false
    → sweeps n g.sweeper ≡ false
    → g.closed ≡ false
    → m ≡ n
one_instance m n {g = g} r lm ln sm sn open_ = ground (arith, Reach-Owned m r, Reach-Owned n r)

-- In a reachable state, an instance that `ensure` hands to a connection runs and is the gate's, and
-- the gate is not closed; after an error of `ensure` the gate has no instance.
pub ensure-Reach :
    (b : Bringup) {idle now : ℕ} {g : Gate}
    → Reach idle now g
    → ((h : ℕ)
        → (ensure b g).0 ≡ some h
        → ((ensure b g).1.live h ≡ true) × ((ensure b g).1.instance_ ≡ some h) × (g.closed ≡ false))
      × ((ensure b g).0 ≡ none → (ensure b g).1.instance_ ≡ none)
unfolding ensure
ensure-Reach b {g = g} r =
    ((λ h e. ground (arith, Reach-Owned h r)), (λ e. ground (arith, Reach-Owned 0 r)))

ensure_running :
    (b : Bringup) (g : Gate) (h : ℕ)
    → g.closed ≡ false
    → g.instance_ ≡ some h
    → ensure b g ≡ (some h, g)
unfolding ensure
ensure_running b g h o e = ground arith

sweep_take_running :
    (g : Gate) (h : ℕ)
    → g.instance_ ≡ some h
    → sweep_take g ≡ record g { instance_ = none; sweeper = closing h }
unfolding sweep_take
sweep_take_running g h e = ground arith

-- From a reachable state where the sweeper has made its tests and not yet locked the gate, an
-- instance is up and a connection is tracked, a state is reachable where that connection is counted
-- and has been handed this instance, the gate is not closed, and the instance no longer runs.
pub ready_swept :
    (h c : ℕ) (front back : List Handler) {idle now : ℕ} {g : Gate}
    → Reach idle now g
    → g.sweeper ≡ checked
    → g.instance_ ≡ some h
    → g.handlers ≡ front ++ (record { conn = c; phase = Phase.tracked } ∷ back)
    → (g' : Gate) × Reach idle now g'
      × (g'.handlers ≡ front ++ (record { conn = c; phase = Phase.ready h } ∷ back))
      × (g'.active ≡ g.active + 1)
      × (g'.closed ≡ false)
      × (g'.live h ≡ false)
ready_swept h c front back {idle} {now} {g} r w e a = (
  lost,
  step (step (step (step r (count front c back a)) handed) taken) (sweep_close h refl),
  refl,
  refl,
  is_open,
  ground arith,
)
  where
    is_open : g.closed ≡ false
    is_open = ground (arith, Reach-Owned h r)

    in_use : Gate
    in_use = moved front c Phase.counted back (touch (record g { active = g.active + 1 }))

    handed : Step in_use (moved front c (Phase.ready h) back in_use)
    handed =
        subst (λ (p : Option ℕ × Gate). Step in_use (moved front c (if_ready p.0) back p.1))
          (ensure_running succeeds in_use h is_open e) (bring front c back succeeds refl)

    idle_again : Gate
    idle_again = record (moved front c (Phase.ready h) back in_use) {
      instance_ = none;
      sweeper = closing h;
    }

    taken : Step (moved front c (Phase.ready h) back in_use) idle_again
    taken =
        subst (Step (moved front c (Phase.ready h) back in_use))
          (sweep_take_running (moved front c (Phase.ready h) back in_use) h e) (sweep_locked w)

    lost : Gate
    lost = close_instance h (record idle_again { sweeper = waiting })
