-- ===== src/Xray/Gate/Steps.antt =====
-- internal/xray/gate.go: the goroutines of a gate as a step relation. One step is what one of
-- serve, handle, sweep and Close does between two points where another may run.
use nunya_core.Common.{ℕ, ◌+◌, ◌≡◌, Bool, true, false, Option, none, some, List, [], ◌∷◌, ◌++◌}
use nunya_core.Xray.Gate.{
  Gate, Handler, Phase, accepted, tracked, counted, leaving, uncounted, gone, ready, dialed,
  relaying, waiting, checked, ended, closing, not_called, finished, marked, drained, Bringup, touch,
  track, forget, close_instance, close_some, ensure, is_idle, sweep_take, close_begin,
}

-- The gate as StartGate hands it out; its clock shows `now`.
abbrev pub started : ℕ → ℕ → Gate
started idle now = record {
  idle = idle;
  instance_ = none;
  closed = false;
  stopped = false;
  listening = true;
  conns = some [];
  active = 0;
  last_use = now;
  now = now;
  handlers = [];
  sweeper = waiting;
  closer = not_called;
  live = λ n. false;
  next = 0;
}

-- One handler of the list moves on.
abbrev pub moved : List Handler → ℕ → Phase → List Handler → Gate → Gate
moved front c p back g = record g { handlers = front ++ (record { conn = c; phase = p } ∷ back) }

abbrev pub At : Gate → List Handler → ℕ → Phase → List Handler → Type 0
At g front c p back = g.handlers ≡ front ++ (record { conn = c; phase = p } ∷ back)

-- After `track`: the connection is served, or closed at once.
abbrev pub if_tracked : Bool → Phase → Phase → Phase
if_tracked true p q = p
if_tracked false p q = q

-- After `ensure`.
abbrev pub if_ready : Option ℕ → Phase
if_ready none = leaving
if_ready (some h) = ready h

pub data Step (g : Gate) : Gate → Type 0 where
  clock : Step g (record g { now = g.now + 1 })
  accept :
      (c : ℕ)
      → g.listening ≡ true
      → Step g (record g { handlers = record { conn = c; phase = accepted } ∷ g.handlers })
  track_conn :
      (front : List Handler) (c : ℕ) (back : List Handler)
      → At g front c accepted back
      → Step g (moved front c (if_tracked (track c g).0 tracked gone) back (track c g).1)
  count :
      (front : List Handler) (c : ℕ) (back : List Handler)
      → At g front c tracked back
      → Step g (moved front c counted back (touch (record g { active = g.active + 1 })))
  bring :
      (front : List Handler) (c : ℕ) (back : List Handler) (b : Bringup)
      → At g front c counted back
      → Step g (moved front c (if_ready (ensure b g).0) back (ensure b g).1)
  dial :
      (front : List Handler) (c h u : ℕ) (back : List Handler)
      → At g front c (ready h) back
      → Step g (moved front c (dialed u) back g)
  dial_fails :
      (front : List Handler) (c h : ℕ) (back : List Handler)
      → At g front c (ready h) back
      → Step g (moved front c leaving back g)
  track_upstream :
      (front : List Handler) (c u : ℕ) (back : List Handler)
      → At g front c (dialed u) back
      → Step g (moved front c (if_tracked (track u g).0 (relaying u) leaving) back (track u g).1)
  relay_ends :
      (front : List Handler) (c u : ℕ) (back : List Handler)
      → At g front c (relaying u) back
      → Step g (moved front c leaving back (forget u g))
  uncount :
      (front : List Handler) (c : ℕ) (back : List Handler) (n : ℕ)
      → At g front c leaving back
      → g.active ≡ n + 1
      → Step g (moved front c uncounted back (touch (record g { active = n })))
  finish :
      (front : List Handler) (c : ℕ) (back : List Handler)
      → At g front c uncounted back
      → Step g (moved front c gone back (forget c g))
  tick_idle : g.sweeper ≡ waiting → is_idle g ≡ true → Step g (record g { sweeper = checked })
  sweep_locked : g.sweeper ≡ checked → Step g (sweep_take g)
  sweep_close :
      (h : ℕ) → g.sweeper ≡ closing h → Step g (close_instance h (record g { sweeper = waiting }))
  sweep_ends : g.sweeper ≡ waiting → g.stopped ≡ true → Step g (record g { sweeper = ended })
  close_call : g.closed ≡ false → Step g (close_begin g)
  close_doors :
      (o : Option ℕ)
      → g.closer ≡ marked o
      → Step g (record g { stopped = true; listening = false; conns = none; closer = drained o })
  close_ends :
      (o : Option ℕ) → g.closer ≡ drained o → Step g (close_some o (record g { closer = finished }))

pub data Reach (idle start : ℕ) : Gate → Type 0 where
  here : Reach idle start (started idle start)
  step : {g g' : Gate} → Reach idle start g → Step g g' → Reach idle start g'
