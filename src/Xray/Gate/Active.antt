-- ===== src/Xray/Gate/Active.antt =====
-- The counter of active connections, which the sweeper trusts.
use nunya_core.Common.{
  ℕ, ◌+◌, ◌≡◌, ◌<◌, ◌≤◌, refl, Bool, true, false, Option, none, some, List, [], ◌∷◌, ◌++◌, arith,
}
use nunya_core.Xray.Gate.{
  Gate, Handler, Phase, accepted, tracked, counted, leaving, uncounted, gone, ready, dialed,
  relaying, track, forget, ensure, is_idle, sweep_take, close_begin, close_some, Bringup,
}
use nunya_core.Xray.Gate.Steps.{
  Step, clock, accept, track_conn, count, bring, dial, dial_fails, track_upstream, relay_ends,
  uncount, finish, tick_idle, sweep_locked, sweep_close, sweep_ends, close_call, close_doors,
  close_ends, Reach, here, step, if_tracked, if_ready,
}

-- One for a handler that has been counted and not yet uncounted.
abbrev weight : Phase → ℕ
weight counted = 1
weight leaving = 1
weight (ready h) = 1
weight (dialed u) = 1
weight (relaying u) = 1
weight _ = 0

pub in_use : List Handler → ℕ
in_use [] = 0
in_use (h ∷ hs) = weight h.phase + in_use hs

in_use-middle :
    (front : List Handler) (h : Handler) (back : List Handler)
    → in_use (front ++ (h ∷ back)) ≡ weight h.phase + in_use (front ++ back)
unfolding in_use
in_use-middle [] h back = refl
in_use-middle (f ∷ front) h back = omega (arith, in_use-middle front h back)

pub record Counts (g : Gate) : Type 0 where
  pub exact : g.active ≡ in_use g.handlers
  pub past : g.last_use ≤ g.now

module _ (front : List Handler) (c : ℕ) (p q : Phase) (back : List Handler) (hs : List Handler)
    (a : hs ≡ front ++ (record { conn = c; phase = p } ∷ back)) where
  -- A handler that moves on changes the count by its own two weights.
  in_use_moved :
      in_use (front ++ (record { conn = c; phase = q } ∷ back)) + weight p ≡ in_use hs + weight q
  in_use_moved = rw a (
      omega (
        arith,
        in_use-middle front (record { conn = c; phase = p }) back,
        in_use-middle front (record { conn = c; phase = q }) back,
      ))

weight_tracked :
    (b : Bool) (u : ℕ)
    → (weight (if_tracked b tracked gone) ≡ 0) × (weight (if_tracked b (relaying u) leaving) ≡ 1)
weight_tracked true u = (refl, refl)
weight_tracked false u = (refl, refl)

weight_ready : (o : Option ℕ) → weight (if_ready o) ≡ 1
weight_ready none = refl
weight_ready (some h) = refl

-- An operation leaves the counters and the handlers alone.
abbrev SameCounters : Gate → Gate → Type 0
SameCounters g g' =
    (g'.active ≡ g.active)
    × (g'.last_use ≡ g.last_use)
    × (g'.now ≡ g.now)
    × (g'.handlers ≡ g.handlers)

track-SameCounters : (c : ℕ) (g : Gate) → SameCounters g (track c g).1
unfolding track
track-SameCounters c g = ground arith

forget-SameCounters : (c : ℕ) (g : Gate) → SameCounters g (forget c g)
unfolding forget
forget-SameCounters c g = ground arith

ensure-SameCounters : (b : Bringup) (g : Gate) → SameCounters g (ensure b g).1
unfolding ensure
ensure-SameCounters b g = ground arith

sweep_take-SameCounters : (g : Gate) → SameCounters g (sweep_take g)
unfolding sweep_take
sweep_take-SameCounters g = ground arith

close_begin-SameCounters : (g : Gate) → SameCounters g (close_begin g)
unfolding close_begin
close_begin-SameCounters g = ground arith

close_some-SameCounters : (o : Option ℕ) (g : Gate) → SameCounters g (close_some o g)
close_some-SameCounters o g = ground arith

Step-Counts : {g g' : Gate} → Step g g' → Counts g → Counts g'
unfolding in_use
Step-Counts clock i = record { exact = i.exact; past = omega arith }
Step-Counts (accept c l) i = record { exact = omega arith; past = i.past }
Step-Counts {g} (track_conn front c back a) i = omega (
  arith,
  track-SameCounters c g,
  weight_tracked (track c g).0 0,
  in_use_moved front c accepted (if_tracked (track c g).0 tracked gone) back g.handlers a,
)
Step-Counts {g} (count front c back a) i =
    omega (arith, in_use_moved front c tracked counted back g.handlers a)
Step-Counts {g} (bring front c back b a) i = omega (
  arith,
  ensure-SameCounters b g,
  weight_ready (ensure b g).0,
  in_use_moved front c counted (if_ready (ensure b g).0) back g.handlers a,
)
Step-Counts {g} (dial front c h u back a) i =
    omega (arith, in_use_moved front c (ready h) (dialed u) back g.handlers a)
Step-Counts {g} (dial_fails front c h back a) i =
    omega (arith, in_use_moved front c (ready h) leaving back g.handlers a)
Step-Counts {g} (track_upstream front c u back a) i = omega (
  arith,
  track-SameCounters u g,
  weight_tracked (track u g).0 u,
  in_use_moved front c (dialed u) (if_tracked (track u g).0 (relaying u) leaving) back g.handlers a,
)
Step-Counts {g} (relay_ends front c u back a) i =
    omega
      (arith, forget-SameCounters u g, in_use_moved front c (relaying u) leaving back g.handlers a)
Step-Counts {g} (uncount front c back n a e) i =
    omega (arith, in_use_moved front c leaving uncounted back g.handlers a)
Step-Counts {g} (finish front c back a) i =
    omega (arith, forget-SameCounters c g, in_use_moved front c uncounted gone back g.handlers a)
Step-Counts (tick_idle w t) i = record { exact = i.exact; past = i.past }
Step-Counts {g} (sweep_locked e) i = ground (arith, sweep_take-SameCounters g)
Step-Counts (sweep_close h e) i = record { exact = i.exact; past = i.past }
Step-Counts (sweep_ends e t) i = record { exact = i.exact; past = i.past }
Step-Counts {g} (close_call e) i = ground (arith, close_begin-SameCounters g)
Step-Counts (close_doors o e) i = record { exact = i.exact; past = i.past }
Step-Counts {g} (close_ends o e) i = ground (arith, close_some-SameCounters o g)

-- In every reachable state the counter is exactly the number of connections between their two
-- touches, and the last use is not after the clock.
pub active-Reach : {idle now : ℕ} {g : Gate} → Reach idle now g → Counts g
unfolding in_use
active-Reach here = omega arith
active-Reach (step r s) = Step-Counts s (active-Reach r)

-- In a reachable state that a tick finds idle, no connection is in use, the gate is not a resident
-- one, and at least the idle time has passed since the last touch.
pub is_idle-Reach :
    {idle now : ℕ} {g : Gate}
    → Reach idle now g
    → is_idle g ≡ true
    → (in_use g.handlers ≡ 0) × (0 < g.idle) × (g.last_use + g.idle ≤ g.now)
unfolding is_idle
is_idle-Reach {g = g} r e = ground (arith, active-Reach r)
