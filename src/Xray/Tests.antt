-- ===== src/Xray/Tests.antt =====
-- internal/xray/gate.go at concrete inputs.
use nunya_core.Common.{
  ℕ, ◌+◌, ◌≡◌, refl, Bool, true, false, Option, none, some, List, [], ◌∷◌, ◌==◌, if◌then◌else◌,
}
use nunya_core.Common.{codes}
use nunya_core.Xray.Gate.{
  Gate, Phase, tracked, gone, checked, finished, closing, succeeds, track, forget, remove, ensure,
  is_idle, sweep_take, close_begin,
}
use nunya_core.Xray.Gate.Steps.{
  started, clock, accept, track_conn, count, bring, dial, track_upstream, relay_ends, uncount,
  finish, tick_idle, sweep_locked, close_call, close_doors, close_ends, Reach, here, step,
}
use nunya_core.Xray.Gate.Instances.{close-Reach, ready_swept}
use nunya_core.Xray.Remap.{positive, Inbound, entries, object, Address, remap_inbounds, start_gate}
use nunya_core.Xray.Remap.Open.{opens}
use nunya_core.Xray.Remap.Targets.{GatePost, start_gate-GatePost}

abbrev idle_ns : ℕ
idle_ns = 1

-- One connection has come and gone, and the idle time has passed.
abbrev rested : Gate
rested = record (started idle_ns 0) {
  instance_ = some 0;
  now = 1;
  handlers = record { conn = 0; phase = gone } ∷ [];
  live = λ n. if n == 0 then true else false;
  next = 1;
}

rested-Reach : Reach 1 0 rested
unfolding track forget remove ensure
rested-Reach =
    step
      (step
        (step
          (step
            (step
              (step
                (step
                  (step (step (step here (accept 0 refl)) (track_conn [] 0 [] refl))
                    (count [] 0 [] refl))
                  (bring [] 0 [] succeeds refl))
                (dial [] 0 0 5 [] refl))
              (track_upstream [] 0 5 [] refl))
            (relay_ends [] 0 5 [] refl))
          (uncount [] 0 [] 0 refl refl))
        (finish [] 0 [] refl))
      clock

-- The sweeper has looked, and a second connection has come.
abbrev looked : Gate
looked = record rested {
  conns = some (1 ∷ []);
  handlers = record { conn = 1; phase = tracked } ∷ record { conn = 0; phase = gone } ∷ [];
  sweeper = checked;
}

looked-Reach : Reach 1 0 looked
unfolding track remove is_idle
looked-Reach =
    step (step (step rested-Reach (tick_idle refl refl)) (accept 1 refl))
      (track_conn [] 1 (record { conn = 0; phase = gone } ∷ []) refl)

ready_swept_example :
    (g' : Gate) × Reach 1 0 g'
    × (g'.handlers
        ≡ record { conn = 1; phase = Phase.ready 0 } ∷ record { conn = 0; phase = gone } ∷ [])
    × (g'.active ≡ 1)
    × (g'.closed ≡ false)
    × (g'.live 0 ≡ false)
ready_swept_example =
    ready_swept 0 1 [] (record { conn = 0; phase = gone } ∷ []) looked-Reach refl refl refl

abbrev over : Gate
over = record rested {
  instance_ = none;
  closed = true;
  stopped = true;
  listening = false;
  conns = none;
  closer = finished;
  live = λ n. if n == 0 then false else (if n == 0 then true else false);
}

over-Reach : Reach 1 0 over
unfolding close_begin
over-Reach =
    step (step (step rested-Reach (close_call refl)) (close_doors (some 0) refl))
      (close_ends (some 0) refl)

-- Close while the sweeper is closing the instance that it took.
abbrev swept : Gate
swept = record rested {
  instance_ = none;
  closed = true;
  stopped = true;
  listening = false;
  conns = none;
  sweeper = closing 0;
  closer = finished;
}

swept-Reach : Reach 1 0 swept
unfolding close_begin is_idle sweep_take
swept-Reach =
    step
      (step
        (step (step (step rested-Reach (tick_idle refl refl)) (sweep_locked refl))
          (close_call refl))
        (close_doors none refl))
      (close_ends none refl)

close-Reach_example : swept.sweeper ≡ closing 0
close-Reach_example = close-Reach 0 swept-Reach refl refl

over_stopped : over.live 0 ≡ false
over_stopped = refl

-- A port above all that are held.
next_port : List Address → ℕ
next_port [] = 20000
next_port (a ∷ held) = a.port + next_port held + 1

abbrev any_port : List Address → List ℕ → Option ℕ
any_port held host = some (next_port held)

abbrev two_inbounds : List Inbound
two_inbounds =
    record { listen = none; port = positive 1080 }
    ∷ record { listen = some (codes "::1"); port = positive 1081 }
    ∷ []

-- An address that is not open can be taken over.
abbrev is_free : List Address → Address → Bool
is_free open_ a = opens a open_ == 0

abbrev mixed : List Address
mixed = record { host = codes "127.0.0.1"; port = 2080 } ∷ []

start_gate-GatePost_example :
    GatePost
      (λ is. true)
      is_free
      mixed
      (remap_inbounds any_port mixed (object (entries two_inbounds)))
      (start_gate any_port (λ is. true) is_free mixed (object (entries two_inbounds)))
start_gate-GatePost_example =
    start_gate-GatePost any_port (λ is. true) is_free mixed (object (entries two_inbounds))

-- The second gate is taken, so that the first one is closed again.
abbrev second_taken : List Address
second_taken = record { host = codes "::1"; port = 1081 } ∷ mixed

first_closed :
    (start_gate any_port (λ is. true) is_free second_taken (object (entries two_inbounds))).1
    ≡ second_taken
unfolding start_gate opens next_port
first_closed = refl
