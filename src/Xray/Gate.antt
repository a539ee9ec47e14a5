-- ===== src/Xray/Gate.antt =====
-- internal/xray/gate.go: a Gate's state and what each of its methods does between two points where
-- another goroutine may run. The connections and instances are handles, numbers; times are
-- nanoseconds of one clock, `now`. The counter and the time of the last use change together, and a
-- tick reads them together. What Close does to the tracked sockets shows as their relays ending,
-- which a relay may do at any time.
pub mod Steps
pub mod Instances
pub mod Active
pub mod Interval
use nunya_core.Common.{
  ℕ, ◌+◌, ◌-◌, ◌*◌, ◌/◌, Bool, true, false, ◌&&◌, ◌||◌, Option, none, some, List, [], ◌∷◌, ◌==◌,
  ltb, leb, if◌then◌else◌, is_some,
}

abbrev pub second : ℕ
second = 1000000000

abbrev pub gate_sweep_interval : ℕ
gate_sweep_interval = 15 * second

abbrev pub min_gate_sweep_interval : ℕ
min_gate_sweep_interval = 2 * second

-- A time.Duration: `before n` is -(n + 1) nanoseconds.
pub data Duration : Type 0 where
  after : ℕ → Duration
  before : ℕ → Duration

unfoldable pub sweep_interval_for : Duration → ℕ
sweep_interval_for (before n) = gate_sweep_interval
sweep_interval_for (after idle) =
    if idle == 0 || leb gate_sweep_interval (idle / 2)
    then gate_sweep_interval
    else if ltb min_gate_sweep_interval (idle / 2)
    then idle / 2
    else min_gate_sweep_interval

-- The local variable of the sweeper: `checked` has seen the gate idle and not yet locked it.
pub data Sweeper : Type 0 where
  waiting checked ended : Sweeper
  closing : ℕ → Sweeper

-- How far a call of Close is, with the instance that it took.
pub data Closer : Type 0 where
  not_called finished : Closer
  marked : Option ℕ → Closer
  drained : Option ℕ → Closer

-- Where a goroutine of `handle` is.
pub data Phase : Type 0 where
  accepted tracked counted leaving uncounted gone : Phase
  ready : ℕ → Phase
  dialed relaying : ℕ → Phase

pub record Handler : Type 0 where
  pub conn : ℕ
  pub phase : Phase

pub record Gate : Type 0 where
  pub idle : ℕ  -- 0 keeps the instance resident
  pub instance_ : Option ℕ
  pub closed : Bool
  pub stopped : Bool
  pub listening : Bool
  pub conns : Option (List ℕ)  -- none is the nil map
  pub active : ℕ
  pub last_use : ℕ
  pub now : ℕ
  pub handlers : List Handler
  pub sweeper : Sweeper
  pub closer : Closer
  pub live : ℕ → Bool  -- the instances that run
  pub next : ℕ  -- the next instance's handle

abbrev pub touch : Gate → Gate
touch g = record g { last_use = g.now }

unfoldable pub remove : ℕ → List ℕ → List ℕ
remove c [] = []
remove c (d ∷ ds) = let rest = remove c ds in if d == c then rest else d ∷ rest

-- Adding to the set keeps one copy of a key.
unfoldable pub track : ℕ → Gate → Bool × Gate
unfolding remove
track c g = elim g.conns [
  | none ↦ (false, g)
  | some cs ↦ (true, record g { conns = some (c ∷ remove c cs) })
]

-- `delete` on the nil map does nothing.
unfoldable pub forget : ℕ → Gate → Gate
unfolding remove
forget c g = elim g.conns [ none ↦ g | some cs ↦ record g { conns = some (remove c cs) } ]

abbrev pub open_instance : Gate → Gate
open_instance g = record g { live = λ n. if n == g.next then true else g.live n; next = g.next + 1 }

abbrev pub close_instance : ℕ → Gate → Gate
close_instance h g = record g { live = λ n. if n == h then false else g.live n }

abbrev pub close_some : Option ℕ → Gate → Gate
close_some none g = g
close_some (some h) g = close_instance h g

-- What CreateXrayInstance, g.prepare and instance.Start return.
pub data Bringup : Type 0 where
  create_fails prepare_fails start_fails succeeds : Bringup

abbrev pub bring_up : Bringup → Gate → Option ℕ × Gate
bring_up create_fails g = (none, g)
bring_up prepare_fails g = (none, close_instance g.next (open_instance g))
bring_up start_fails g = (none, close_instance g.next (open_instance g))
bring_up succeeds g = (some g.next, record (open_instance g) { instance_ = some g.next })

-- `none` is an error.
unfoldable pub ensure : Bringup → Gate → Option ℕ × Gate
ensure b g =
    if g.closed then (none, g) else elim g.instance_ [ none ↦ bring_up b g | some h ↦ (some h, g) ]

-- The two tests of a tick of the sweeper, which takes no lock for them.
unfoldable pub is_idle : Gate → Bool
is_idle g = ltb 0 g.idle && (g.active == 0 && leb g.idle (g.now - g.last_use))

-- The locked part of a tick.
unfoldable pub sweep_take : Gate → Gate
sweep_take g = elim g.instance_ [
  | none ↦ record g { sweeper = waiting }
  | some h ↦ record g { instance_ = none; sweeper = closing h }
]

-- The locked part of Close; a second call returns at once.
unfoldable pub close_begin : Gate → Gate
close_begin g =
    if g.closed
    then g
    else record g { closed = true; closer = marked g.instance_; instance_ = none }
