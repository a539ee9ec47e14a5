-- ===== src/Mobile/Instance.antt =====
-- mobile/xray.go and mobile/instance.go: the Xray side of an instance, NewInstance, and its Start
-- and Close. What runs is a World; the answers of the calls are arguments. The world's handles name
-- an Xray instance, a gate, the box's context, its history or the box.
pub mod Released
pub mod Once
use nunya_core.Common.{
  ℕ, ◌+◌, ◌≡◌, Bool, true, false, not, ◌&&◌, ◌||◌, Option, none, some, List, [], ◌∷◌, ◌++◌, ◌==◌,
  if◌then◌else◌, contains,
}
use nunya_core.Xray.Gate.{Bringup}
use nunya_core.Xray.Startup.{World, begin, stop_one, close_xray_instances, start_xray_instance}

pub record XrayStack : Type 0 where
  pub instance_ : Option ℕ
  pub gate : Option ℕ
  pub full_gates : List ℕ
  pub full_instances : List ℕ

abbrev pub new_stack : XrayStack
new_stack = record { instance_ = none; gate = none; full_gates = []; full_instances = [] }

abbrev pub stop_some : Option ℕ → World → World
stop_some none w = w
stop_some (some h) w = stop_one h w

-- A loop of Close over gates.
abbrev pub close_gates : List ℕ → World → World
close_gates hs w = record w { live = λ n. if contains hs n then false else w.live n }

unfoldable pub close_stack : XrayStack → World → World
close_stack s w =
    stop_some s.instance_
      (close_xray_instances s.full_instances (close_gates s.full_gates (stop_some s.gate w)))

pub record StartOptions : Type 0 where
  pub need_xray : Bool
  pub xray_lazy_start : Bool

-- Each gate that can be opened; an entry tells whether StartGate succeeds for that config.
unfoldable pub open_gates : List Bool → World → List ℕ × World
open_gates [] w = ([], w)
open_gates (true ∷ rest) w = let (gates, v) = open_gates rest (begin w) in (w.next ∷ gates, v)
open_gates (false ∷ rest) w = open_gates rest w

unfoldable pub all_open : List Bool → Bool
all_open [] = true
all_open (b ∷ bs) = b && all_open bs

-- startXrayFullGates: the first config goes alone, then the others; any error closes all.
unfoldable pub start_xray_full_gates : List Bool → World → Option (List ℕ) × World
unfolding open_gates all_open
start_xray_full_gates [] w = (some [], w)
start_xray_full_gates (false ∷ rest) w = (none, w)
start_xray_full_gates (true ∷ rest) w =
    let (gates, v) = open_gates (true ∷ rest) w in
    if all_open rest then (some gates, v) else (none, close_gates gates v)

-- The end of startMainXray, with the stack so far and what startXrayFullGates returns.
abbrev pub add_full_gates : XrayStack → Option (List ℕ) × World → Option XrayStack × World
add_full_gates stack (none, w) = (none, close_stack stack w)
add_full_gates stack (some gates, w) = (some (record stack { full_gates = gates }), w)

abbrev pub add_instance : List Bool → Option ℕ × World → Option XrayStack × World
add_instance full (none, w) = (none, w)
add_instance full (some h, w) =
    add_full_gates (record new_stack { instance_ = some h }) (start_xray_full_gates full w)

unfoldable pub start_main_xray :
    StartOptions → Bool → Bringup → List Bool → World → Option XrayStack × World
unfolding start_xray_full_gates close_stack
start_main_xray options gate_opens instance_comes full w =
    if not options.need_xray
    then add_full_gates new_stack (start_xray_full_gates full w)
    else if not options.xray_lazy_start
    then add_instance full (start_xray_instance instance_comes w)
    else if gate_opens
    then add_full_gates (record new_stack { gate = some w.next })
        (start_xray_full_gates full (begin w))
    else (none, w)

-- The process: what runs, and the platform whose protector the dialer asks.
pub record App : Type 0 where
  pub world : World
  pub protector : Option ℕ

pub record Instance : Type 0 where
  pub platform : ℕ
  pub context : ℕ
  pub history : ℕ
  pub box : ℕ
  pub xray : XrayStack

-- After parseConfig: the context, the history and box.New.
abbrev pub make_box : ℕ → Bool → XrayStack → World → Option Instance × World
make_box platform box_made stack w =
    let context = w.next in
    let history = w.next + 1 in
    let both = begin (begin w) in
    if box_made
    then (
      some (record {
        platform = platform;
        context = context;
        history = history;
        box = both.next;
        xray = stack;
      }),
      begin both,
    )
    else (none, close_stack stack (stop_one history (stop_one context both)))

abbrev pub after_xray : ℕ → Bool → Bool → Option XrayStack × World → Option Instance × World
after_xray platform parses box_made (none, w) = (none, w)
after_xray platform parses box_made (some stack, w) =
    if parses then make_box platform box_made stack w else (none, close_stack stack w)

-- NewInstance, with a platform and options.
unfoldable pub new_instance :
    StartOptions → ℕ → Bool → Bringup → List Bool → Bool → Bool → App → Option Instance × App
unfolding start_main_xray
new_instance options platform gate_opens instance_comes full parses box_made app =
    let made =
      after_xray platform parses box_made
        (start_main_xray options gate_opens instance_comes full app.world) in
    (made.0, record { world = made.1; protector = some platform })

-- The teardown of Close: closeBoxWithTimeout waits for the box, whatever its timer says.
unfoldable pub tear_down : Instance → App → App
unfolding close_stack
tear_down i app = record {
  world = close_stack i.xray (stop_one i.history (stop_one i.box (stop_one i.context app.world)));
  protector = elim app.protector [
    | none ↦ none
    | some p ↦ if p == i.platform then none else some p
  ];
}
