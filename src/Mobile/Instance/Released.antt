-- ===== src/Mobile/Instance/Released.antt =====
-- A NewInstance that fails, and a Close, leave nothing running.
use nunya_core.Common.{
  is_handle, ℕ, ◌+◌, ◌≡◌, ◌≤◌, ◌<◌, refl, Bool, true, false, ◌||◌, Option, none, some, List, [],
  ◌∷◌, if◌then◌else◌, contains, arith, Bool-cases, inl, inr, ==_iff, ◌≢◌,
}
use nunya_core.Xray.Gate.{Bringup, create_fails, prepare_fails, start_fails, succeeds}
use nunya_core.Xray.Startup.{World, begin, stop_one, start_xray_instance}
use nunya_core.Xray.Startup.Opened.{Opened, IsFresh, FullPost}
use nunya_core.Mobile.Instance.{
  XrayStack, close_stack, StartOptions, open_gates, all_open, start_xray_full_gates, add_full_gates,
  add_instance, start_main_xray, App, Instance, after_xray, new_instance, tear_down,
}

gates-Opened :
    (n : ℕ) (bs : List Bool) (w : World)
    → IsFresh n w
    → Opened n w (open_gates bs w).0 (open_gates bs w).1
unfolding open_gates contains
gates-Opened n [] w f = ground arith
gates-Opened n (false ∷ bs) w f = gates-Opened n bs w f
gates-Opened n (true ∷ bs) w f =
    let o = gates-Opened n bs (begin w) (λ e. ground arith) in
    record {
      same = ground (arith, o.same, f);
      grows = omega (arith, o.grows);
      new_from = λ e. ground (arith, o.new_from);
      new_to = λ e. ground (arith, o.new_to, o.grows);
    }

-- The stack names the handle.
abbrev names : ℕ → XrayStack → Bool
names n s =
    is_handle n s.instance_
    || (is_handle n s.gate || (contains s.full_gates n || contains s.full_instances n))

close_stack_live :
    (n : ℕ) (s : XrayStack) (w : World)
    → (close_stack s w).live n ≡ (if names n s then false else w.live n)
unfolding close_stack
close_stack_live n s w = ground arith

-- At `n`: what has been started since `w` is what the stack names.
record Owns (n : ℕ) (w : World) (s : XrayStack) (v : World) : Type 0 where
  same : v.live n ≡ (names n s || w.live n)
  grows : w.next ≤ v.next
  new_from : names n s ≡ true → w.next ≤ n
  new_to : names n s ≡ true → n < v.next

abbrev StackPost : ℕ → World → Option XrayStack × World → Type 0
StackPost n w (none, v) = v.live n ≡ w.live n
StackPost n w (some s, v) = Owns n w s v

full_gates-FullPost :
    (n : ℕ) (w : World) (bs : List Bool) → IsFresh n w → FullPost n w (start_xray_full_gates bs w)
unfolding start_xray_full_gates contains
full_gates-FullPost n w [] f = ground arith
full_gates-FullPost n w (false ∷ bs) f = ground arith
full_gates-FullPost n w (true ∷ bs) f =
    let o = gates-Opened n (true ∷ bs) w f in
    elim (Bool-cases (all_open bs)) [
      | inl a ↦ rw a o
      | inr a ↦ rw a (ground (arith, o.same, o.new_from, f), o.grows)
    ]

-- A stack without full gates.
abbrev base : Option ℕ → Option ℕ → XrayStack
base i g = record { instance_ = i; gate = g; full_gates = []; full_instances = [] }

add_full_gates-StackPost :
    (n : ℕ) (w : World) (i g : Option ℕ) (v : World) (r : Option (List ℕ) × World)
    → IsFresh n w
    → Owns n w (base i g) v
    → FullPost n v r
    → StackPost n w (add_full_gates (base i g) r)
unfolding contains
add_full_gates-StackPost n w i g v (none, u) f o p =
    ground (arith, close_stack_live n (base i g) u, o.same, o.new_from, p.0)
add_full_gates-StackPost n w i g v (some gs, u) f o p = record {
  same = ground (arith, o.same, p.same);
  grows = omega (arith, o.grows, p.grows);
  new_from = λ e. ground (arith, o.new_from, p.new_from, o.grows);
  new_to = λ e. ground (arith, o.new_to, p.new_to, p.grows);
}

Owns-IsFresh :
    (n : ℕ) (w : World) (s : XrayStack) (v : World) → IsFresh n w → Owns n w s v → IsFresh n v
Owns-IsFresh n w s v f o e = ground (arith, o.same, o.new_to, o.grows)

with_full :
    (n : ℕ) (w : World) (i g : Option ℕ) (v : World) (full : List Bool)
    → IsFresh n w
    → Owns n w (base i g) v
    → StackPost n w (add_full_gates (base i g) (start_xray_full_gates full v))
with_full n w i g v full f o =
    add_full_gates-StackPost n w i g v (start_xray_full_gates full v) f o
      (full_gates-FullPost n v full (Owns-IsFresh n w (base i g) v f o))

start_main_xray-StackPost :
    (n : ℕ) (w : World) (options : StartOptions) (gate_opens : Bool) (b : Bringup)
    (full : List Bool)
    → IsFresh n w
    → StackPost n w (start_main_xray options gate_opens b full w)
unfolding start_main_xray contains start_xray_instance
start_main_xray-StackPost n w options gate_opens b full f = elim (Bool-cases options.need_xray) [
  | inr e ↦ rw e (with_full n w none none w full f (ground arith))
  | inl e ↦ elim (Bool-cases options.xray_lazy_start) [
    | inr l ↦ rw (e, l) (eager b)
    | inl l ↦ elim (Bool-cases gate_opens) [
      | inr o ↦ rw (e, l, o) refl
      | inl o ↦ rw (e, l, o) (with_full n w none (some w.next) (begin w) full f (ground arith))
    ]
  ]
]
  where
    eager : (b : Bringup) → StackPost n w (add_instance full (start_xray_instance b w))
    eager create_fails = refl
    eager prepare_fails = ground arith
    eager start_fails = ground arith
    eager succeeds = with_full n w (some w.next) none (begin w) full f (ground arith)

-- A failure leaves what runs as it was; after a success, the teardown of Close does, and it takes
-- the protector of this platform away.
abbrev pub NewPost : ℕ → App → ℕ → Option Instance × App → Type 0
NewPost n app platform (none, after) = after.world.live n ≡ app.world.live n
NewPost n app platform (some i, after) =
    ((tear_down i after).world.live n ≡ app.world.live n) × ((tear_down i after).protector ≡ none)

made-NewPost :
    (n : ℕ) (app : App) (platform : ℕ) (parses box_made : Bool) (r : Option XrayStack × World)
    → IsFresh n app.world
    → StackPost n app.world r
    → NewPost n app platform (
      (after_xray platform parses box_made r).0,
      record { world = (after_xray platform parses box_made r).1; protector = some platform },
    )
unfolding tear_down
made-NewPost n app platform parses box_made (none, v) f o = o
made-NewPost n app platform false box_made (some s, v) f o =
    ground (arith, close_stack_live n s v, o.same, o.new_from, f)
made-NewPost n app platform true false (some s, v) f o = ground (
  arith,
  close_stack_live n s (stop_one (v.next + 1) (stop_one v.next (begin (begin v)))),
  o.same,
  o.new_from,
  o.new_to,
  o.grows,
  f,
)
made-NewPost n app platform true true (some s, v) f o =
    let three = begin (begin (begin v)) in
    (
      ground (
        arith,
        close_stack_live n s
            (stop_one (v.next + 1) (stop_one (begin (begin v)).next (stop_one v.next three))),
        o.same,
        o.new_from,
        o.new_to,
        o.grows,
        f,
      ),
      ground arith,
    )

-- For all options and all outcomes of the calls, where no handle to come is live: a NewInstance
-- that fails leaves what runs as it was; after one that succeeds, the teardown of Close does, and
-- leaves no protector.
pub new_instance-NewPost :
    (n : ℕ) (options : StartOptions) (platform : ℕ) (gate_opens : Bool) (b : Bringup)
    (full : List Bool) (parses box_made : Bool) (app : App)
    → IsFresh n app.world
    → NewPost n app platform (new_instance options platform gate_opens b full parses box_made app)
unfolding new_instance
new_instance-NewPost n options platform gate_opens b full parses box_made app f =
    made-NewPost n app platform parses box_made
      (start_main_xray options gate_opens b full app.world) f
      (start_main_xray-StackPost n app.world options gate_opens b full f)

-- If the box's config does not parse, NewInstance fails and the protector asks its platform
-- afterwards, whatever platform it asked before; closing the instance of another platform leaves
-- it so.
pub new_instance_keeps_protector :
    (options : StartOptions) (platform : ℕ) (gate_opens : Bool) (b : Bringup) (full : List Bool)
    (box_made : Bool) (app : App) (other : Instance)
    → other.platform ≢ platform
    → let r = new_instance options platform gate_opens b full false box_made app in
      (r.0 ≡ none)
      × (r.1.protector ≡ some platform)
      × ((tear_down other r.1).protector ≡ some platform)
unfolding new_instance tear_down
new_instance_keeps_protector options platform gate_opens b full box_made app other d = (
  by_stack (start_main_xray options gate_opens b full app.world),
  refl,
  ground (arith, ==_iff platform other.platform),
)
  where
    by_stack : (r : Option XrayStack × World) → (after_xray platform false box_made r).0 ≡ none
    by_stack (none, w) = refl
    by_stack (some s, w) = refl
