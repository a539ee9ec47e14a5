-- ===== src/Mobile/Tests.antt =====
-- mobile at concrete inputs.
use nunya_core.Common.{◌≡◌, refl, true, false, none, some, [], ◌∷◌, arith, Sublist}
use nunya_core.Xray.Gate.{succeeds}
use nunya_core.Mobile.LogPump.{
  Pump, awake, Reach, idle, then_, sets_sink, sets_limit, pushes, starts, wakes, wakes_up, enqueue,
  limit_of,
}
use nunya_core.Mobile.LogPump.Order.{flow-Reach}
use nunya_core.Mobile.Instance.{StartOptions, App, Instance, new_instance, new_stack, tear_down}
use nunya_core.Mobile.Instance.Released.{
  NewPost, new_instance-NewPost, new_instance_keeps_protector,
}
use nunya_core.Mobile.Instance.Once
use nunya_core.Mobile.Instance.Once.{
  Life, teardowns-Reach, calls_start, box_starts_up, calls_close, tears_down, made, goes,
  start_locked, close_locked,
}

-- With room for one line, the second of three lines is dropped after the first was taken.
abbrev busy_pump : Pump
busy_pump = record {
  sink = some 1;
  limit = 1;
  pending = 12 ∷ [];
  notify = true;
  runner = awake;
  written = [];
  setters = 0;
  wakers = 0;
}

busy_pump-Reach : Reach (11 ∷ 12 ∷ []) busy_pump
unfolding enqueue limit_of
busy_pump-Reach =
    then_
      (then_
        (then_
          (then_
            (then_
              (then_ (then_ (then_ (then_ idle (sets_limit 1)) (sets_sink (some 1))) (pushes 11))
                (starts 0 refl))
              (wakes 1 refl))
            (pushes 12))
          (wakes_up refl refl))
        (wakes 1 refl))
      (wakes 0 refl)

flow-Reach_example : Sublist (12 ∷ []) (11 ∷ 12 ∷ [])
flow-Reach_example = flow-Reach busy_pump-Reach

abbrev lazy_options : StartOptions
lazy_options = record { need_xray = true; xray_lazy_start = true }

abbrev empty_app : App
empty_app = record { world = record { live = λ n. false; next = 0 }; protector = some 3 }

new_instance-NewPost_example :
    NewPost 1 empty_app 7
      (new_instance lazy_options 7 true succeeds (true ∷ true ∷ []) true true empty_app)
new_instance-NewPost_example =
    new_instance-NewPost 1 lazy_options 7 true succeeds (true ∷ true ∷ []) true true empty_app
      (λ e. cc)

abbrev other_instance : Instance
other_instance = record { platform = 3; context = 0; history = 0; box = 0; xray = new_stack }

new_instance_keeps_protector_example :
    ((new_instance lazy_options 7 true succeeds [] false true empty_app).0 ≡ none)
    × ((new_instance lazy_options 7 true succeeds [] false true empty_app).1.protector ≡ some 7)
    × ((tear_down other_instance
          (new_instance lazy_options 7 true succeeds [] false true empty_app).1).protector
        ≡ some 7)
new_instance_keeps_protector_example =
    new_instance_keeps_protector lazy_options 7 true succeeds [] true empty_app other_instance
      (λ e. omega (arith, e))

abbrev ended_life : Life
ended_life = record {
  started = true;
  closed = true;
  starting = 0;
  closing = 0;
  box_starts = 1;
  teardowns = 1;
}

ended_life-Reach : Once.Reach ended_life
unfolding start_locked close_locked
ended_life-Reach =
    goes (goes (goes (goes (goes made calls_start) calls_close) (box_starts_up 0 refl)) calls_close)
      (tears_down 0 refl)
